-- ===== src/Intent/Service/Record.antt =====
-- What `validate_and_record_intent_node` (app/intent/service.py) records and accepts.
use mathlib.Core.Option.{some-injective}
use bu_iam.Prelude.{
  ◌≡◌, refl, sym, ◌∙◌, ap, subst, ◌⊎◌, inl, inr, false, Option, none, some, arith, ◌==◌, eq_refl,
  Bool-cases,
}
use bu_iam.Prelude.Result.{ok, err, Result-cases}
use bu_iam.Libs.{Libs}
use bu_iam.Protocol.{IntentNode}
use bu_iam.Protocol.Errors.{judge_error, Read}
use bu_iam.World.{World, IntentRow}
use bu_iam.Store.IntentTree.{intent_row, get_intent_node, get_intent_node-upsert}
use bu_iam.Intent.Branch.{validate_branch}
use bu_iam.Intent.Branch.Walk.{validate_branch_total}
use bu_iam.Intent.Branch.Ancestry.{Ancestry, validate_branch-Ancestry}
use bu_iam.Intent.Service.{
  Judge, Placing, Submission, IntentJudgeResult, IntentValidationResult, placing, placed_by,
  judge_request, record_node, record_judged, check_node, record_branch, record_checked,
  validate_and_record_intent_node, validation_result,
}

-- A node that is recorded: it passed its checks, its root was found, and a judgement stands by it.
pub record Recorded (lib : Libs) (s : Submission) (w w' : World) : Type 0 where
  pub checked : check_node lib s w ≡ ok tt
  pub root_node : IntentNode
  pub parent_node : IntentNode
  pub lineage : Ancestry lib w (some s.trace_id) root_node s.node
  pub judgement : IntentJudgeResult
  pub written : w' ≡ record_node lib (placing s root_node parent_node) judgement w

judged-Recorded :
    (lib : Libs) (p : Placing) (answer : Read IntentJudgeResult) (w w' : World)
    (out : Read IntentValidationResult)
    → record_judged lib p answer w ≡ (out, w')
    → (w' ≡ w) ⊎ ((j : IntentJudgeResult) × (w' ≡ record_node lib p j w))
unfolding record_judged
judged-Recorded lib p (err (judge_error m)) w w' out h = inr (_, sym (ap (λ q. q.1) h))
judged-Recorded lib p (err _) w w' out h = inl (sym (ap (λ q. q.1) h))
judged-Recorded lib p (ok j) w w' out h = inr (j, sym (ap (λ q. q.1) h))

branch-Recorded :
    (lib : Libs) (judge : Judge) (s : Submission) (found : Option (Read (IntentNode × IntentNode)))
    (w w' : World) (out : Read IntentValidationResult)
    → check_node lib s w ≡ ok tt
    → validate_branch lib (some s.trace_id) s.node w ≡ found
    → record_branch lib judge s found w ≡ some (out, w')
    → (w' ≡ w) ⊎ Recorded lib s w w'
unfolding record_branch
branch-Recorded lib judge s none w w' out checked walked h = absurd (cc)
branch-Recorded lib judge s (some (err e)) w w' out checked walked h =
    inl (sym (ap (λ q. q.1) (some-injective _ _ h)))
branch-Recorded lib judge s (some (ok (root, parent))) w w' out checked walked h =
    elim (judged-Recorded lib (placing s root parent)
      (judge (judge_request (placing s root parent))) w w' out (some-injective _ _ h)) [
        | inl same ↦ inl same
        | inr (j, written) ↦ inr (record {
          checked = checked;
          root_node = root;
          parent_node = parent;
          lineage = validate_branch-Ancestry lib w (some s.trace_id) s.node root parent walked;
          judgement = j;
          written = written;
        })
      ]

-- Whatever the judge answers, if `validate_and_record_intent_node` comes back, with a result or an
-- exception, it has left the tables as they were, or it has recorded the node, whose own checks
-- and whose walk to a root have succeeded.
pub validate_and_record-Recorded :
    (lib : Libs) (judge : Judge) (s : Submission) (w w' : World) (out : Read IntentValidationResult)
    → validate_and_record_intent_node lib judge s w ≡ some (out, w')
    → (w' ≡ w) ⊎ Recorded lib s w w'
unfolding validate_and_record_intent_node record_checked
validate_and_record-Recorded lib judge s w w' out h = elim (Result-cases (check_node lib s w)) [
  | inl (e, failed) ↦ inl (sym (ap (λ q. q.1) (some-injective _ _ (rw failed at h))))
  | inr (u, checked) ↦
      branch-Recorded lib judge s (validate_branch lib (some s.trace_id) s.node w) w w' out checked
        refl (rw checked at h)
]

record_branch-returns :
    (lib : Libs) (judge : Judge) (s : Submission) (found : Read (IntentNode × IntentNode))
    (w : World)
    → (out : Read IntentValidationResult) × (w' : World) × (record_branch lib judge s (some found) w
        ≡ some (out, w'))
unfolding record_branch
record_branch-returns lib judge s (err e) w = (err e, w, refl)
record_branch-returns lib judge s (ok (root, parent)) w =
    let p = placing s root parent in
    let out = record_judged lib p (judge (judge_request p)) w in (out.0, out.1, refl)

-- The call always comes back, with a result or an error, whatever the tree holds.
pub validate_and_record_total :
    (lib : Libs) (judge : Judge) (s : Submission) (w : World)
    → (out : Read IntentValidationResult) × (w' : World) × (validate_and_record_intent_node lib
          judge s w
        ≡ some (out, w'))
unfolding validate_and_record_intent_node record_checked
validate_and_record_total lib judge s w = elim (Result-cases (check_node lib s w)) [
  | inl (e, failed) ↦ (err e, w, rw failed)
  | inr (u, checked) ↦
      let (found, walked) = validate_branch_total lib (some s.trace_id) s.node w in
      let (out, w', returned) = record_branch-returns lib judge s found w in
      (out, w', rw (checked, walked) returned)
]

-- What an accepted node has: its own checks, a lineage to the root that is returned, a judgement
-- other than drifted, and a row of its own under that root.
pub record Accepted (lib : Libs) (s : Submission) (w w' : World) (r : IntentValidationResult)
    : Type 0 where
  pub checked : check_node lib s w ≡ ok tt
  pub lineage : Ancestry lib w (some s.trace_id) r.root_node s.node
  pub kept : (r.judge_decision == "Drifted") ≡ false
  pub stored :
      (row : IntentRow) × (get_intent_node s.node.node_id w' ≡ some row)
      × (row.node ≡ s.node)
      × (row.root_node_id ≡ r.root_node.node_id)

get_intent_node-record :
    (lib : Libs) (p : Placing) (j : IntentJudgeResult) (w : World)
    → get_intent_node p.node.node_id (record_node lib p j w)
      ≡ some (intent_row lib p.node (placed_by p j) w)
unfolding record_node
get_intent_node-record lib p j w =
    get_intent_node-upsert lib p.node.node_id p.node (placed_by p j) w ∙ rw (eq_refl p.node.node_id)

judged-Accepted :
    (lib : Libs) (s : Submission) (root parent : IntentNode) (answer : Read IntentJudgeResult)
    (w w' : World) (r : IntentValidationResult)
    → check_node lib s w ≡ ok tt
    → Ancestry lib w (some s.trace_id) root s.node
    → record_judged lib (placing s root parent) answer w ≡ (ok r, w')
    → Accepted lib s w w' r
unfolding record_judged placing validation_result
judged-Accepted lib s root parent (err (judge_error m)) w w' r checked lineage h = absurd (cc)
judged-Accepted lib s root parent (err _) w w' r checked lineage h = absurd (cc)
judged-Accepted lib s root parent (ok j) w w' r checked lineage h =
    elim (Bool-cases (j.decision == "Drifted")) [
      | inl drifted ↦ absurd (cc (rw drifted at h))
      | inr kept ↦
          let p = placing s root parent in
          let both : (ok (validation_result p j), record_node lib p j w) ≡ (ok r, w') =
            rw kept at h in
          let same : validation_result p j ≡ r = cc (ap (λ q. q.0) both) in
          subst (λ v. Accepted lib s w v r) (ap (λ q. q.1) both)
            (subst (λ x. Accepted lib s w (record_node lib p j w) x) same
              (record {
                checked = checked;
                lineage = lineage;
                kept = kept;
                stored = (
                  intent_row lib s.node (placed_by p j) w,
                  get_intent_node-record lib p j w,
                  unfold intent_row in refl,
                  unfold intent_row placed_by in refl,
                );
              }))
    ]

branch-Accepted :
    (lib : Libs) (judge : Judge) (s : Submission) (found : Option (Read (IntentNode × IntentNode)))
    (w w' : World) (r : IntentValidationResult)
    → check_node lib s w ≡ ok tt
    → validate_branch lib (some s.trace_id) s.node w ≡ found
    → record_branch lib judge s found w ≡ some (ok r, w')
    → Accepted lib s w w' r
unfolding record_branch
branch-Accepted lib judge s none w w' r checked walked h = absurd (cc)
branch-Accepted lib judge s (some (err e)) w w' r checked walked h = absurd (ground (arith, h))
branch-Accepted lib judge s (some (ok (root, parent))) w w' r checked walked h =
    judged-Accepted lib s root parent (judge (judge_request (placing s root parent))) w w' r checked
      (validate_branch-Ancestry lib w (some s.trace_id) s.node root parent walked)
      (some-injective _ _ h)

-- If `validate_and_record_intent_node` returns a result, the node has passed its own checks, its
-- ancestors up to the root of the result are stored in the trace with valid ids and signatures, it
-- was not judged drifted, and it is stored under that root.
pub validate_and_record-Accepted :
    (lib : Libs) (judge : Judge) (s : Submission) (w w' : World) (r : IntentValidationResult)
    → validate_and_record_intent_node lib judge s w ≡ some (ok r, w')
    → Accepted lib s w w' r
unfolding validate_and_record_intent_node record_checked
validate_and_record-Accepted lib judge s w w' r h = elim (Result-cases (check_node lib s w)) [
  | inl (e, failed) ↦ absurd (ground (arith, rw failed at h))
  | inr (u, checked) ↦
      branch-Accepted lib judge s (validate_branch lib (some s.trace_id) s.node w) w w' r checked
        refl (rw checked at h)
]
