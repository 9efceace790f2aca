-- ===== src/Intent/Judge/Verdict.antt =====
-- What `judge_intent` (app/intent/judge.py) can say, and what it has said of an accepted node.
use mathlib.Core.Option.{some-injective}
use bu_iam.Prelude.{
  String, ◌≡◌, refl, sym, ap, ◌∙◌, subst, inl, inr, Bool, true, false, ◌||◌, Option, none, some,
  ◌==◌, eq_iff, arith, Bool-cases, if◌then◌else◌,
}
use bu_iam.Prelude.Result.{ok, err, or_raise, ◌>>=◌, ok-injective, Result-cases}
use bu_iam.Json.{Json, text, arr, obj, get}
use bu_iam.Libs.{Libs}
use bu_iam.Protocol.{IntentNode}
use bu_iam.Protocol.Errors.{Exception, judge_error, other, Read}
use bu_iam.World.{World}
use bu_iam.Intent.Answer.{answer_fields}
use bu_iam.Intent.Models.{Environment, Post}
use bu_iam.Intent.Judge.{
  ask_openai, ask_anthropic, demo_answer, judgement, parse_judge_response, reason_text,
  request_json, judge_with, judge_intent,
}
use bu_iam.Intent.Service.Record.{Accepted, validate_and_record-Accepted}
use bu_iam.Intent.Branch.{validate_branch}
use bu_iam.Intent.Service.{
  Judge, JudgeRequest, IntentJudgeResult, IntentValidationResult, Submission, Placing, placing,
  check_node, record_judged, record_branch, record_checked, record_node, validation_result,
  validate_and_record_intent_node,
}

pub data IsVerdict (decision : String) : Type 0 where
  consistent : decision ≡ "Consistent" → IsVerdict decision
  drifted : decision ≡ "Drifted" → IsVerdict decision

text-IsVerdict : (t : String) → (t == "Consistent" || t == "Drifted") ≡ true → IsVerdict t
text-IsVerdict t h = elim (Bool-cases (t == "Consistent")) [
  | inl same ↦ consistent ((eq_iff t "Consistent").0 same)
  | inr differs ↦ drifted ((eq_iff t "Drifted").0 (ground (arith, differs, h)))
]

-- an exception, or one of the two verdicts
data IsJudged : Read IntentJudgeResult → Type 0 where
  judged : (j : IntentJudgeResult) → IsVerdict j.decision → IsJudged (ok j)
  raised : (x : Exception) → IsJudged (err x)

if-IsJudged :
    (test : Bool) (m n : Read IntentJudgeResult)
    → IsJudged m
    → IsJudged n
    → IsJudged (if test then m else n)
if-IsJudged true m n hm hn = hm
if-IsJudged false m n hm hn = hn

guarded-IsJudged :
    (test : Bool) (j : IntentJudgeResult) (x : Exception)
    → (test ≡ true → IsVerdict j.decision)
    → IsJudged (if test then ok j else err x)
guarded-IsJudged true j x h = judged j (h refl)
guarded-IsJudged false j x h = raised x

bind-IsJudged :
    {A : Type 0} (m : Read A) (f : A → Read IntentJudgeResult)
    → ((a : A) → IsJudged (f a))
    → IsJudged (m >>= f)
bind-IsJudged (ok a) f h = h a
bind-IsJudged (err x) f h = raised x

judgement-IsJudged : (o : Option Json) (reason : String) → IsJudged (judgement o reason)
unfolding judgement
judgement-IsJudged (some (text t)) reason =
    guarded-IsJudged (t == "Consistent" || t == "Drifted") _ _ (text-IsVerdict t)
judgement-IsJudged (some (arr vs)) reason = raised _
judgement-IsJudged (some (obj fs)) reason = raised _
judgement-IsJudged o reason = raised _

parse-IsJudged : (lib : Libs) (raw : Json) → IsJudged (parse_judge_response lib raw)
unfolding parse_judge_response
parse-IsJudged lib raw =
    bind-IsJudged (answer_fields lib (judge_error "intent judge returned non-json output") raw) _
      (λ fs. judgement-IsJudged (get "decision" fs) (reason_text lib (get "reason" fs)))

with-IsJudged :
    (lib : Libs) (env : Environment) (call : String → String → Read Json) (q : JudgeRequest)
    → IsJudged (judge_with lib env call q)
unfolding judge_with
with-IsJudged lib env call q =
    bind-IsJudged (or_raise env.judge_prompt (other "OSError")) _ (λ prompt.
      bind-IsJudged (call prompt (lib.dumps_plain (request_json q))) _ (parse-IsJudged lib))

intent-IsJudged :
    (lib : Libs) (env : Environment) (post : Post) (q : JudgeRequest)
    → IsJudged (judge_intent lib env post q)
unfolding judge_intent
intent-IsJudged lib env post q =
    let asked = with-IsJudged lib env (ask_anthropic env post) q in
    let asked_too = with-IsJudged lib env (ask_openai env post) q in
    let demo = judged demo_answer (consistent refl) in
    search (if-IsJudged, raised, asked, asked_too, demo)

-- A node that is accepted has the verdict of the judge in its result.
judged-by :
    (lib : Libs) (p : Placing) (answer : Read IntentJudgeResult) (w w' : World)
    (r : IntentValidationResult)
    → record_judged lib p answer w ≡ (ok r, w')
    → IsJudged answer
    → IsVerdict r.judge_decision
unfolding record_judged validation_result
judged-by lib p answer w w' r h (judged j verdict) = elim (Bool-cases (j.decision == "Drifted")) [
  | inl away ↦ absurd (cc (rw away at h))
  | inr kept ↦
      let both : (ok (validation_result p j), record_node lib p j w) ≡ (ok r, w') = rw kept at h in
      subst (λ (x : IntentValidationResult). IsVerdict x.judge_decision)
        (ok-injective (ap (λ q. q.0) both)) verdict
]
judged-by lib p answer w w' r h (raised (judge_error m)) = absurd (cc (ap (λ q. q.0) h))
judged-by lib p answer w w' r h (raised x) = absurd (cc (ap (λ q. q.0) h))

branch-by :
    (lib : Libs) (judge : Judge) (s : Submission) (found : Option (Read (IntentNode × IntentNode)))
    (w w' : World) (r : IntentValidationResult)
    → ((q : JudgeRequest) → IsJudged (judge q))
    → record_branch lib judge s found w ≡ some (ok r, w')
    → IsVerdict r.judge_decision
unfolding record_branch
branch-by lib judge s none w w' r judges h = absurd (cc h)
branch-by lib judge s (some (err e)) w w' r judges h = absurd (ground (arith, h))
branch-by lib judge s (some (ok (root, parent))) w w' r judges h =
    judged-by lib (placing s root parent) _ w w' r (some-injective _ _ h) (judges _)

validate_and_record-by :
    (lib : Libs) (judge : Judge) (s : Submission) (w w' : World) (r : IntentValidationResult)
    → ((q : JudgeRequest) → IsJudged (judge q))
    → validate_and_record_intent_node lib judge s w ≡ some (ok r, w')
    → IsVerdict r.judge_decision
unfolding validate_and_record_intent_node record_checked
validate_and_record-by lib judge s w w' r judges h = elim (Result-cases (check_node lib s w)) [
  | inl (e, failed) ↦ absurd (ground (arith, rw failed at h))
  | inr (u, checked) ↦
      branch-by lib judge s (validate_branch lib (some s.trace_id) s.node w) w w' r judges
        (rw checked at h)
]

not_drifted : (t : String) → IsVerdict t → (t == "Drifted") ≡ false → t ≡ "Consistent"
not_drifted t (consistent same) kept = same
not_drifted t (drifted same) kept = absurd (cc (sym kept ∙ (eq_iff t "Drifted").1 same))

-- Whatever the judge's model answers, if `validate_and_record_intent_node` with `judge_intent`
-- returns a result, the node was judged Consistent, has passed its own checks, has a stored
-- lineage to the root that is returned, and is stored.
pub judge_intent-Consistent :
    (lib : Libs) (env : Environment) (post : Post) (s : Submission) (w w' : World)
    (r : IntentValidationResult)
    → validate_and_record_intent_node lib (judge_intent lib env post) s w ≡ some (ok r, w')
    → (r.judge_decision ≡ "Consistent") × Accepted lib s w w' r
judge_intent-Consistent lib env post s w w' r h =
    let accepted = validate_and_record-Accepted lib (judge_intent lib env post) s w w' r h in
    (
      not_drifted r.judge_decision
          (validate_and_record-by lib (judge_intent lib env post) s w w' r
            (intent-IsJudged lib env post) h)
          accepted.kept,
      accepted,
    )
