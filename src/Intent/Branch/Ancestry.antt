-- ===== src/Intent/Branch/Ancestry.antt =====
-- What the walk of `validate_branch` (app/intent/service.py) says of the nodes above an accepted one.
use bu_iam.Prelude.{
  ℕ, zero, suc, String, ◌≡◌, sym, ◌∙◌, ap, subst, inl, inr, Option, none, some, List, [], ◌∷◌,
  arith, Bool-cases, Option-cases,
}
use bu_iam.Prelude.Sets.{contains}
use bu_iam.Prelude.Result.{ok, err, Result-cases}
use bu_iam.Libs.{Libs}
use bu_iam.Protocol.{IntentNode}
use bu_iam.Protocol.Errors.{Read}
use bu_iam.World.{World}
use bu_iam.Intent.Branch.{
  parent_row, ancestor_row, climb, climb_fuel, with_parent, branch_from, validate_branch,
}
use bu_iam.Intent.Branch.Walk.{
  climb-seen, climb-failed, climb-next, Stored, ancestor_row-Stored, parent_row-Stored,
}

-- `root` is reached from a node along stored parents of one trace, each with the id of its content
-- and a signature of its actor, and has no parent itself.
pub data Ancestry (lib : Libs) (w : World) (trace : Option String) (root : IntentNode)
    : IntentNode → Type 0 where
  at_root : root.parent_node_id ≡ none → Ancestry lib w trace root root
  above :
      (pid : String) (current parent : IntentNode)
      → current.parent_node_id ≡ some pid
      → Stored lib w trace pid parent
      → Ancestry lib w trace root parent
      → Ancestry lib w trace root current

climb-Ancestry :
    (lib : Libs) (w : World) (trace : Option String) (fuel : ℕ) (visited : List String)
    (current root : IntentNode)
    → climb lib fuel trace visited current w ≡ some (ok root)
    → Ancestry lib w trace root current
unfolding climb
climb-Ancestry lib w trace zero visited current root h = absurd (cc)
climb-Ancestry lib w trace (suc fuel) visited current root h =
    elim (Option-cases current.parent_node_id) [
      | inl top ↦
          (let same : current ≡ root = ground (arith, rw top at h) in
            subst (λ n. Ancestry lib w trace root n) (sym same)
              (at_root (ap (λ (n : IntentNode). n.parent_node_id) (sym same) ∙ top)))
      | inr (pid, has) ↦ elim (Bool-cases (contains current.node_id visited)) [
        | inl seen ↦ absurd (cc (climb-seen lib w trace fuel visited current pid has seen, h))
        | inr fresh ↦ elim (Result-cases (ancestor_row lib trace pid w)) [
          | inl (e, failed) ↦
              absurd (cc (climb-failed lib w trace fuel visited current pid has e fresh failed, h))
          | inr (next, read) ↦
              above pid current next has (ancestor_row-Stored lib trace pid w next read) (
                climb-Ancestry lib w trace fuel (current.node_id ∷ visited) next root
                  (sym (climb-next lib w trace fuel visited current pid has next fresh read) ∙ h))
        ]
      ]
    ]

with_parent-ok :
    (p root parent : IntentNode) (out : Option (Read IntentNode))
    → with_parent p out ≡ some (ok (root, parent))
    → out ≡ some (ok root)
unfolding with_parent
with_parent-ok p root parent none h = absurd (cc)
with_parent-ok p root parent (some (err e)) h = absurd (cc)
with_parent-ok p root parent (some (ok r)) h = ground (arith, h)

-- If `validate_branch` of app/intent returns a root, the root has no parent and is reached from
-- the node along parents stored in the trace, each with a valid id and signature.
pub validate_branch-Ancestry :
    (lib : Libs) (w : World) (trace : Option String) (node root parent : IntentNode)
    → validate_branch lib trace node w ≡ some (ok (root, parent))
    → Ancestry lib w trace root node
unfolding validate_branch branch_from
validate_branch-Ancestry lib w trace node root parent h = elim (Option-cases node.parent_node_id) [
  | inl top ↦
      (let same : node ≡ root = ground (arith, rw top at h) in
        subst (λ n. Ancestry lib w trace root n) (sym same)
          (at_root (ap (λ (n : IntentNode). n.parent_node_id) (sym same) ∙ top)))
  | inr (pid, has) ↦ elim (Result-cases (parent_row lib trace pid w)) [
    | inl (e, failed) ↦ absurd (cc (rw (has, failed) at h))
    | inr (p, read) ↦ above pid node p has (parent_row-Stored lib trace pid w p read) (
        climb-Ancestry lib w trace (climb_fuel w) (node.node_id ∷ []) p root
          (with_parent-ok p root parent _ (rw (has, read) at h)))
  ]
]
