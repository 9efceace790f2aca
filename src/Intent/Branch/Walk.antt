-- ===== src/Intent/Branch/Walk.antt =====
-- The loop of `validate_branch` (app/intent/service.py) ends: every turn sees a stored id that it
-- has not seen before.
use bu_iam.Prelude.{
  ℕ, zero, suc, ◌≤◌, ◌<◌, String, ◌≡◌, refl, sym, ◌∙◌, ap, subst, inl, inr, true, false, Option,
  some, List, [], ◌∷◌, arith, ◌==◌, eq_iff, eq_refl, length, Bool-cases, Option-cases,
  if◌then◌else◌,
}
use bu_iam.Prelude.Sets.{contains}
use bu_iam.Prelude.Result.{ok, err, guard, ◌>>=◌, >>=-eq-ok, Result-cases}
use bu_iam.Libs.{Libs}
use bu_iam.Protocol.{IntentNode}
use bu_iam.Protocol.Errors.{Exception, Read}
use bu_iam.World.{World, IntentRow}
use bu_iam.Store.IntentTree.{find_node, get_intent_node}
use bu_iam.Intent.Crypto.{intent_hash}
use bu_iam.Intent.Branch.{
  chain_invalid, same_trace, validate_node_hash_and_signature, parent_row, ancestor_row, climb,
  climb_fuel, with_parent, branch_from, validate_branch,
}

-- The rows whose id has not been seen.
unfoldable unseen : List String → List IntentRow → ℕ
unseen visited [] = 0
unseen visited (x ∷ xs) =
    if contains x.node.node_id visited then unseen visited xs else suc (unseen visited xs)

unseen-cons-le :
    (i : String) (visited : List String) (rows : List IntentRow)
    → unseen (i ∷ visited) rows ≤ unseen visited rows
unfolding unseen contains
unseen-cons-le i visited [] = omega arith
unseen-cons-le i visited (x ∷ xs) = ground (arith, unseen-cons-le i visited xs)

unseen-cons-lt :
    (i : String) (visited : List String) (rows : List IntentRow) (r : IntentRow)
    → find_node i rows ≡ some r
    → contains i visited ≡ false
    → unseen (i ∷ visited) rows < unseen visited rows
unfolding unseen contains find_node
unseen-cons-lt i visited [] r h fresh = cc
unseen-cons-lt i visited (x ∷ xs) r h fresh = elim (Bool-cases (x.node.node_id == i)) [
  | inl here ↦
      ground (arith, unseen-cons-le i visited xs, eq_iff x.node.node_id i, eq_refl i, here, fresh)
  | inr there ↦ ground (
    arith,
    unseen-cons-lt i visited xs r (rw there at h) fresh,
    eq_iff x.node.node_id i,
    eq_iff i x.node.node_id,
    there,
  )
]

unseen-length : (visited : List String) (rows : List IntentRow) → unseen visited rows ≤ length rows
unfolding unseen
unseen-length visited [] = omega arith
unseen-length visited (x ∷ xs) = ground (arith, unseen-length visited xs)

find_node-id :
    (i : String) (rows : List IntentRow) (r : IntentRow)
    → find_node i rows ≡ some r
    → r.node.node_id ≡ i
unfolding find_node
find_node-id i [] r h = cc
find_node-id i (x ∷ xs) r h = elim (Bool-cases (x.node.node_id == i)) [
  | inl here ↦
      (let same : x ≡ r = cc (rw here at h) in
        ap (λ (y : IntentRow). y.node.node_id) (sym same) ∙ (eq_iff x.node.node_id i).0 here)
  | inr there ↦ find_node-id i xs r (rw there at h)
]

pub get_intent_node-id :
    (i : String) (w : World) (r : IntentRow) → get_intent_node i w ≡ some r → r.node.node_id ≡ i
unfolding get_intent_node
get_intent_node-id i w r h = find_node-id i w.intent_tree r h

-- What a row that is read on the way satisfies.
pub record Stored (lib : Libs) (w : World) (trace : Option String) (pid : String) (n : IntentNode)
    : Type 0 where
  pub row : IntentRow
  pub found : get_intent_node pid w ≡ some row
  pub is_node : row.node ≡ n
  pub traced : same_trace trace row ≡ true
  pub checked : validate_node_hash_and_signature lib n w ≡ ok tt

pub ancestor_row-Stored :
    (lib : Libs) (trace : Option String) (pid : String) (w : World) (n : IntentNode)
    → ancestor_row lib trace pid w ≡ ok n
    → Stored lib w trace pid n
unfolding ancestor_row
ancestor_row-Stored lib trace pid w n h = elim (Option-cases (get_intent_node pid w)) [
  | inl missing ↦ absurd (cc (rw missing at h))
  | inr (row, found) ↦ elim (Bool-cases (same_trace trace row)) [
    | inr other ↦ absurd (cc (rw (found, other) at h))
    | inl traced ↦
        let (u, checked, e) =
          >>=-eq-ok (validate_node_hash_and_signature lib row.node w) (λ _. ok row.node)
            (rw (found, traced) at h) in
        let same : row.node ≡ n = cc e in
        record {
          row = row;
          found = found;
          is_node = same;
          traced = traced;
          checked = subst (λ m. validate_node_hash_and_signature lib m w ≡ ok tt) same checked;
        }
  ]
]

pub parent_row-Stored :
    (lib : Libs) (trace : Option String) (pid : String) (w : World) (n : IntentNode)
    → parent_row lib trace pid w ≡ ok n
    → Stored lib w trace pid n
unfolding parent_row
parent_row-Stored lib trace pid w n h = elim (Option-cases (get_intent_node pid w)) [
  | inl missing ↦ absurd (cc (rw missing at h))
  | inr (row, found) ↦ elim (Bool-cases (same_trace trace row)) [
    | inr other ↦ absurd (cc (rw (found, other) at h))
    | inl traced ↦
        let (u, checked, e) =
          >>=-eq-ok (validate_node_hash_and_signature lib row.node w)
            (λ _.
              guard (row.content_hash == intent_hash lib row.node)
                (chain_invalid "parent intent content hash mismatch")
              >>= λ _. ok row.node)
            (rw (found, traced) at h) in
        let same : row.node ≡ n = ground (arith, e) in
        record {
          row = row;
          found = found;
          is_node = same;
          traced = traced;
          checked = subst (λ m. validate_node_hash_and_signature lib m w ≡ ok tt) same checked;
        }
  ]
]

-- A node that is read on the way is stored under its own id.
Stored-own :
    (lib : Libs) (w : World) (trace : Option String) (pid : String) (n : IntentNode)
    → Stored lib w trace pid n
    → (r : IntentRow) × (get_intent_node n.node_id w ≡ some r)
Stored-own lib w trace pid n s =
    let id : n.node_id ≡ pid =
      ap (λ (m : IntentNode). m.node_id) (sym s.is_node) ∙ get_intent_node-id pid w s.row s.found in
    (s.row, rw id s.found)

-- One turn of the loop at a node with a parent.
module _ (lib : Libs) (w : World) (trace : Option String) (fuel : ℕ) (visited : List String)
    (current : IntentNode) (pid : String) (has : current.parent_node_id ≡ some pid) where
  pub climb-seen :
      contains current.node_id visited ≡ true
      → climb lib (suc fuel) trace visited current w
        ≡ some (err (chain_invalid "intent branch contains a cycle"))
  unfolding climb
  climb-seen seen = simp (climb, has, seen)

  pub climb-failed :
      (e : Exception)
      → contains current.node_id visited ≡ false
      → ancestor_row lib trace pid w ≡ err e
      → climb lib (suc fuel) trace visited current w ≡ some (err e)
  unfolding climb
  climb-failed e fresh failed = simp (climb, has, fresh, failed)

  pub climb-next :
      (next : IntentNode)
      → contains current.node_id visited ≡ false
      → ancestor_row lib trace pid w ≡ ok next
      → climb lib (suc fuel) trace visited current w
        ≡ climb lib fuel trace (current.node_id ∷ visited) next w
  unfolding climb
  climb-next next fresh read = simp (climb, has, fresh, read)

climb-returns :
    (lib : Libs) (w : World) (trace : Option String) (fuel : ℕ) (visited : List String)
    (current : IntentNode)
    → ((r : IntentRow) × (get_intent_node current.node_id w ≡ some r))
    → unseen visited w.intent_tree < fuel
    → (out : Read IntentNode) × (climb lib fuel trace visited current w ≡ some out)
unfolding climb get_intent_node
climb-returns lib w trace zero visited current own room = absurd (omega arith)
climb-returns lib w trace (suc fuel) visited current (r, own) room =
    elim (Option-cases current.parent_node_id) [
      | inl top ↦ (ok current, rw top)
      | inr (pid, has) ↦ elim (Bool-cases (contains current.node_id visited)) [
        | inl seen ↦ (
          err (chain_invalid "intent branch contains a cycle"),
          climb-seen lib w trace fuel visited current pid has seen,
        )
        | inr fresh ↦ elim (Result-cases (ancestor_row lib trace pid w)) [
          | inl (e, failed) ↦
              (err e, climb-failed lib w trace fuel visited current pid has e fresh failed)
          | inr (next, read) ↦
              let (out, returned) =
                climb-returns lib w trace fuel (current.node_id ∷ visited) next
                  (Stored-own lib w trace pid next (ancestor_row-Stored lib trace pid w next read))
                  (omega (
                    arith,
                    room,
                    unseen-cons-lt current.node_id visited w.intent_tree r own fresh,
                  )) in
              (out, climb-next lib w trace fuel visited current pid has next fresh read ∙ returned)
        ]
      ]
    ]

with_parent-returns :
    (parent : IntentNode) (out : Read IntentNode)
    → (pair : Read (IntentNode × IntentNode)) × (with_parent parent (some out) ≡ some pair)
unfolding with_parent
with_parent-returns parent (err e) = (err e, refl)
with_parent-returns parent (ok root) = (ok (root, parent), refl)

-- Whatever the tree holds, the loop of `validate_branch` of app/intent ends, with a result or an
-- exception.
pub validate_branch_total :
    (lib : Libs) (trace : Option String) (node : IntentNode) (w : World)
    → (out : Read (IntentNode × IntentNode)) × (validate_branch lib trace node w ≡ some out)
unfolding validate_branch branch_from
validate_branch_total lib trace node w = elim (Option-cases node.parent_node_id) [
  | inl top ↦ (ok (node, node), rw top)
  | inr (pid, has) ↦ elim (Result-cases (parent_row lib trace pid w)) [
    | inl (e, failed) ↦ (err e, rw (has, failed))
    | inr (parent, read) ↦
        let (out, climbed) =
          climb-returns lib w trace (climb_fuel w) (node.node_id ∷ []) parent
            (Stored-own lib w trace pid parent (parent_row-Stored lib trace pid w parent read))
            (unfold climb_fuel in omega (arith, unseen-length (node.node_id ∷ []) w.intent_tree)) in
        let (pair, joined) = with_parent-returns parent out in
        (pair, rw (has, read, climbed) joined)
  ]
]
