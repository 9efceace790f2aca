-- ===== src/Store/Credentials/Walk.antt =====
-- The loop of `revoke_credential_tree` (app/store/delegation_credentials.py): it ends, and its set
-- is the part of the tree below the id that it starts from.
use mathlib.Core.Option.{some-injective}
use bu_iam.Prelude.{
  subst, ◌↔◌, ℕ, zero, suc, ◌+◌, ◌≤◌, ◌<◌, String, ◌≡◌, refl, inl, inr, true, false, none, some,
  List, [], ◌∷◌, arith, ◌||◌, is_text, length, eq_iff, eq_refl, Bool-cases, Option-cases,
  if◌then◌else◌,
}
use bu_iam.Prelude.Sets.{contains}
use bu_iam.Protocol.{DelegationCredential}
use bu_iam.Store.Credentials.{push_children, walk, revoke_fuel}

-- The ids of the credentials whose parent is `a`.
unfoldable pub children : List DelegationCredential → String → List String
children [] a = []
children (c ∷ cs) a =
    let rest = children cs a in
    if is_text c.parent_credential_id a then c.credential_id ∷ rest else rest

-- `b` lies below `a`, along parent links.
pub data Descends (creds : List DelegationCredential) (a : String) : String → Type 0 where
  here : Descends creds a a
  below :
      {b c : String}
      → Descends creds a b
      → contains c (children creds b) ≡ true
      → Descends creds a c

-- Links whose parent is not in the set yet.
unfoldable pub open_links : List String → List DelegationCredential → ℕ
open_links ids [] = 0
open_links ids (c ∷ cs) = elim c.parent_credential_id [
  | none ↦ open_links ids cs
  | some p ↦ if contains p ids then open_links ids cs else suc (open_links ids cs)
]

length-push_children :
    (cs : List DelegationCredential) (a : String) (stack : List String)
    → length (push_children cs a stack) ≡ length (children cs a) + length stack
unfolding push_children children
length-push_children [] a stack = omega arith
length-push_children (c ∷ cs) a stack =
    ground
      (arith, length-push_children cs a (c.credential_id ∷ stack), length-push_children cs a stack)

contains-push_children :
    (y : String) (cs : List DelegationCredential) (a : String) (stack : List String)
    → contains y (push_children cs a stack) ≡ (contains y (children cs a) || contains y stack)
unfolding push_children children contains
contains-push_children y [] a stack = refl
contains-push_children y (c ∷ cs) a stack = ground (
  arith,
  contains-push_children y cs a (c.credential_id ∷ stack),
  contains-push_children y cs a stack,
)

-- A new id closes as many links as it has children.
open_links-cons :
    (a : String) (ids : List String) (cs : List DelegationCredential)
    → contains a ids ≡ false
    → open_links (a ∷ ids) cs + length (children cs a) ≡ open_links ids cs
unfolding open_links children contains
open_links-cons a ids [] h = omega arith
open_links-cons a ids (c ∷ cs) h = elim (Option-cases c.parent_credential_id) [
  | inl e ↦ ground (arith, open_links-cons a ids cs h)
  | inr (p, e) ↦ ground (arith, open_links-cons a ids cs h, eq_iff p a, eq_iff a p)
]

open_links-le : (ids : List String) (cs : List DelegationCredential) → open_links ids cs ≤ length cs
unfolding open_links
open_links-le ids [] = omega arith
open_links-le ids (c ∷ cs) = ground (arith, open_links-le ids cs)

-- The loop has a result as soon as the fuel is above the stack and the open links.
walk_total :
    (fuel : ℕ) (cs : List DelegationCredential) (stack ids : List String)
    → length stack + open_links ids cs < fuel
    → (r : List String) × (walk fuel cs stack ids ≡ some r)
unfolding walk
walk_total zero cs stack ids h = elim h [ ]
walk_total (suc fuel) cs [] ids h = (ids, refl)
walk_total (suc fuel) cs (a ∷ stack) ids h = elim (Bool-cases (contains a ids)) [
  | inl old ↦ let (r, e) = walk_total fuel cs stack ids (omega arith) in (r, rw (old, walk) e)
  | inr new ↦
      let (r, e) =
        walk_total fuel cs (push_children cs a stack) (a ∷ ids)
          (omega (arith, length-push_children cs a stack, open_links-cons a ids cs new)) in
      (r, rw (new, walk) e)
]

-- So the fuel of `revoke_credential_tree` is enough.
pub walk-revoke_fuel :
    (cs : List DelegationCredential) (a : String)
    → (r : List String) × (walk (revoke_fuel cs) cs (a ∷ []) [] ≡ some r)
unfolding revoke_fuel
walk-revoke_fuel cs a =
    walk_total (length cs + 2) cs (a ∷ []) [] (omega (arith, open_links-le [] cs))

-- What holds at each round: all ids come from `root` downwards, `root` is among them, and a child
-- of an id of the set is in the set or waits on the stack.
record WalkInv (cs : List DelegationCredential) (root : String) (stack ids : List String)
    : Type 0 where
  sound : (x : String) → (contains x ids || contains x stack) ≡ true → Descends cs root x
  rooted : (contains root ids || contains root stack) ≡ true
  closed :
      (x y : String)
      → contains x ids ≡ true
      → contains y (children cs x) ≡ true
      → (contains y ids || contains y stack) ≡ true

-- An id that is there already is dropped.
WalkInv-skip :
    (cs : List DelegationCredential) (root a : String) (stack ids : List String)
    → contains a ids ≡ true
    → WalkInv cs root (a ∷ stack) ids
    → WalkInv cs root stack ids
unfolding contains
WalkInv-skip cs root a stack ids old v = record {
  sound = λ x h. v.sound x (ground (arith, h));
  rooted = ground (arith, v.rooted, eq_iff a root);
  closed = λ x y hx hy. ground (arith, v.closed x y hx hy, eq_iff a y);
}

WalkInv-visit :
    (cs : List DelegationCredential) (root a : String) (stack ids : List String)
    → WalkInv cs root (a ∷ stack) ids
    → WalkInv cs root (push_children cs a stack) (a ∷ ids)
unfolding contains
WalkInv-visit cs root a stack ids v = record {
  sound = λ x h. elim (Bool-cases (contains x (children cs a))) [
    | inl kid ↦ below (v.sound a (ground (arith, eq_refl a))) kid
    | inr other ↦ v.sound x (ground (arith, h, other, contains-push_children x cs a stack))
  ];
  rooted = ground (arith, v.rooted, contains-push_children root cs a stack);
  closed = λ x y hx hy. elim (Bool-cases (contains x ids)) [
    | inl old ↦ ground (arith, v.closed x y old hy, contains-push_children y cs a stack)
    | inr new ↦ ground (arith, hx, hy, new, eq_iff a x, contains-push_children y cs a stack)
  ];
}

walk-WalkInv :
    (fuel : ℕ) (cs : List DelegationCredential) (root : String) (stack ids r : List String)
    → WalkInv cs root stack ids
    → walk fuel cs stack ids ≡ some r
    → WalkInv cs root [] r
unfolding walk
walk-WalkInv zero cs root stack ids r v e = cc
walk-WalkInv (suc fuel) cs root [] ids r v e =
    subst (λ x. WalkInv cs root [] x) (some-injective ids r e) v
walk-WalkInv (suc fuel) cs root (a ∷ stack) ids r v e = elim (Bool-cases (contains a ids)) [
  | inl old ↦
      walk-WalkInv fuel cs root stack ids r (WalkInv-skip cs root a stack ids old v)
        (rw (old, walk) at e)
  | inr new ↦
      walk-WalkInv fuel cs root (push_children cs a stack) (a ∷ ids) r
        (WalkInv-visit cs root a stack ids v) (rw (new, walk) at e)
]

-- A set that the start is in and that is closed under children holds all that lies below.
closed-Descends :
    (cs : List DelegationCredential) (root : String) (r : List String)
    → WalkInv cs root [] r
    → {x : String} → Descends cs root x
    → contains x r ≡ true
unfolding contains
closed-Descends cs root r v here = ground (arith, v.rooted)
closed-Descends cs root r v (below {b} {c} d kid) =
    ground (arith, v.closed b c (closed-Descends cs root r v d) kid)

-- If the loop of `revoke_credential_tree` has ended from one id, its set holds exactly the ids at
-- or below it.
pub walk-Descends :
    (fuel : ℕ) (cs : List DelegationCredential) (root : String) (r : List String) (x : String)
    → walk fuel cs (root ∷ []) [] ≡ some r
    → (contains x r ≡ true) ↔ Descends cs root x
unfolding contains
walk-Descends fuel cs root r x e =
    let v = walk-WalkInv fuel cs root (root ∷ []) [] r start e in
    (λ h. v.sound x (ground (arith, h)), closed-Descends cs root r v)
  where
    start : WalkInv cs root (root ∷ []) []
    start = record {
      sound = λ y h. subst (Descends cs root) ((eq_iff root y).0 (ground (arith, h))) here;
      rooted = ground (arith, eq_refl root);
      closed = λ y z hy hz. ground (arith, hy);
    }
