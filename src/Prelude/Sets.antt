-- ===== src/Prelude/Sets.antt =====
-- Python's sets of strings, as lists: `set(xs)`, `&`, `-`, `issubset`, `==` and `sorted`. A set
-- is used by its members only, through `contains`.
use Prim.Native.Nat.{Ordering}
use Prim.Native.String.{String, compare}
use mathlib.Core.Path.{◌≡◌, refl}
use mathlib.Core.Bool.{Bool, true, false, not, ◌&&◌}
use mathlib.Core.List.{List, [], ◌∷◌}
use native.Mathlib.Omega.{arith}
use text.Mathlib.TextEquality.{eq_iff}
use text.Mathlib.TextPositions.{eq_refl}
use bu_iam.Prelude.Tests.{◌==◌, if◌then◌else◌}

-- `x in xs`
unfoldable pub contains : String → List String → Bool
contains x [] = false
contains x (y ∷ ys) = if y == x then true else contains x ys

-- `set(xs)`
unfoldable pub set_of : List String → List String
unfolding contains
set_of [] = []
set_of (x ∷ xs) = let rest = set_of xs in if contains x rest then rest else x ∷ rest

-- `xs & ys`
unfoldable pub intersect : List String → List String → List String
unfolding contains
intersect [] ys = []
intersect (x ∷ xs) ys = let rest = intersect xs ys in if contains x ys then x ∷ rest else rest

-- `xs - ys`
unfoldable pub minus : List String → List String → List String
unfolding contains
minus [] ys = []
minus (x ∷ xs) ys = let rest = minus xs ys in if contains x ys then rest else x ∷ rest

-- `xs.issubset(ys)`
unfoldable pub subset : List String → List String → Bool
unfolding contains
subset [] ys = true
subset (x ∷ xs) ys = contains x ys && subset xs ys

-- `set(xs) == set(ys)`
unfoldable pub same_set : List String → List String → Bool
unfolding subset
same_set xs ys = subset xs ys && subset ys xs

-- texts by code points, as Python orders them
unfoldable pub text_le : String → String → Bool
text_le a b = elim (compare a b) [ Ordering.gt ↦ false | _ ↦ true ]

unfoldable pub place : String → List String → List String
unfolding text_le
place x [] = x ∷ []
place x (y ∷ ys) = if text_le x y then x ∷ y ∷ ys else y ∷ place x ys

-- `sorted(xs)`
unfoldable pub sorted : List String → List String
unfolding place
sorted [] = []
sorted (x ∷ xs) = place x (sorted xs)

-- Every member of `xs` is one of `ys`.
abbrev pub Within : List String → List String → Type 0
Within xs ys = (c : String) → contains c xs ≡ true → contains c ys ≡ true

pub Within-refl : (xs : List String) → Within xs xs
Within-refl xs c h = h

pub Within-trans : (xs ys zs : List String) → Within xs ys → Within ys zs → Within xs zs
Within-trans xs ys zs p q c h = q c (p c h)

pub contains-set_of : (c : String) (xs : List String) → contains c (set_of xs) ≡ contains c xs
unfolding contains set_of
contains-set_of c [] = refl
contains-set_of c (x ∷ xs) = ground (arith, contains-set_of c xs, contains-set_of x xs, eq_iff x c)

pub contains-intersect :
    (c : String) (xs ys : List String)
    → contains c (intersect xs ys) ≡ (contains c xs && contains c ys)
unfolding contains intersect
contains-intersect c [] ys = refl
contains-intersect c (x ∷ xs) ys = ground (arith, contains-intersect c xs ys, eq_iff x c)

pub contains-minus :
    (c : String) (xs ys : List String)
    → contains c (minus xs ys) ≡ (contains c xs && not (contains c ys))
unfolding contains minus
contains-minus c [] ys = refl
contains-minus c (x ∷ xs) ys = ground (arith, contains-minus c xs ys, eq_iff x c)

contains-place : (c x : String) (xs : List String) → contains c (place x xs) ≡ contains c (x ∷ xs)
unfolding contains place
contains-place c x [] = refl
contains-place c x (y ∷ ys) = ground (arith, contains-place c x ys)

pub contains-sorted : (c : String) (xs : List String) → contains c (sorted xs) ≡ contains c xs
unfolding contains sorted
contains-sorted c [] = refl
contains-sorted c (x ∷ xs) = ground (arith, contains-place c x (sorted xs), contains-sorted c xs)

subset-contains :
    (c : String) (xs ys : List String)
    → subset xs ys ≡ true
    → contains c xs ≡ true
    → contains c ys ≡ true
unfolding contains subset
subset-contains c [] ys h m = ground arith
subset-contains c (x ∷ xs) ys h m = ground (arith, subset-contains c xs ys, eq_iff x c)

pub subset→Within : (xs ys : List String) → subset xs ys ≡ true → Within xs ys
subset→Within xs ys h c m = subset-contains c xs ys h m

pub Within→subset : (xs ys : List String) → Within xs ys → subset xs ys ≡ true
unfolding contains subset
Within→subset [] ys h = refl
Within→subset (x ∷ xs) ys h =
    ground (arith, h x, eq_refl x, Within→subset xs ys (λ c m. h c (ground (arith, m))))

minus-nil-contains :
    (c : String) (xs ys : List String)
    → minus xs ys ≡ []
    → contains c xs ≡ true
    → contains c ys ≡ true
unfolding contains minus
minus-nil-contains c [] ys h m = ground arith
minus-nil-contains c (x ∷ xs) ys h m = ground (arith, minus-nil-contains c xs ys, eq_iff x c)

pub minus-nil→Within : (xs ys : List String) → minus xs ys ≡ [] → Within xs ys
minus-nil→Within xs ys h c m = minus-nil-contains c xs ys h m

pub Within→minus-nil : (xs ys : List String) → Within xs ys → minus xs ys ≡ []
unfolding contains minus
Within→minus-nil [] ys h = refl
Within→minus-nil (x ∷ xs) ys h =
    ground (arith, h x, eq_refl x, Within→minus-nil xs ys (λ c m. h c (ground (arith, m))))

place-ne-nil : (x : String) (xs : List String) → place x xs ≡ [] → ⊥
unfolding place
place-ne-nil x [] h = ground arith
place-ne-nil x (y ∷ ys) h = ground arith

pub sorted-nil : (xs : List String) → sorted xs ≡ [] → xs ≡ []
unfolding sorted
sorted-nil [] h = refl
sorted-nil (x ∷ xs) h = absurd (place-ne-nil x (sorted xs) h)
