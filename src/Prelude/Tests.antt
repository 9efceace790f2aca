-- ===== src/Prelude/Tests.antt =====
-- Boolean tests on numbers and texts, the conditional, and what Python's `or` and `is None` do.
use Prim.Native.Nat.{ℕ, suc, ◌≤◌, ◌<◌, compare, Ordering}
use Prim.Native.String.{String}
use text.Mathlib.Text.{◌==◌ as str_eq}
use mathlib.Core.Path.{◌≡◌, refl}
use mathlib.Core.Logic.{◌⊎◌, inl, inr}
use mathlib.Core.Bool.{Bool, true, false}
use mathlib.Core.Option.{Option, none, some}
use mathlib.Core.List.{List, [], ◌∷◌}
use native.Mathlib.Omega.{arith}

abbrev pub ltb : ℕ → ℕ → Bool
ltb a b = elim (compare a b) [ Ordering.lt ↦ true | _ ↦ false ]

abbrev pub leb : ℕ → ℕ → Bool
leb a b = elim (compare a b) [ Ordering.gt ↦ false | _ ↦ true ]

-- Equality of texts.
infix 50 ◌==◌
abbrev pub ◌==◌ : String → String → Bool
a == b = str_eq a b

-- Equality of numbers.
abbrev pub same_code : ℕ → ℕ → Bool
same_code a b = elim (compare a b) [ Ordering.eq ↦ true | _ ↦ false ]

infix 1 if◌then◌else◌
abbrev pub if◌then◌else◌ {ℓ} : {A : Type ℓ} → Bool → A → A → A
if true then x else y = x
if false then x else y = y

-- `x is None`, `x is not None`
abbrev pub is_none {ℓ} : {A : Type ℓ} → Option A → Bool
is_none none = true
is_none (some _) = false

-- `a or b` on texts: the empty text is false.
abbrev pub or_text : String → String → String
or_text a b = if a == "" then b else a

-- `a or b` on an optional text and a text
abbrev pub or_else : Option String → String → String
or_else none b = b
or_else (some a) b = if a == "" then b else a

-- the truth of an optional text
abbrev pub truthy : Option String → Bool
truthy none = false
truthy (some a) = if a == "" then false else true

-- `a or b` on lists: the empty list is false.
abbrev pub or_list {ℓ} : {A : Type ℓ} → List A → List A → List A
or_list [] ys = ys
or_list (x ∷ xs) ys = x ∷ xs

-- equality of an optional text with a text
abbrev pub is_text : Option String → String → Bool
is_text none b = false
is_text (some a) b = a == b

module _ {ℓ} {A : Type ℓ} where
  abbrev pub length : List A → ℕ
  length [] = 0
  length (x ∷ xs) = suc (length xs)

-- To split on a computed value and keep the equation.
pub Bool-cases : (b : Bool) → (b ≡ true) ⊎ (b ≡ false)
Bool-cases true = inl refl
Bool-cases false = inr refl

pub Option-cases {ℓ} : {A : Type ℓ} (o : Option A) → (o ≡ none) ⊎ ((a : A) × (o ≡ some a))
Option-cases none = inl refl
Option-cases (some a) = inr (a, refl)

pub leb→le : (a b : ℕ) → leb a b ≡ true → a ≤ b
leb→le a b h = ground arith

pub le→leb : (a b : ℕ) → a ≤ b → leb a b ≡ true
le→leb a b h = ground arith

pub leb-false : (a b : ℕ) → leb a b ≡ false → b < a
leb-false a b h = ground arith

pub lt→leb : (a b : ℕ) → b < a → leb a b ≡ false
lt→leb a b h = ground arith
