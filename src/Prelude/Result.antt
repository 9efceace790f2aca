-- ===== src/Prelude/Result.antt =====
-- What a part that only reads returns: a value, or the exception that it raises.
use mathlib.Core.Path.{◌≡◌, refl}
use mathlib.Core.Logic.{◌⊎◌, inl, inr}
use mathlib.Core.Bool.{Bool, true, false}
use mathlib.Core.Option.{Option, none, some}

pub data Result (E A : Type 0) : Type 0 where
  ok : A → Result E A
  err : E → Result E A

infixl 5 ◌>>=◌ ◌>>◌
abbrev pub ◌>>=◌ : {E A B : Type 0} → Result E A → (A → Result E B) → Result E B
err raised >>= next = err raised
ok value >>= next = next value

abbrev pub ◌>>◌ : {E B : Type 0} → Result E (Unit {0}) → Result E B → Result E B
◌>>◌ first next = first >>= λ _. next

-- `if not test: raise e`
abbrev pub guard : {E : Type 0} → Bool → E → Result E (Unit {0})
guard false raised = err raised
guard true raised = ok tt

-- `if value is None: raise e`
abbrev pub or_raise : {E A : Type 0} → Option A → E → Result E A
or_raise none e = err e
or_raise (some a) e = ok a

-- `try: m; except: handler`
abbrev pub recover : {E A : Type 0} → Result E A → (E → A) → A
recover (ok a) h = a
recover (err e) h = h e

-- A part that returns goes on from a value of its first step.
pub >>=-eq-ok :
    {E A B : Type 0} (first : Result E A) (next : A → Result E B) {b : B}
    → (first >>= next) ≡ ok b
    → (value : A) × (first ≡ ok value) × (next value ≡ ok b)
>>=-eq-ok (err raised) next returned = cc
>>=-eq-ok (ok value) next returned = (value, refl, returned)

pub guard-eq-ok :
    {E : Type 0} (test : Bool) (e : E) {u : Unit {0}} → guard test e ≡ ok u → test ≡ true
guard-eq-ok false e returned = cc
guard-eq-ok true e returned = refl

pub or_raise-eq-ok :
    {E A : Type 0} (o : Option A) (e : E) {a : A} → or_raise o e ≡ ok a → o ≡ some a
or_raise-eq-ok none e returned = cc
or_raise-eq-ok (some a) e returned = cc returned

-- To split on a result and keep the equation.
pub Result-cases :
    {E A : Type 0} (r : Result E A) → ((e : E) × (r ≡ err e)) ⊎ ((value : A) × (r ≡ ok value))
Result-cases (err e) = inl (e, refl)
Result-cases (ok value) = inr (value, refl)

pub ok-injective : {E A : Type 0} {a b : A} → (let r : Result E A = ok a in r) ≡ ok b → a ≡ b
ok-injective same = cc same
