-- ===== src/Prelude/Exec.antt =====
-- Methods that raise and that write tables. Each table write is its own transaction, so what was
-- written before a raise stays written: the state comes back beside the error too.
use mathlib.Core.Bool.{Bool, true, false}
use mathlib.Core.Path.{◌≡◌, refl, ap}
use mathlib.Core.Logic.{◌⊎◌, inl, inr}
use bu_iam.Prelude.Result.{Result, ok, err}

abbrev pub Exec : Type 0 → Type 0 → Type 0 → Type 0
Exec E S A = S → Result E A × S

module _ {E S A : Type 0} where
  abbrev pub pure : A → Exec E S A
  pure a s = (ok a, s)

  abbrev pub raise : E → Exec E S A
  raise e s = (err e, s)

  -- a part that only reads the state
  abbrev pub reads : (S → Result E A) → Exec E S A
  reads f s = (f s, s)

  abbrev pub gets : (S → A) → Exec E S A
  gets f s = (ok (f s), s)

  -- a write that does not raise, with its result
  abbrev pub writes : (S → A × S) → Exec E S A
  writes f s = (ok (f s).0, (f s).1)

  unfoldable pub handle : (E → Exec E S A) → Result E A → S → Result E A × S
  handle h (ok a) s = (ok a, s)
  handle h (err e) s = h e s

  -- `try: m; except E as e: h(e)`
  abbrev pub catching : Exec E S A → (E → Exec E S A) → Exec E S A
  catching m h s = handle h (m s).0 (m s).1

module _ {E S : Type 0} where
  abbrev pub modify : (S → S) → Exec E S (Unit {0})
  modify f s = (ok tt, f s)

  abbrev pub require : Bool → E → Exec E S (Unit {0})
  require true e s = (ok tt, s)
  require false e s = (err e, s)

module _ {E S A B : Type 0} where
  unfoldable pub continue : (A → Exec E S B) → Result E A → S → Result E B × S
  continue f (ok a) s = f a s
  continue f (err e) s = (err e, s)

  infixl 5 ◌>>=◌ ◌>>◌
  abbrev pub ◌>>=◌ : Exec E S A → (A → Exec E S B) → Exec E S B
  ◌>>=◌ m f s = continue f (m s).0 (m s).1

  abbrev pub ◌>>◌ : Exec E S A → Exec E S B → Exec E S B
  m >> n = m >>= λ _. n

module _ {E S A : Type 0} where
  pub pair-eta : (q : Result E A × S) {r : Result E A} → q.0 ≡ r → q ≡ (r, q.1)
  pair-eta q h = λ i. (h i, q.1)

module _ {E S A B : Type 0} where
  -- A method that returns goes on from a value of its first part.
  pub bind-ok :
      (f : A → Exec E S B) (r : Result E A) (s : S) {b : B} {s' : S}
      → continue f r s ≡ (ok b, s')
      → (a : A) × (r ≡ ok a) × (f a s ≡ (ok b, s'))
  unfolding continue
  bind-ok f (ok a) s h = (a, refl, h)
  bind-ok f (err e) s h = cc

  -- The same, with a name for the state between.
  pub bind-step :
      (f : A → Exec E S B) (r : Result E A) (s : S) {b : B} {s' : S}
      → continue f r s ≡ (ok b, s')
      → (a : A) × (t : S) × ((let q : Result E A × S = (r, s) in q) ≡ (ok a, t))
        × (f a t ≡ (ok b, s'))
  bind-step f r s h =
      let (a, returned, h') = bind-ok f r s h in (a, s, pair-eta (r, s) returned, h')

  -- A method that raises does so in its first part, or goes on from a value of it.
  pub bind-err :
      (f : A → Exec E S B) (r : Result E A) (s : S) {e : E} {s' : S}
      → continue f r s ≡ (err e, s')
      → ((r ≡ err e) × (s ≡ s')) ⊎ ((a : A) × (r ≡ ok a) × (f a s ≡ (err e, s')))
  unfolding continue
  bind-err f (ok a) s h = inr (a, refl, h)
  bind-err f (err x) s h = inl (cc, cc)

module _ {E S A : Type 0} where
  -- Under a handler that always raises, only the first method can return.
  pub catching-ok :
      (h : E → Exec E S A) (r : Result E A) (s : S) {a : A}
      → ((x : E) (t : S) → (y : E) × ((h x t).0 ≡ err y))
      → (handle h r s).0 ≡ ok a
      → (r ≡ ok a) × ((handle h r s).1 ≡ s)
  unfolding handle
  catching-ok h (ok a) s raises returned = (returned, refl)
  catching-ok h (err x) s raises returned =
      let (y, raised) = raises x s in absurd (cc (raised, returned))

  pub pure-ok :
      {a b : A} {s s' : S}
      → (let r : Result E A × S = (ok a, s) in r) ≡ (ok b, s')
      → (a ≡ b) × (s ≡ s')
  pure-ok h = (cc (ap (λ q. q.0) h), ap (λ q. q.1) h)
