-- ===== src/Protocol/Errors/Internal.antt =====
-- Parts that raise no `HTTPException` of their own: the routes alone make those.
use bu_iam.Prelude.{String, ◌≡◌, refl, subst, Bool, true, false, Option, none, some, if◌then◌else◌}
use bu_iam.Prelude.Result.{ok, err, guard, or_raise, ◌>>=◌}
use bu_iam.Prelude.Exec.{continue}
use bu_iam.Protocol.Errors.{Exception, detail_of, Read}

pub data IsInternal {A : Type 0} : Read A → Type 0 where
  returns : (a : A) → IsInternal (ok a)
  raises : (x : Exception) → detail_of x ≡ none → IsInternal (err x)

pub guard-IsInternal :
    (test : Bool) (x : Exception) → detail_of x ≡ none → IsInternal (guard test x)
guard-IsInternal true x h = returns tt
guard-IsInternal false x h = raises x h

module _ {A : Type 0} where
  pub or_raise-IsInternal :
      (o : Option A) (x : Exception) → detail_of x ≡ none → IsInternal (or_raise o x)
  or_raise-IsInternal none x h = raises x h
  or_raise-IsInternal (some a) x h = returns a

  pub if-IsInternal :
      (test : Bool) (m n : Read A)
      → IsInternal m
      → IsInternal n
      → IsInternal (if test then m else n)
  if-IsInternal true m n hm hn = hm
  if-IsInternal false m n hm hn = hn

  pub if_first-IsInternal :
      {W : Type 0} (test : Bool) (m n : Read A × W)
      → IsInternal m.0
      → IsInternal n.0
      → IsInternal (if test then m else n).0
  if_first-IsInternal true m n hm hn = hm
  if_first-IsInternal false m n hm hn = hn

  pub continue-IsInternal :
      {B W : Type 0} (f : A → W → Read B × W) (r : Read A) (w : W)
      → IsInternal r
      → ((a : A) → IsInternal (f a w).0)
      → IsInternal (continue f r w).0
  unfolding continue
  continue-IsInternal f r w (returns a) h = h a
  continue-IsInternal f r w (raises x e) h = raises x e

  pub elim-IsInternal :
      {B : Type 0} (o : Option B) (m : Read A) (f : B → Read A)
      → IsInternal m
      → ((b : B) → IsInternal (f b))
      → IsInternal (elim o [ none ↦ m | some b ↦ f b ])
  elim-IsInternal none m f hm hf = hm
  elim-IsInternal (some b) m f hm hf = hf b

  pub bind-IsInternal :
      {B : Type 0} {m : Read A} {f : A → Read B}
      → IsInternal m
      → ((a : A) → IsInternal (f a))
      → IsInternal (m >>= f)
  bind-IsInternal (returns a) h = h a
  bind-IsInternal (raises x e) h = raises x e

  -- what such a part raises has no detail
  pub IsInternal-no_detail :
      {m : Read A} (x : Exception) → IsInternal m → m ≡ err x → detail_of x ≡ none
  IsInternal-no_detail x (returns a) raised = absurd (cc raised)
  IsInternal-no_detail x (raises y e) raised = subst (λ z. detail_of z ≡ none) (cc raised) e

pub ruleset internal =
    (returns, raises, refl, guard-IsInternal, or_raise-IsInternal, if-IsInternal, bind-IsInternal)
