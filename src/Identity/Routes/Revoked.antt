-- ===== src/Identity/Routes/Revoked.antt =====
-- What the route `revoke` (app/identity/routes.py) stops.
use mathlib.Core.Option.{some-injective}
use bu_iam.Prelude.Sets.{contains}
use bu_iam.Prelude.{
  ℕ, String, ◌≡◌, refl, sym, ap, ◌∙◌, subst, inl, inr, Bool, true, false, ◌||◌, Option, none, some,
  List, [], ◌∷◌, arith, eq_iff, ◌==◌, Bool-cases,
}
use bu_iam.Prelude.Result.{ok, ok-injective}
use bu_iam.World.{World}
use bu_iam.Store.Tokens.{revoke_token_and_credentials}
use bu_iam.Runtime.Tasks.{Tasks, mem, is_done, cancel_trace, cancel_traces, tasks_of}
use bu_iam.Runtime.Tasks.Steps.{weaken, was_asked, runs_in, ask_all-keep, ask_all-mem}
use bu_iam.Identity.Routes.{Revocation, cancel_revoked, cancel_after, revoke, reason_of}

-- a task that is done, or has been asked to stop
unfoldable pub is_stopping : ℕ → Tasks → Bool
unfolding is_done was_asked
is_stopping x s = is_done x s || was_asked x s.asked

-- one trace: who runs in what, and who is stopping, stays; those of the trace stop
cancel_trace-keeps :
    (t a reason : String) (x : ℕ) (s : Tasks)
    → (runs_in a x (cancel_trace t reason s).1 ≡ runs_in a x s)
      × (is_stopping x s ≡ true → is_stopping x (cancel_trace t reason s).1 ≡ true)
unfolding cancel_trace runs_in is_stopping is_done
cancel_trace-keeps t a reason x s = (
  refl,
  λ h.
      weaken (mem x s.done) (was_asked x s.asked) _ h
        (ask_all-keep s.done (tasks_of t s.running) x reason s.asked),
)

cancel_trace-stops :
    (t reason : String) (x : ℕ) (s : Tasks)
    → runs_in t x s ≡ true
    → is_stopping x (cancel_trace t reason s).1 ≡ true
unfolding cancel_trace runs_in is_stopping is_done
cancel_trace-stops t reason x s runs =
    ask_all-mem s.done (tasks_of t s.running) x reason s.asked runs

cancel_traces-keeps :
    (ts : List String) (reason : String) (x : ℕ) (s : Tasks)
    → is_stopping x s ≡ true
    → is_stopping x (cancel_traces ts reason s).1 ≡ true
unfolding cancel_traces
cancel_traces-keeps [] reason x s h = h
cancel_traces-keeps (t ∷ ts) reason x s h =
    cancel_traces-keeps ts reason x (cancel_trace t reason s).1
      ((cancel_trace-keeps t t reason x s).1 h)

cancel_traces-stops :
    (a : String) (ts : List String) (reason : String) (x : ℕ) (s : Tasks)
    → contains a ts ≡ true
    → runs_in a x s ≡ true
    → is_stopping x (cancel_traces ts reason s).1 ≡ true
unfolding cancel_traces contains
cancel_traces-stops a [] reason x s among runs = absurd (cc among)
cancel_traces-stops a (t ∷ ts) reason x s among runs = elim (Bool-cases (t == a)) [
  | inl here ↦ cancel_traces-keeps ts reason x (cancel_trace t reason s).1 (
      cancel_trace-stops t reason x s
        (subst (λ v. runs_in v x s ≡ true) (sym ((eq_iff t a).0 here)) runs))
  | inr elsewhere ↦
      cancel_traces-stops a ts reason x (cancel_trace t reason s).1
        (ground (arith, elsewhere, among)) ((cancel_trace-keeps t a reason x s).0 ∙ runs)
]

cancel_revoked-ok :
    (jti : String) (out : Bool × List String) (w w' : World) (s s' : Tasks) (r : Revocation)
    → cancel_revoked jti out w s ≡ (ok r, (w', s'))
    → (out ≡ (true, r.trace_ids))
      × (w ≡ w')
      × (s' ≡ (cancel_traces r.trace_ids "token_revoked" s).1)
unfolding cancel_revoked
cancel_revoked-ok jti (false, ts) w w' s s' r h = absurd (cc (ap (λ q. q.0) h))
cancel_revoked-ok jti (true, ts) w w' s s' r h =
    let same = ap (λ (q : Revocation). q.trace_ids) (ok-injective (ap (λ q. q.0) h)) in
    (
      ap (λ (v : List String). (true, v)) same,
      ap (λ q. q.1.0) h,
      sym (ap (λ q. q.1.1) h) ∙ ap (λ v. (cancel_traces v "token_revoked" s).1) same,
    )

cancelled-ok :
    (jti : String) (o : Option ((Bool × List String) × World)) (w' : World) (s s' : Tasks)
    (r : Revocation)
    → cancel_after jti o s ≡ some (ok r, (w', s'))
    → (o ≡ some ((true, r.trace_ids), w')) × (s' ≡ (cancel_traces r.trace_ids "token_revoked" s).1)
unfolding cancel_after
cancelled-ok jti none w' s s' r h = absurd (cc h)
cancelled-ok jti (some (out, v)) w' s s' r h =
    let (given, same, stopped) = cancel_revoked-ok jti out v w' s s' r (some-injective _ _ h) in
    (ap some (λ i. (given i, same i)), stopped)

-- If the route `revoke` returns, `revoke_token_and_credentials` has revoked the token with the
-- default reason for a missing body and the traces returned are those it gives, and each task that
-- runs in one of them is done or has been asked to stop.
pub revoke-stops :
    (jti : String) (reason : Option String) (w w' : World) (s s' : Tasks) (r : Revocation)
    → revoke jti reason w s ≡ some (ok r, (w', s'))
    → (revoke_token_and_credentials jti (reason_of reason) w ≡ some ((true, r.trace_ids), w'))
      × ((a : String) (x : ℕ)
          → contains a r.trace_ids ≡ true
          → runs_in a x s ≡ true
          → is_stopping x s' ≡ true)
unfolding revoke
revoke-stops jti reason w w' s s' r h =
    let (ended, stopped) =
      cancelled-ok jti (revoke_token_and_credentials jti (reason_of reason) w) w' s s' r h in
    (
      ended,
      λ a x among runs.
          subst (λ v. is_stopping x v ≡ true) (sym stopped)
            (cancel_traces-stops a r.trace_ids "token_revoked" x s among runs),
    )
