-- ===== src/Gateway/Bearer/Verified.antt =====
-- The requests that `verify_bearer_for_envelope` (app/gateway/routes.py) lets through.
use bu_iam.Prelude.{String, ◌≡◌, refl, ap, subst, inl, inr, Option, some, Option-cases}
use bu_iam.Prelude.Result.{ok, err}
use bu_iam.Libs.{Libs}
use bu_iam.Protocol.{AuthContext, DelegationEnvelope}
use bu_iam.Protocol.Errors.{http_exception, Read}
use bu_iam.World.{World}
use bu_iam.Identity.Jwt.{TokenVerificationResult, inspect_token}
use bu_iam.Identity.Jwt.Accept.{Trusted, inspect_token-Trusted}
use bu_iam.Gateway.Bearer.{
  bearer_token, require_context, check_inspected, verify_bearer, verify_bearer_for_envelope,
}

require_context-ok :
    (e : DelegationEnvelope) (r r' : TokenVerificationResult) (w w' : World)
    → require_context e r w ≡ (ok r', w')
    → (a : AuthContext) × (r.auth_context ≡ some a) × (r ≡ r')
unfolding require_context
require_context-ok e r r' w w' h = elim (Option-cases r.auth_context) [
  | inl nobody ↦ absurd (cc (ap (λ q. q.0) (simp (require_context, nobody) at h)))
  | inr (a, has) ↦ (a, has, cc (ap (λ q. q.0) (simp (require_context, has) at h)))
]

check_inspected-ok :
    (e : DelegationEnvelope) (out : Read TokenVerificationResult) (r : TokenVerificationResult)
    (w w' : World)
    → check_inspected e out w ≡ (ok r, w')
    → (a : AuthContext) × (r.auth_context ≡ some a) × (out ≡ ok r)
unfolding check_inspected
check_inspected-ok e (err x) r w w' h = absurd (cc (ap (λ q. q.0) h))
check_inspected-ok e (ok r') r w w' h =
    let (a, has, same) = require_context-ok e r' r w w' h in
    (a, subst (λ (x : TokenVerificationResult). x.auth_context ≡ some a) same has, ap ok same)

verify_bearer-ok :
    (lib : Libs) (e : DelegationEnvelope) (authorization : Option String) (found : Read String)
    (r : TokenVerificationResult) (w w' : World)
    → verify_bearer lib e authorization found w ≡ (ok r, w')
    → (token : String) × (a : AuthContext) × (found ≡ ok token)
      × (r.auth_context ≡ some a)
      × Trusted lib token w a
unfolding verify_bearer
verify_bearer-ok lib e authorization (err (http_exception status code message)) r w w' h =
    absurd (cc (ap (λ q. q.0) h))
verify_bearer-ok lib e authorization (err _) r w w' h = absurd (cc (ap (λ q. q.0) h))
verify_bearer-ok lib e authorization (ok token) r w w' h =
    let out = inspect_token lib token w in
    let (a, has, same) = check_inspected-ok e out.0 r out.1 w' h in
    (
      token,
      a,
      refl,
      has,
      inspect_token-Trusted lib token w out.1 r a (ap (λ x. (x, out.1)) same) has,
    )

-- If `verify_bearer_for_envelope` returns a result, the header holds a bearer token, the result
-- has a context, and the token is one that `inspect_token` trusts for that context: it passes the
-- checks and its id is that of a stored token that is not revoked.
pub verify_bearer-Trusted :
    (lib : Libs) (e : DelegationEnvelope) (authorization : Option String)
    (r : TokenVerificationResult) (w w' : World)
    → verify_bearer_for_envelope lib e authorization w ≡ (ok r, w')
    → (token : String) × (a : AuthContext) × (bearer_token authorization ≡ ok token)
      × (r.auth_context ≡ some a)
      × Trusted lib token w a
unfolding verify_bearer_for_envelope
verify_bearer-Trusted lib e authorization r w w' h =
    verify_bearer-ok lib e authorization (bearer_token authorization) r w w' h
