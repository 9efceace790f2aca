-- ===== src/Gateway/Bearer/Audited.antt =====
-- What the gateway (app/gateway/routes.py) refuses of an agent or a bearer token is in the audit log.
use bu_iam.Prelude.{
  ℕ, String, ◌≡◌, refl, subst, Bool, true, false, Option, none, some, ◌==◌, if◌then◌else◌,
}
use bu_iam.Prelude.Result.{Result, ok, err}
use bu_iam.Libs.{Libs}
use bu_iam.Protocol.{deny, DelegationEnvelope}
use bu_iam.Protocol.Decision.{DelegationDecision}
use bu_iam.Protocol.Errors.{Exception, http_exception, Read}
use bu_iam.Protocol.Errors.Internal.{IsInternal}
use bu_iam.World.{World, Agent}
use bu_iam.Store.Audit.{record_decision}
use bu_iam.Identity.Jwt.{TokenVerificationResult}
use bu_iam.Identity.Jwt.Internal.{inspect_token-IsInternal}
use bu_iam.Gateway.Bearer.{
  auth_failure_decision, check_active, bearer_token, refuse_header, require_context,
  check_inspected, verify_bearer,
}
use bu_iam.Gateway.Audited.{
  record_decision-DeniedLast, IsAudited, returns, inner, recorded, if-IsAudited, elim-IsAudited,
}

abbrev pub whole : World → World
whole w = w

-- the audited methods of the tables, for one request
abbrev pub Audited : {A : Type 0} → DelegationEnvelope → Result Exception A × World → Type 0
Audited e q = IsAudited whole e.trace_id e.request_id q.0 q.1

module _ {A : Type 0} (e : DelegationEnvelope) where
  pub row-Audited :
      (x : Exception) (d : DelegationDecision) (w : World)
      → d.decision ≡ deny
      → IsAudited {A = A} whole e.trace_id e.request_id (err x) (record_decision e d w)
  row-Audited x d w denies = recorded x _ (record_decision-DeniedLast e d w denies)

pub check_active-Audited :
    (id : String) (e : DelegationEnvelope) (o : Option Agent) (w : World)
    → Audited e (check_active id (some e) o w)
unfolding check_active auth_failure_decision
check_active-Audited id e none w = row-Audited e _ _ w refl
check_active-Audited id e (some a) w =
    if-IsAudited (a.status == "active") _ _ (returns a w) (row-Audited e _ _ w refl)

-- What is wrong with the header is an `HTTPException` with a code and a message.
pub data IsHeader : Read String → Type 0 where
  given : (token : String) → IsHeader (ok token)
  wrong : (status : ℕ) (code message : String) → IsHeader (err (http_exception status code message))

if-IsHeader :
    (test : Bool) (m n : Read String) → IsHeader m → IsHeader n → IsHeader (if test then m else n)
if-IsHeader true m n hm hn = hm
if-IsHeader false m n hm hn = hn

pub bearer_token-IsHeader : (authorization : Option String) → IsHeader (bearer_token authorization)
unfolding bearer_token
bearer_token-IsHeader none = wrong _ _ _
bearer_token-IsHeader (some authorization) =
    if-IsHeader (authorization == "") _ _ (wrong _ _ _) (if-IsHeader _ _ _ (wrong _ _ _) (given _))

require_context-Audited :
    (e : DelegationEnvelope) (r : TokenVerificationResult) (w : World)
    → Audited e (require_context e r w)
unfolding require_context auth_failure_decision
require_context-Audited e r w =
    elim-IsAudited r.auth_context _ _ (row-Audited e _ _ _ refl) (λ a. returns r _)

check_inspected-Audited :
    (e : DelegationEnvelope) (r : Read TokenVerificationResult) (w : World)
    → IsInternal r
    → Audited e (check_inspected e r w)
unfolding check_inspected
check_inspected-Audited e r w (IsInternal.returns result) = require_context-Audited e result w
check_inspected-Audited e r w (IsInternal.raises x h) = inner x w h

pub verify_bearer-Audited :
    (lib : Libs) (e : DelegationEnvelope) (authorization : Option String) (r : Read String)
    (w : World)
    → IsHeader r
    → Audited e (verify_bearer lib e authorization r w)
unfolding verify_bearer refuse_header auth_failure_decision
verify_bearer-Audited lib e authorization r w (given token) =
    check_inspected-Audited e _ _ (inspect_token-IsInternal lib token w)
verify_bearer-Audited lib e authorization r w (wrong status code message) = row-Audited e _ _ _ refl

-- the same rows for an envelope of the same request
pub move-Audited :
    {A : Type 0} (e e' : DelegationEnvelope) (q : Result Exception A × World)
    → e'.trace_id ≡ e.trace_id
    → e'.request_id ≡ e.request_id
    → Audited e' q
    → Audited e q
move-Audited e e' q trace request h =
    subst (λ r. IsAudited whole e.trace_id r q.0 q.1) request
      (subst (λ t. IsAudited whole t e'.request_id q.0 q.1) trace h)
