-- ===== src/Gateway/Bearer.antt =====
-- app/gateway/routes.py: the agent and the bearer token of a request, with the rows that record them.
pub mod Verified
pub mod Audited
use Prim.Native.Char.{code}
use Prim.Native.String.{◌++◌}
use bu_iam.Prelude.{
  ℕ, ◌+◌, String, Bool, true, false, not, ◌&&◌, ◌||◌, Option, none, some, List, [], ◌∷◌, ◌==◌,
  same_code, or_else, is_none, if◌then◌else◌,
}
use bu_iam.Prelude.Sets.{sorted}
use bu_iam.Prelude.Text.{partition}
use bu_iam.Prelude.Result.{Result, ok, err}
use bu_iam.Libs.{Libs}
use bu_iam.Protocol.{Verdict, allow, deny, AuthContext, DelegationEnvelope}
use bu_iam.Protocol.Decision.{DelegationDecision, plain}
use bu_iam.Protocol.Errors.{Exception, http_exception, Read}
use bu_iam.World.{World, Agent, AuthEventRow, Action}
use bu_iam.Store.Agents.{get_agent}
use bu_iam.Store.Audit.{record_decision}
use bu_iam.Store.AuthEvents.{record_auth_event}
use bu_iam.Identity.Jwt.{TokenVerificationResult, token_fingerprint, inspect_token}

unfoldable pub auth_failure_decision : String → String → DelegationEnvelope → DelegationDecision
unfolding sorted
auth_failure_decision error_code message e = record (plain deny (error_code ++ ": " ++ message)) {
  missing_capabilities = sorted e.requested_capabilities;
  requested_capabilities = sorted e.requested_capabilities;
}

abbrev pub record_failure : Option DelegationEnvelope → String → String → World → World
record_failure none error_code message w = w
record_failure (some e) error_code message w =
    record_decision e (auth_failure_decision error_code message e) w

unfoldable pub check_active : String → Option DelegationEnvelope → Option Agent → Action Agent
check_active agent_id e none w = (
  err (http_exception 404 "AGENT_NOT_REGISTERED" ""),
  record_failure e "AGENT_NOT_REGISTERED" ("agent " ++ agent_id ++ " is not registered") w,
)
check_active agent_id e (some a) w = if a.status == "active" then (ok a, w) else (
  err (http_exception 403 "AGENT_INACTIVE" ""),
  record_failure e "AGENT_INACTIVE" ("agent " ++ agent_id ++ " is inactive") w,
)

unfoldable pub get_active_agent : String → Option DelegationEnvelope → Action Agent
unfolding check_active
get_active_agent agent_id e w = check_active agent_id e (get_agent agent_id w) w

-- `text.lower()` has these lower-case letters: no other character lowers to one of "bearer".
unfoldable pub lowers_to : List ℕ → String → Bool
lowers_to [] String.[] = true
lowers_to [] (String.◌∷◌ d s) = false
lowers_to (c ∷ cs) String.[] = false
lowers_to (c ∷ cs) (String.◌∷◌ d s) =
    (same_code (code d) c || same_code (code d + 32) c) && lowers_to cs s

abbrev pub bearer_letters : List ℕ
bearer_letters = b'b' ∷ b'e' ∷ b'a' ∷ b'r' ∷ b'e' ∷ b'r' ∷ []

unfoldable pub bearer_token : Option String → Read String
unfolding partition lowers_to
bearer_token none = err (http_exception 401 "AUTH_TOKEN_MISSING" "")
bearer_token (some authorization) =
    if authorization == ""
    then err (http_exception 401 "AUTH_TOKEN_MISSING" "")
    else (let parts = partition b' ' authorization in
        if not (lowers_to bearer_letters parts.before) || parts.after == ""
        then err (http_exception 401 "AUTH_TOKEN_INVALID" "")
        else ok parts.after)

-- token_fingerprint(authorization.partition(" ")[2] if authorization else None)
unfoldable pub header_fingerprint : Libs → Option String → Option String
unfolding partition token_fingerprint
header_fingerprint lib none = none
header_fingerprint lib (some authorization) =
    token_fingerprint lib (partition b' ' authorization).after

abbrev pub bearer_reason : String
bearer_reason = "missing or invalid Authorization header"

unfoldable pub header_event :
    Libs → DelegationEnvelope → Option String → String → World → AuthEventRow
unfolding header_fingerprint
header_event lib e authorization error_code w = record {
  trace_id = e.trace_id;
  request_id = e.request_id;
  caller_agent_id = some e.caller_agent_id;
  claimed_agent_id = some e.caller_agent_id;
  token_jti = none;
  token_sub = none;
  token_agent_id = none;
  delegated_user = none;
  token_fingerprint = header_fingerprint lib authorization;
  token_issued_at = none;
  token_expires_at = none;
  verified_at = w.clock;
  is_expired = none;
  is_revoked = none;
  is_jti_registered = none;
  signature_valid = none;
  issuer_valid = none;
  audience_valid = none;
  identity_decision = deny;
  error_code = some error_code;
  reason = bearer_reason;
  created_at = w.clock;
}

abbrev pub agent_of : Option AuthContext → Option String → Option String
agent_of none claimed = claimed
agent_of (some a) claimed = some a.agent_id

-- `result.allowed`
unfoldable pub is_allowed : TokenVerificationResult → Bool
is_allowed r = not (is_none r.auth_context) && is_none r.error_code

unfoldable pub token_event : DelegationEnvelope → TokenVerificationResult → World → AuthEventRow
unfolding is_allowed
token_event e r w = record {
  trace_id = e.trace_id;
  request_id = e.request_id;
  caller_agent_id = agent_of r.auth_context r.token_agent_id;
  claimed_agent_id = some e.caller_agent_id;
  token_jti = r.token_jti;
  token_sub = r.token_sub;
  token_agent_id = r.token_agent_id;
  delegated_user = r.delegated_user;
  token_fingerprint = r.token_fingerprint;
  token_issued_at = r.token_issued_at;
  token_expires_at = r.token_expires_at;
  verified_at = r.verified_at;
  is_expired = r.is_expired;
  is_revoked = r.is_revoked;
  is_jti_registered = r.is_jti_registered;
  signature_valid = r.signature_valid;
  issuer_valid = r.issuer_valid;
  audience_valid = r.audience_valid;
  identity_decision = if is_allowed r then allow else deny;
  error_code = r.error_code;
  reason = r.message;
  created_at = w.clock;
}

unfoldable pub record_token_result : DelegationEnvelope → TokenVerificationResult → World → World
unfolding token_event record_auth_event
record_token_result e r w = record_auth_event (token_event e r w) w

-- a header without a token: both tables record it
unfoldable pub refuse_header : Libs → DelegationEnvelope → Option String → String → World → World
unfolding header_event record_auth_event auth_failure_decision record_decision
refuse_header lib e authorization error_code w =
    record_decision e (auth_failure_decision error_code bearer_reason e)
      (record_auth_event (header_event lib e authorization error_code w) w)

-- the result is recorded, and a result without a context refused
unfoldable pub require_context :
    DelegationEnvelope → TokenVerificationResult → Action TokenVerificationResult
unfolding record_token_result auth_failure_decision record_decision
require_context e r w = elim r.auth_context [
  | some a ↦ (ok r, record_token_result e r w)
  | none ↦ (
    err (http_exception 401 (or_else r.error_code "None") r.message),
    record_decision e
        (auth_failure_decision (or_else r.error_code "AUTH_TOKEN_INVALID") r.message e)
        (record_token_result e r w),
  )
]

unfoldable pub check_inspected :
    DelegationEnvelope → Read TokenVerificationResult → Action TokenVerificationResult
unfolding require_context
check_inspected e (err x) w = (err x, w)
check_inspected e (ok r) w = require_context e r w

unfoldable pub verify_bearer :
    Libs → DelegationEnvelope → Option String → Read String → Action TokenVerificationResult
unfolding refuse_header check_inspected
verify_bearer lib e authorization (err (http_exception status error_code message)) w =
    (err (http_exception status error_code message), refuse_header lib e authorization error_code w)
verify_bearer lib e authorization (err x) w = (err x, w)
verify_bearer lib e authorization (ok token) w =
    let out = inspect_token lib token w in check_inspected e out.0 out.1

unfoldable pub verify_bearer_for_envelope :
    Libs → DelegationEnvelope → Option String → Action TokenVerificationResult
unfolding bearer_token verify_bearer
verify_bearer_for_envelope lib e authorization w =
    verify_bearer lib e authorization (bearer_token authorization) w
