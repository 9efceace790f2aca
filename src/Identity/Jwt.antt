-- ===== src/Identity/Jwt.antt =====
-- app/identity/jwt_service.py: `inspect_token` and `verify_token`. The early returns of the `try`
-- block are values of type `Failure`; whatever it raises becomes one too.
pub mod Checks
pub mod Passed
pub mod Accept
pub mod Revoked
pub mod Issue
pub mod Internal
use bu_iam.Prelude.{
  ℕ, String, Bool, true, false, not, ◌&&◌, ◌||◌, Option, none, some, ◌==◌, or_else, truthy,
  if◌then◌else◌,
}
use bu_iam.Prelude.Result.{Result, ok, err, or_raise, ◌>>=◌, ◌>>◌}
use bu_iam.Json.{Json, null, obj, Fields, end, get}
use bu_iam.Libs.{Libs, ℤ, str}
use bu_iam.Protocol.{ActorType, actor_type_text, AuthContext, DelegationCredential}
use bu_iam.Protocol.Errors.{Exception, token_error, other, Read}
use bu_iam.World.{World, StoredToken}
use bu_iam.Store.Credentials.{get_credential}
use bu_iam.Store.Tokens.{get_token, mark_jti_seen}
use bu_iam.Identity.Resolver.{str_or}
use bu_iam.Identity.Jwt.Checks.{
  Failure, failure, signed_failure, Token, dict_of, read_token, check_token, malformed,
}
use bu_iam.Delegation.Credential.Check.{verify_credential_integrity}
use bu_iam.Delegation.Credential.Context.{auth_context_from_credential}

pub record TokenVerificationResult : Type 0 where
  pub auth_context : Option AuthContext
  pub error_code : Option String
  pub message : String
  pub token_fingerprint : Option String
  pub token_jti : Option String
  pub token_sub : Option String
  pub token_agent_id : Option String
  pub actor_type : Option String
  pub delegated_user : Option String
  pub token_issued_at : Option ℤ
  pub token_expires_at : Option ℤ
  pub verified_at : ℕ
  pub is_expired : Option Bool
  pub is_revoked : Option Bool
  pub is_jti_registered : Option Bool
  pub signature_valid : Option Bool
  pub issuer_valid : Option Bool
  pub audience_valid : Option Bool

unfoldable pub token_fingerprint : Libs → String → Option String
token_fingerprint lib token = if token == "" then none else some (lib.sha256_hex token)

-- `str(claims.get(key)) if claims.get(key) is not None else None`
unfoldable pub claim_text : Libs → Option Json → Option String
claim_text lib none = none
claim_text lib (some null) = none
claim_text lib (some v) = some (str lib v)

-- `int(claims.get(key)) if claims.get(key) is not None else None`
unfoldable pub claim_int : Libs → Option Json → Read (Option ℤ)
claim_int lib none = ok none
claim_int lib (some null) = ok none
claim_int lib (some v) = do n ← or_raise (lib.int_of v) (other "ValueError"); ok (some n)

unfoldable pub failed_token_result :
    Libs → String → Json → ℕ → Failure → Read TokenVerificationResult
unfolding dict_of get claim_text claim_int token_fingerprint
failed_token_result lib token claims verified_at f = do
  fields ← dict_of claims
  issued ← claim_int lib (get "iat" fields)
  expires ← claim_int lib (get "exp" fields)
  ok (record {
    auth_context = none;
    error_code = some f.error_code;
    message = f.message;
    token_fingerprint = token_fingerprint lib token;
    token_jti = claim_text lib (get "jti" fields);
    token_sub = claim_text lib (get "sub" fields);
    token_agent_id = claim_text lib (get "agent_id" fields);
    actor_type = claim_text lib (get "actor_type" fields);
    delegated_user = claim_text lib (get "delegated_user" fields);
    token_issued_at = issued;
    token_expires_at = expires;
    verified_at = verified_at;
    is_expired = f.is_expired;
    is_revoked = f.is_revoked;
    is_jti_registered = f.is_jti_registered;
    signature_valid = f.signature_valid;
    issuer_valid = f.issuer_valid;
    audience_valid = f.audience_valid;
  })

-- a failure of a token that has passed the block
abbrev pub valid_failure : String → String → Failure
valid_failure code message = record (signed_failure true code message) {
  issuer_valid = some true;
  audience_valid = some true;
  is_expired = some false;
}

abbrev pub registered_failure : String → String → Failure
registered_failure code message = record (valid_failure code message) {
  is_jti_registered = some true;
}

-- the context of a token without a credential
unfoldable pub stored_context : StoredToken → AuthContext
stored_context t = record {
  jti = t.jti;
  sub = t.sub;
  exp = t.exp;
  agent_id = t.agent_id;
  actor_type = t.actor_type;
  delegated_user = some t.delegated_user;
  subject_did = none;
  agent_did = none;
  signing_kid = none;
  capabilities = t.capabilities;
  user_capabilities = t.user_capabilities;
  credential_id = none;
  parent_credential_id = none;
  root_credential_id = none;
  sig = none;
}

-- The parameters of what follows the block: the token's text and its claims.
module _ (lib : Libs) (token : String) (claims : Fields) where
  unfoldable pub fail : Failure → World → Read TokenVerificationResult
  fail f w = failed_token_result lib token (obj claims) w.clock f

  unfoldable pub verified_result : StoredToken → AuthContext → World → Read TokenVerificationResult
  unfolding get claim_int token_fingerprint
  verified_result stored context w = do
    issued ← claim_int lib (get "iat" claims)
    ok (record {
      auth_context = some context;
      error_code = none;
      message = "token verified";
      token_fingerprint = token_fingerprint lib token;
      token_jti = some stored.jti;
      token_sub = some stored.sub;
      token_agent_id = some stored.agent_id;
      actor_type = some (actor_type_text stored.actor_type);
      delegated_user = some stored.delegated_user;
      token_issued_at = issued;
      token_expires_at = some (ℤ.pos stored.exp);
      verified_at = w.clock;
      is_expired = some false;
      is_revoked = some false;
      is_jti_registered = some true;
      signature_valid = some true;
      issuer_valid = some true;
      audience_valid = some true;
    })

  -- the token's credential, if its row names one
  unfoldable pub check_credential :
      StoredToken → Option DelegationCredential → World → Read TokenVerificationResult
  unfolding auth_context_from_credential
  check_credential stored none w =
      fail (registered_failure "AUTH_CREDENTIAL_INVALID" "token credential is not registered") w
  check_credential stored (some c) w =
      if not (verify_credential_integrity lib c w)
      then fail
          (registered_failure "AUTH_CREDENTIAL_INVALID"
            "token credential integrity verification failed")
          w
      else if c.revoked
      then fail
          (record (registered_failure "AUTH_CREDENTIAL_REVOKED"
            "token credential has been revoked") { is_revoked = some true })
          w
      else verified_result stored
          (auth_context_from_credential c (some stored.jti) (some stored.actor_type)) w

  unfoldable pub check_stored : StoredToken → World → Read TokenVerificationResult
  unfolding get_credential stored_context
  check_stored stored w =
      if truthy stored.credential_id
      then check_credential stored (get_credential (or_else stored.credential_id "") w) w
      else verified_result stored (stored_context stored) w

  unfoldable pub inspect_stored : Option StoredToken → World → Read TokenVerificationResult × World
  unfolding mark_jti_seen
  inspect_stored none w = (
    fail
        (record (valid_failure "AUTH_TOKEN_JTI_NOT_REGISTERED" "token jti is not registered") {
          is_jti_registered = some false;
        })
        w,
    w,
  )
  inspect_stored (some stored) w =
      if stored.revoked
      then (
        fail
            (record (registered_failure "AUTH_TOKEN_REVOKED" "token has been revoked") {
              is_revoked = some true;
            })
            w,
        w,
      )
      else (check_stored stored (mark_jti_seen stored.jti w), mark_jti_seen stored.jti w)

-- claims that the block has let pass: they are a dict
unfoldable pub inspect_claims :
    Libs → String → Read Fields → World → Read TokenVerificationResult × World
unfolding str_or get_token
inspect_claims lib token (err e) w = (err e, w)
inspect_claims lib token (ok claims) w =
    inspect_stored lib token claims (get_token (str_or lib "jti" "" claims) w) w

unfoldable pub inspect_checked :
    Libs → String → Token → Read (Option Failure) → World → Read TokenVerificationResult × World
unfolding dict_of
inspect_checked lib token t (err e) w =
    (failed_token_result lib token t.claims w.clock malformed, w)
inspect_checked lib token t (ok (some f)) w = (failed_token_result lib token t.claims w.clock f, w)
inspect_checked lib token t (ok none) w = inspect_claims lib token (dict_of t.claims) w

unfoldable pub inspect_read :
    Libs → String → Option Token → World → Read TokenVerificationResult × World
inspect_read lib token none w = (failed_token_result lib token (obj end) w.clock malformed, w)
inspect_read lib token (some t) w = inspect_checked lib token t (check_token lib t w) w

unfoldable pub inspect_token : Libs → String → World → Read TokenVerificationResult × World
unfolding read_token
inspect_token lib token w = inspect_read lib token (read_token lib token) w

-- `verify_token`: the context, or a TokenError
unfoldable pub context_or_raise : TokenVerificationResult → Read AuthContext
context_or_raise r =
    or_raise r.auth_context (token_error (or_else r.error_code "AUTH_TOKEN_INVALID") r.message)

unfoldable pub verify_token : Libs → String → World → Read AuthContext × World
unfolding inspect_token context_or_raise
verify_token lib token w =
    let out = inspect_token lib token w in (out.0 >>= context_or_raise, out.1)
