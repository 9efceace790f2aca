-- ===== src/Tests/Tokens.antt =====
-- The theorems on app/identity/jwt_service.py, at a token of the small system.
use bu_iam.Prelude.{String, ◌≡◌, refl, true, false, none, some, [], ◌∷◌}
use bu_iam.Prelude.Result.{ok}
use bu_iam.Protocol.{AuthContext, agent}
use bu_iam.Json.{text, obj, end, field}
use bu_iam.Libs.{ℤ}
use bu_iam.World.{World}
use bu_iam.Store.DidRegistry.{get_did_document}
use bu_iam.Store.Tokens.{get_token}
use bu_iam.Identity.Resolver.{str_or, resolve_verification_method, kty_of}
use bu_iam.Identity.Crypto.{verify_with_kid}
use bu_iam.Identity.Jwt.Checks.{
  Token, dict_of, check_key, check_method, check_signature, is_claim, exp_claim, catch_did,
  subject_claim, check_claims, check_rest, check_token, read_token,
}
use bu_iam.Identity.Jwt.Passed.{Passed, check_token-Passed}
use bu_iam.Identity.Jwt.{
  TokenVerificationResult, inspect_read, inspect_checked, inspect_claims, inspect_stored,
  check_stored, check_credential, verified_result, fail, failed_token_result, inspect_token,
}
use bu_iam.Identity.Jwt.Accept.{Trusted, inspect_token-Trusted}
use bu_iam.Identity.Jwt.Revoked.{inspect_token-revoke}
use bu_iam.Delegation.Credential.Check.{known_alg, verify_credential_integrity}
use bu_iam.Delegation.Credential.Context.{auth_context_from_credential}
use bu_iam.Identity.Jwt.Issue.{Issue, IssuedToken}
use bu_iam.Identity.Jwt.Issue.Accepted.{Issued, issue_token-Issued}
use bu_iam.Gateway.Bearer.{
  bearer_token, record_token_result, verify_bearer, verify_bearer_for_envelope,
}
use bu_iam.Gateway.Bearer.Verified.{verify_bearer-Trusted}
use bu_iam.Tests.Fixtures.{
  task, with_root, doc_agent_key, toy, token_claims, child_vc, with_token, root_token,
  token_revoked, token-revoked,
}

abbrev token_parts : Token
token_parts = record {
  header_part = "h";
  claims_part = "c";
  signature = "2";
  header =
      obj (field "alg" (text "BUIAM-RS256") (field "kid" (text "did:buiam:doc_agent#key-1") end));
  claims = obj token_claims;
}

abbrev verified : TokenVerificationResult
verified = record {
  auth_context = some (auth_context_from_credential child_vc (some "token") (some agent));
  error_code = none;
  message = "token verified";
  token_fingerprint = some "h.c.2";
  token_jti = some "token";
  token_sub = some "doc_agent";
  token_agent_id = some "doc_agent";
  actor_type = some "agent";
  delegated_user = some "alice";
  token_issued_at = none;
  token_expires_at = some (ℤ.pos 100);
  verified_at = 10;
  is_expired = some false;
  is_revoked = some false;
  is_jti_registered = some true;
  signature_valid = some true;
  issuer_valid = some true;
  audience_valid = some true;
}

abbrev token_seen : World
token_seen = record with_token { jti_seen = record { jti = "token"; first_seen_at = 10 } ∷ [] }

token-verified : inspect_token toy "h.c.2" with_token ≡ (ok verified, token_seen)
unfolding inspect_token inspect_read check_token check_signature check_method check_key
    verify_with_kid resolve_verification_method get_did_document check_rest check_claims
    inspect_checked check_stored check_credential verify_credential_integrity catch_did kty_of
    subject_claim is_claim exp_claim inspect_claims inspect_stored verified_result
token-verified = refl

inspect_token-Trusted_example :
    Trusted toy "h.c.2" with_token
      (auth_context_from_credential child_vc (some "token") (some agent))
inspect_token-Trusted_example =
    inspect_token-Trusted toy "h.c.2" with_token token_seen verified
      (auth_context_from_credential child_vc (some "token") (some agent)) token-verified refl

token-passed : check_token toy token_parts with_token ≡ ok none
unfolding check_token check_signature check_method check_key verify_with_kid
    resolve_verification_method get_did_document check_rest check_claims dict_of known_alg catch_did
    kty_of subject_claim is_claim exp_claim
token-passed = refl

check_token-Passed_example : Passed toy token_parts with_token
check_token-Passed_example = check_token-Passed toy token_parts with_token token-passed

abbrev refused : TokenVerificationResult
refused = record verified {
  auth_context = none;
  error_code = some "AUTH_TOKEN_REVOKED";
  message = "token has been revoked";
  token_sub = none;
  token_agent_id = none;
  actor_type = none;
  delegated_user = none;
  is_revoked = some true;
}

token-refused : inspect_token toy "h.c.2" token_revoked ≡ (ok refused, token_revoked)
unfolding inspect_token inspect_read check_token check_signature check_method check_key
    verify_with_kid resolve_verification_method get_did_document check_rest check_claims
    inspect_checked check_stored check_credential verify_credential_integrity catch_did kty_of
    subject_claim is_claim exp_claim inspect_claims inspect_stored fail failed_token_result
token-refused = refl

inspect_token-revoke_example : refused.auth_context ≡ none
unfolding get_token read_token dict_of str_or
inspect_token-revoke_example =
    inspect_token-revoke toy "h.c.2" "token" "lost" with_token token_revoked token_revoked
      root_token (true, "trace" ∷ []) token_parts token_claims refused refl token-revoked refl refl
      refl token-refused

abbrev request : Issue
request = record {
  agent_id = "doc_agent";
  delegated_user = "alice";
  capabilities = "report:read" ∷ [];
  user_capabilities = none;
  actor_type = agent;
  ttl_seconds = 60;
}

issue_token-Issued_example :
    (out : IssuedToken) × (w' : World) × Issued toy "uuid" request with_root out w'
issue_token-Issued_example = issue_token-Issued toy "uuid" request with_root refl doc_agent_key

header-verified :
    verify_bearer_for_envelope toy task (some "Bearer h.c.2") with_token
    ≡ (ok verified, record_token_result task verified token_seen)
unfolding verify_bearer_for_envelope verify_bearer inspect_token inspect_read check_token
    check_signature check_method check_key verify_with_kid resolve_verification_method
    get_did_document check_rest check_claims inspect_checked check_stored check_credential
    verify_credential_integrity catch_did kty_of subject_claim is_claim exp_claim inspect_claims
    inspect_stored verified_result
header-verified = refl

verify_bearer-Trusted_example :
    (token : String) × (a : AuthContext) × (bearer_token (some "Bearer h.c.2") ≡ ok token)
    × (verified.auth_context ≡ some a)
    × Trusted toy token with_token a
verify_bearer-Trusted_example =
    verify_bearer-Trusted toy task (some "Bearer h.c.2") verified with_token
      (record_token_result task verified token_seen) header-verified
