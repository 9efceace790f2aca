-- ===== src/Identity/Jwt/Issue.antt =====
-- app/identity/jwt_service.py: `issue_token`. The fresh uuid is an argument.
pub mod Accepted
pub mod Signed
use Prim.Native.String.{◌++◌}
use bu_iam.Prelude.{ℕ, ◌+◌, String, false, Option, none, some, List, max}
use bu_iam.Prelude.Sets.{sorted}
use bu_iam.Prelude.Result.{Result, ok, err, ◌>>=◌}
use bu_iam.Json.{Json, num, text, obj, end, field, texts, texts_items}
use bu_iam.Libs.{Libs}
use bu_iam.Protocol.{ActorType, actor_type_text, DelegationCredential}
use bu_iam.Protocol.Errors.{Exception, Read}
use bu_iam.World.{World, StoredToken, Action}
use bu_iam.Store.Credentials.{upsert_credential}
use bu_iam.Store.Tokens.{store_token}
use bu_iam.Identity.Did.{build_did, build_verification_method_id}
use bu_iam.Identity.Crypto.{sign_with_kid}
use bu_iam.Identity.Jwt.Checks.{issuer, audience}
use bu_iam.Delegation.Credential.Build.{Grant, build_delegation_credential}

-- The arguments of `issue_token`.
pub record Issue : Type 0 where
  pub agent_id : String
  pub delegated_user : String
  pub capabilities : List String
  pub user_capabilities : Option (List String)
  pub actor_type : ActorType
  pub ttl_seconds : ℕ

pub record IssuedToken : Type 0 where
  pub access_token : String
  pub token_type : String
  pub jti : String
  pub exp : ℕ
  pub credential_id : String

abbrev pub stored_user_capabilities : Option (List String) → List String → List String
stored_user_capabilities none capabilities = capabilities
stored_user_capabilities (some user) capabilities = user

abbrev pub user_caps : Issue → List String
user_caps r = stored_user_capabilities r.user_capabilities r.capabilities

-- now + max(1, ttl_seconds)
abbrev pub token_exp : Issue → World → ℕ
token_exp r w = w.clock + max 1 r.ttl_seconds

unfoldable pub signing_kid : Issue → String
unfolding build_did build_verification_method_id
signing_kid r = build_verification_method_id (build_did r.agent_id)

unfoldable pub token_header : Libs → Issue → Json
unfolding signing_kid
token_header lib r = obj (
    field "alg" (text lib.signature_alg)
      (field "typ" (text "JWT") (field "kid" (text (signing_kid r)) end)))

unfoldable pub issued_claims : Issue → String → World → Json
unfolding build_did signing_kid sorted texts_items
issued_claims r jti w = obj (
    field "jti" (text jti) (
      field "iss" (text issuer) (
        field "aud" (text audience) (
          field "sub" (text r.agent_id) (
            field "agent_id" (text r.agent_id) (
              field "actor_type" (text (actor_type_text r.actor_type)) (
                field "delegated_user" (text r.delegated_user) (
                  field "capabilities" (texts (sorted r.capabilities)) (
                    field "user_capabilities" (texts (sorted (user_caps r))) (
                      field "sub_did" (text (build_did r.agent_id)) (
                        field "agent_did" (text (build_did r.agent_id)) (
                          field "delegated_user_did" (text (build_did r.delegated_user)) (
                            field "signing_kid" (text (signing_kid r)) (
                              field "iat" (num w.clock)
                                (field "exp" (num (token_exp r w)) end)))))))))))))))

-- json_b64(payload)
abbrev pub json_b64 : Libs → Json → String
json_b64 lib payload = lib.encode_text (lib.dumps payload)

unfoldable pub token_input : Libs → Issue → String → World → String
token_input lib r jti w =
    json_b64 lib (token_header lib r) ++ "." ++ json_b64 lib (issued_claims r jti w)

unfoldable pub sign_token : Libs → Issue → String → World → Read String
sign_token lib r jti w = do
  sig ← sign_with_kid lib lib.signature_alg (token_input lib r jti w) (signing_kid r) w
  ok (token_input lib r jti w ++ "." ++ sig)

-- the root credential's grant
unfoldable pub token_grant : Issue → String → World → Grant
unfolding sorted
token_grant r jti w = record {
  issuer_id = r.agent_id;
  subject_id = r.agent_id;
  delegated_user = r.delegated_user;
  capabilities = sorted r.capabilities;
  user_capabilities = sorted (user_caps r);
  exp = token_exp r w;
  parent = none;
  trace_id = none;
  request_id = some jti;
  iat = some w.clock;
}

unfoldable pub token_row : Issue → String → String → World → StoredToken
unfolding sorted
token_row r jti credential_id w = record {
  jti = jti;
  sub = r.agent_id;
  agent_id = r.agent_id;
  actor_type = r.actor_type;
  delegated_user = r.delegated_user;
  capabilities = sorted r.capabilities;
  user_capabilities = sorted (user_caps r);
  exp = token_exp r w;
  revoked = false;
  credential_id = some credential_id;
}

unfoldable pub issue_with :
    Issue → String → Read String → Read DelegationCredential → World → Read IssuedToken × World
issue_with r jti (err e) c w = (err e, w)
issue_with r jti (ok token) (err e) w = (err e, w)
issue_with r jti (ok token) (ok c) w = (
  ok (record {
    access_token = token;
    token_type = "bearer";
    jti = jti;
    exp = token_exp r w;
    credential_id = c.credential_id;
  }),
  store_token (token_row r jti c.credential_id w) (upsert_credential c w),
)

unfoldable pub issue_token : Libs → String → Issue → World → Read IssuedToken × World
issue_token lib uuid r w =
    let jti = "tok_" ++ uuid in
    issue_with r jti (sign_token lib r jti w)
      (build_delegation_credential lib (token_grant r jti w) w) w
