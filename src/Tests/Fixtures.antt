-- ===== src/Tests/Fixtures.antt =====
-- A small system: two agents with their DID documents, a root credential and one below it.
use bu_iam.Prelude.{
  ℕ, zero, suc, ◌^◌, ◌%◌, ◌<◌, String, ◌≡◌, refl, true, false, Option, none, some, List, [], ◌∷◌,
  arith, ◌==◌, same_code, if◌then◌else◌,
}
use bu_iam.Prelude.Result.{ok}
use Prim.Native.String.{◌++◌}
use bu_iam.Json.{num, text, arr, obj, cons, nil, Fields, end, field}
use bu_iam.Libs.{Libs, RsaKey, pos}
use bu_iam.Protocol.{agent, AuthContext, DelegationEnvelope, DelegationCredential}
use bu_iam.Store.Credentials.{mark_revoked, revoke_credential_tree}
use bu_iam.Store.Tokens.{revoke_token_and_credentials}
use bu_iam.World.{StoredToken, World, Agent, DidRow, empty_world}
use bu_iam.Store.DidRegistry.{get_did_document}
use bu_iam.Identity.Crypto.RoundTrip.{IsRsaPair, Decodes, HasRsaKey}
use bu_iam.Identity.Resolver.{rsa_jwk, ResolvedVerificationMethod, resolve_verification_method}
use bu_iam.Delegation.Credential.{vc_context, vc_type}
use bu_iam.Delegation.Credential.Build.{Grant, delegation_subject, build_delegation_credential}
use bu_iam.Identity.Did.{build_did, build_verification_method_id}
use bu_iam.Delegation.Credential.Integrity.{method_of}
use bu_iam.Delegation.Credential.Context.{auth_context_from_credential}
use bu_iam.Delegation.Service.Child.{ChildRequest, child_credential}

abbrev pub digit : ℕ → String
digit x =
    if same_code x 0 then "0" else if same_code x 1 then "1" else if same_code x 2 then "2" else "3"

abbrev number : String → Option ℕ
number t =
    if t == "0"
    then some 0
    else if t == "1"
    then some 1
    else if t == "2"
    then some 2
    else if t == "3"
    then some 3
    else none

abbrev pub small_key : RsaKey
small_key = record { n = 3; e = 3; d = 3 }

-- the claims of the one token that the system reads
abbrev pub token_claims : Fields
token_claims = field "iss" (text "buiam.local") (
    field "aud" (text "buiam.a2a") (
      field "jti" (text "token")
        (field "sub_did" (text "did:buiam:doc_agent") (field "exp" (num 100) end))))

abbrev pub toy : Libs
toy = record {
  dumps = λ v. "{}";
  repr = λ v. "[]";
  sha256_hex = λ t. t;
  sha256_int = λ t. 2;
  decode_int = number;
  encode_int = λ len x. digit x;
  encode_text = λ t. t;
  loads_text = λ t.
      if t == "h"
      then some (
          obj
            (field "alg" (text "BUIAM-RS256") (field "kid" (text "did:buiam:doc_agent#key-1") end)))
      else if t == "c"
      then some (obj token_claims)
      else none;
  loads = λ t.
      if t == "{1}"
      then some (obj (field "decision" (text "Consistent") (field "reason" (text "fits") end)))
      else if t == "{2}"
      then some (obj (field "intent" (text "report") end))
      else none;
  dumps_plain = λ v. "{2}";
  int_of = λ v. some (pos 100);
  oqs_sign = λ alg key t. none;
  oqs_verify = λ alg key t sig. false;
  private_key = λ id. some small_key;
  public_key = λ id. some small_key;
  mldsa_private_key = λ id. none;
  mldsa_public_key = λ id. none;
  use_mldsa = false;
  utc_text = λ t. "";
  vc_type_like = λ marker types. false;
  local_time = λ t. t;
  recursion_limit = 1000;
  signature_alg = "BUIAM-RS256";
}

cube : (x : ℕ) → x < 3 → (x ^ 3 % 3) ^ 3 % 3 ≡ x
cube zero h = refl
cube (suc zero) h = refl
cube (suc (suc zero)) h = refl
cube (suc (suc (suc x))) h = absurd (omega arith)

number-digit : (x : ℕ) → x < 3 → number (digit x) ≡ some x
number-digit zero h = refl
number-digit (suc zero) h = refl
number-digit (suc (suc zero)) h = refl
number-digit (suc (suc (suc x))) h = absurd (omega arith)

pub small_key-IsRsaPair : IsRsaPair toy small_key
small_key-IsRsaPair = record { inverse = cube; wide = λ t. omega arith }

pub small_key-Decodes : Decodes toy small_key
small_key-Decodes = record { back = number-digit }

-- the DID document of a subject with the public numbers of that key
abbrev document : String → Fields
document id =
    field "verificationMethod"
      (arr (
        cons
          (obj (
            field "id" (text ("did:buiam:" ++ id ++ "#key-1")) (
              field "publicKeyJwk"
                (obj (field "kty" (text "RSA") (field "n" (text "3") (field "e" (text "3") end))))
                end)))
          nil))
      (field "metadata" (obj (field "subject_id" (text id) end)) end)

abbrev pub row : String → DidRow
row id = record { did = "did:buiam:" ++ id; subject_id = id; document = document id }

abbrev pub no_credentials : World
no_credentials = record empty_world {
  clock = 10;
  did_documents = row "buiam-auth-system" ∷ row "doc_agent" ∷ row "data_agent" ∷ [];
}

abbrev pub root_grant : Grant
root_grant = record {
  issuer_id = "buiam-auth-system";
  subject_id = "doc_agent";
  delegated_user = "alice";
  capabilities = "report:write" ∷ "report:read" ∷ [];
  user_capabilities = "report:read" ∷ "report:write" ∷ [];
  exp = 100;
  parent = none;
  trace_id = some "trace";
  request_id = none;
  iat = none;
}

-- what `build_delegation_credential` makes of it
abbrev pub root_vc : DelegationCredential
root_vc = record {
  credential_id = "ROOT{}";
  parent_credential_id = none;
  root_credential_id = "ROOT{}";
  issuer_id = "buiam-auth-system";
  subject_id = "doc_agent";
  issuer_did = some "did:buiam:buiam-auth-system";
  subject_did = some "did:buiam:doc_agent";
  delegated_user = "alice";
  capabilities = "report:read" ∷ "report:write" ∷ [];
  user_capabilities = "report:read" ∷ "report:write" ∷ [];
  iat = 10;
  exp = 100;
  trace_id = some "trace";
  request_id = none;
  vc_context = vc_context;
  vc_type = vc_type;
  credential_subject =
      delegation_subject "did:buiam:doc_agent" "doc_agent" "alice"
        ("report:read" ∷ "report:write" ∷ []) ("report:read" ∷ "report:write" ∷ []) (some "trace")
        none none "";
  proof_verification_method = some "did:buiam:buiam-auth-system#key-1";
  proof_signature = some "2";
  content_hash = "{}";
  signature = "2";
  signature_alg = "BUIAM-RS256";
  revoked = false;
  revoked_at = none;
  revoke_reason = none;
}

abbrev pub child_request : ChildRequest
child_request = record {
  issuer_id = "doc_agent";
  subject_id = "data_agent";
  capabilities = "report:read" ∷ [];
  trace_id = "trace";
  request_id = "call";
}

-- and of the grant to the child
abbrev pub child_vc : DelegationCredential
child_vc = record root_vc {
  credential_id = "ROOT{}{}";
  parent_credential_id = some "ROOT{}";
  issuer_id = "doc_agent";
  subject_id = "data_agent";
  issuer_did = some "did:buiam:doc_agent";
  subject_did = some "did:buiam:data_agent";
  capabilities = "report:read" ∷ [];
  request_id = some "call";
  credential_subject =
      delegation_subject "did:buiam:data_agent" "data_agent" "alice" ("report:read" ∷ [])
        ("report:read" ∷ "report:write" ∷ []) (some "trace") (some "call") (some "ROOT{}") "ROOT{}";
  proof_verification_method = some "did:buiam:doc_agent#key-1";
}

abbrev registered_agent : String → List String → Agent
registered_agent id caps = record {
  agent_id = id;
  name = id;
  agent_type = "internal";
  description = "";
  owner_org = "";
  allowed_resource_domains = [];
  status = "active";
  endpoint = "";
  static_capabilities = caps;
  created_at = 0;
  updated_at = 0;
  last_seen_at = none;
}

abbrev pub data_agent : Agent
data_agent = registered_agent "data_agent" ("report:read" ∷ [])

abbrev pub with_root : World
with_root = record no_credentials {
  credentials = root_vc ∷ [];
  agents = data_agent ∷ [];
  capabilities =
      record { name = "report:read"; description = "" }
      ∷ record { name = "report:write"; description = "" }
      ∷ [];
}

abbrev pub with_child : World
with_child = record with_root { credentials = root_vc ∷ child_vc ∷ [] }

abbrev pub root_context : AuthContext
root_context = auth_context_from_credential root_vc none none

abbrev pub task : DelegationEnvelope
task = record {
  protocol_version = "1.0";
  trace_id = "trace";
  request_id = "call";
  caller_agent_id = "doc_agent";
  target_agent_id = "data_agent";
  task_type = "report";
  requested_capabilities = "report:read" ∷ [];
  delegation_chain = [];
  intent_node = none;
  auth_context = some root_context;
  payload = end;
}

-- a method id of the small system has its key
abbrev method : String → ResolvedVerificationMethod
method id = record {
  did = "did:buiam:" ++ id;
  verification_method_id = "did:buiam:" ++ id ++ "#key-1";
  subject_id = id;
  public_key_jwk = rsa_jwk "RSA" "3" "3";
}

pub has_key :
    (id : String) (w : World)
    → resolve_verification_method toy ("did:buiam:" ++ id ++ "#key-1") w ≡ ok (method id)
    → HasRsaKey toy ("did:buiam:" ++ id ++ "#key-1") w
has_key id w found = record {
  key = small_key;
  pair = small_key-IsRsaPair;
  codec = small_key-Decodes;
  resolved = method id;
  kty = "RSA";
  n = "3";
  e = "3";
  found = found;
  is_rsa = refl;
  modulus = refl;
  exponent = refl;
  file = refl;
}

pub gateway_key : HasRsaKey toy (method_of "buiam-auth-system") no_credentials
unfolding build_did build_verification_method_id resolve_verification_method get_did_document
gateway_key = has_key "buiam-auth-system" no_credentials refl

pub doc_agent_key : HasRsaKey toy (method_of "doc_agent") with_root
unfolding build_did build_verification_method_id resolve_verification_method get_did_document
doc_agent_key = has_key "doc_agent" with_root refl

pub root_vc-built : build_delegation_credential toy root_grant no_credentials ≡ ok root_vc
unfolding build_delegation_credential get_did_document
root_vc-built = refl

pub child_vc-issued : child_credential toy root_vc child_request with_root ≡ ok child_vc
unfolding child_credential get_did_document
child_vc-issued = refl

-- one of the two revoked, and a token for it
abbrev pub child_revoked : World
child_revoked = record with_child { credentials = root_vc ∷ mark_revoked 10 "lost" child_vc ∷ [] }

abbrev pub root_token : StoredToken
root_token = record {
  jti = "token";
  sub = "doc_agent";
  agent_id = "doc_agent";
  actor_type = agent;
  delegated_user = "alice";
  capabilities = root_vc.capabilities;
  user_capabilities = root_vc.user_capabilities;
  exp = 100;
  revoked = false;
  credential_id = some "ROOT{}{}";
}

abbrev pub with_token : World
with_token = record with_child { tokens = root_token ∷ [] }

abbrev pub token_revoked : World
token_revoked = record child_revoked { tokens = record root_token { revoked = true } ∷ [] }

pub token-revoked :
    revoke_token_and_credentials "token" "lost" with_token
    ≡ some ((true, "trace" ∷ []), token_revoked)
unfolding revoke_token_and_credentials revoke_credential_tree
token-revoked = refl
