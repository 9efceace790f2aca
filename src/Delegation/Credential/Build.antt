-- ===== src/Delegation/Credential/Build.antt =====
-- app/delegation/credential_crypto.py: the two builders of signed credentials.
pub mod Shape
use bu_iam.Prelude.{ℕ, ◌+◌, ◌*◌, String, false, Option, none, some, List, min, or_text}
use bu_iam.Prelude.Sets.{sorted}
use bu_iam.Prelude.Result.{ok, ◌>>=◌}
use bu_iam.Json.{text, Fields, end, field, texts, texts_items, optional}
use bu_iam.Libs.{Libs}
use bu_iam.Protocol.{DelegationCredential}
use bu_iam.Protocol.Errors.{Read}
use bu_iam.World.{World}
use bu_iam.Identity.Did.{build_did, build_verification_method_id}
use bu_iam.Identity.Crypto.{sign_with_kid}
use bu_iam.Delegation.Credential.{
  vc_context, vc_type, agent_vc_type, gateway_system_id, signed_content, compute_credential_id,
}

-- `credential_subject` of a delegation credential
unfoldable pub delegation_subject :
    String
    → String
    → String
    → List String
    → List String
    → Option String
    → Option String
    → Option String
    → String
    → Fields
unfolding sorted texts_items
delegation_subject subject_did subject_id delegated_user caps user_caps trace request parent root =
    field "id" (text subject_did) (
      field "subject_id" (text subject_id) (
        field "delegated_user" (text delegated_user) (
          field "capabilities" (texts (sorted caps)) (
            field "user_capabilities" (texts (sorted user_caps)) (
              field "trace_id" (optional trace) (
                field "request_id" (optional request) (
                  field "parent_credential_id" (optional parent)
                    (field "root_credential_id" (text root) end))))))))

-- `credential_subject` of an agent's capability credential
unfoldable pub agent_subject : String → String → List String → String → String → Fields
unfolding sorted texts_items
agent_subject subject_did agent_id caps endpoint agent_type = field "id" (text subject_did) (
    field "subject_id" (text agent_id) (
      field "capabilities" (texts (sorted caps))
        (field "service_endpoint" (text endpoint) (field "agent_type" (text agent_type) end))))

-- The arguments of `build_delegation_credential`.
pub record Grant : Type 0 where
  pub issuer_id : String
  pub subject_id : String
  pub delegated_user : String
  pub capabilities : List String
  pub user_capabilities : List String
  pub exp : ℕ
  pub parent : Option DelegationCredential
  pub trace_id : Option String
  pub request_id : Option String
  pub iat : Option ℕ

unfoldable pub parent_id : Option DelegationCredential → Option String
parent_id none = none
parent_id (some p) = some p.credential_id

unfoldable pub root_id : Option DelegationCredential → String
root_id none = ""
root_id (some p) = p.root_credential_id

unfoldable pub bounded_exp : ℕ → Option DelegationCredential → ℕ
bounded_exp exp none = exp
bounded_exp exp (some p) = min exp p.exp

unfoldable pub issued_at : Option ℕ → World → ℕ
issued_at none w = w.clock
issued_at (some t) w = t

module _ (lib : Libs) where
  unfoldable pub unsigned_credential : Grant → World → DelegationCredential
  unfolding parent_id root_id bounded_exp issued_at sorted delegation_subject build_did
      build_verification_method_id
  unsigned_credential g w = record {
    credential_id = "";
    parent_credential_id = parent_id g.parent;
    root_credential_id = root_id g.parent;
    issuer_id = g.issuer_id;
    subject_id = g.subject_id;
    issuer_did = some (build_did g.issuer_id);
    subject_did = some (build_did g.subject_id);
    delegated_user = g.delegated_user;
    capabilities = sorted g.capabilities;
    user_capabilities = sorted g.user_capabilities;
    iat = issued_at g.iat w;
    exp = bounded_exp g.exp g.parent;
    trace_id = g.trace_id;
    request_id = g.request_id;
    vc_context = vc_context;
    vc_type = vc_type;
    credential_subject =
        delegation_subject (build_did g.subject_id) g.subject_id g.delegated_user g.capabilities
          g.user_capabilities g.trace_id g.request_id (parent_id g.parent) (root_id g.parent);
    proof_verification_method = some (build_verification_method_id (build_did g.issuer_id));
    proof_signature = some "";
    content_hash = "";
    signature = "";
    signature_alg = lib.signature_alg;
    revoked = false;
    revoked_at = none;
    revoke_reason = none;
  }

  -- `unsigned.model_copy` with the hash and the signature
  unfoldable pub with_signature : DelegationCredential → String → DelegationCredential
  unfolding signed_content
  with_signature unsigned sig = record unsigned {
    content_hash = lib.sha256_hex (signed_content lib unsigned);
    proof_signature = some sig;
    signature = sig;
  }

  -- `signed.model_copy` with the ids
  unfoldable pub with_ids : DelegationCredential → DelegationCredential
  unfolding compute_credential_id
  with_ids signed = record signed {
    credential_id = compute_credential_id lib signed;
    root_credential_id = or_text signed.root_credential_id (compute_credential_id lib signed);
  }

  -- the second half of both builders
  unfoldable pub sign_credential : DelegationCredential → String → World → Read DelegationCredential
  unfolding with_signature with_ids sign_with_kid
  sign_credential unsigned proof_vm w = do
    sig ← sign_with_kid lib unsigned.signature_alg (signed_content lib unsigned) proof_vm w
    ok (with_ids (with_signature unsigned sig))

  unfoldable pub build_delegation_credential : Grant → World → Read DelegationCredential
  unfolding unsigned_credential sign_credential
  build_delegation_credential g w =
      sign_credential (unsigned_credential g w)
        (build_verification_method_id (build_did g.issuer_id)) w

  unfoldable pub unsigned_agent_vc :
      String → List String → String → String → ℕ → World → DelegationCredential
  unfolding sorted agent_subject build_did build_verification_method_id
  unsigned_agent_vc agent_id caps endpoint agent_type ttl_days w = record {
    credential_id = "";
    parent_credential_id = none;
    root_credential_id = "";
    issuer_id = gateway_system_id;
    subject_id = agent_id;
    issuer_did = some (build_did gateway_system_id);
    subject_did = some (build_did agent_id);
    delegated_user = agent_id;
    capabilities = sorted caps;
    user_capabilities = sorted caps;
    iat = w.clock;
    exp = w.clock + ttl_days * 86400;
    trace_id = none;
    request_id = none;
    vc_context = vc_context;
    vc_type = agent_vc_type;
    credential_subject = agent_subject (build_did agent_id) agent_id caps endpoint agent_type;
    proof_verification_method = some (build_verification_method_id (build_did gateway_system_id));
    proof_signature = some "";
    content_hash = "";
    signature = "";
    signature_alg = lib.signature_alg;
    revoked = false;
    revoked_at = none;
    revoke_reason = none;
  }

  unfoldable pub build_agent_capability_vc :
      String → List String → String → String → ℕ → World → Read DelegationCredential
  unfolding unsigned_agent_vc sign_credential
  build_agent_capability_vc agent_id caps endpoint agent_type ttl_days w =
      sign_credential (unsigned_agent_vc agent_id caps endpoint agent_type ttl_days w)
        (build_verification_method_id (build_did gateway_system_id)) w
