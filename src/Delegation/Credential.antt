-- ===== src/Delegation/Credential.antt =====
-- app/delegation/credential_crypto.py: credentials, their hashes and signatures.
pub mod Build
pub mod Check
pub mod Context
pub mod Integrity
use Prim.Native.String.{◌++◌}
use bu_iam.Prelude.{
  ℕ, ◌+◌, ◌*◌, String, Bool, true, false, not, ◌&&◌, ◌||◌, Option, none, some, List, [], ◌∷◌, min,
  ◌==◌, or_text, or_else, truthy, if◌then◌else◌,
}
use bu_iam.Prelude.Sets.{sorted}
use bu_iam.Prelude.Result.{Result, ok, err, recover, ◌>>=◌}
use bu_iam.Json.{Json, null, num, text, obj, Fields, end, field, texts, texts_items, optional}
use bu_iam.Libs.{Libs}
use bu_iam.Protocol.{ActorType, user, agent, AuthContext, DelegationCredential}
use bu_iam.Protocol.Errors.{Exception, Read}
use bu_iam.World.{World}
use bu_iam.Identity.Did.{build_did, build_verification_method_id}
use bu_iam.Identity.Crypto.{sign_with_kid, verify_with_kid}

abbrev pub root_credential_parent : String
root_credential_parent = "ROOT"

abbrev pub vc_context : List String
vc_context =
    "https://www.w3.org/2018/credentials/v1" ∷ "https://buiam.local/credentials/delegation/v1" ∷ []

abbrev pub vc_type : List String
vc_type = "VerifiableCredential" ∷ "BuIAMDelegationCredential" ∷ []

abbrev pub agent_vc_type : List String
agent_vc_type = "VerifiableCredential" ∷ "BuIAMAgentCapabilityCredential" ∷ []

abbrev pub gateway_system_id : String
gateway_system_id = "buiam-auth-system"

-- `None` for a credential without a parent
unfoldable pub signed_root_id : Option String → String → Json
signed_root_id none root = null
signed_root_id (some parent) root = text root

unfoldable pub credential_self_content : DelegationCredential → Json
unfolding signed_root_id sorted texts_items
credential_self_content c = obj (
    field "protocol_version" (text "buiam.delegation_credential.v2.vc-shaped") (
      field "parent_credential_id" (optional c.parent_credential_id) (
        field "root_credential_id" (signed_root_id c.parent_credential_id c.root_credential_id) (
          field "issuer_id" (text c.issuer_id) (
            field "subject_id" (text c.subject_id) (
              field "issuer_did" (optional c.issuer_did) (
                field "subject_did" (optional c.subject_did) (
                  field "delegated_user" (text c.delegated_user) (
                    field "capabilities" (texts (sorted c.capabilities)) (
                      field "user_capabilities" (texts (sorted c.user_capabilities)) (
                        field "iat" (num c.iat) (
                          field "exp" (num c.exp) (
                            field "trace_id" (optional c.trace_id) (
                              field "request_id" (optional c.request_id) (
                                field "vc_context" (texts c.vc_context) (
                                  field "vc_type" (texts c.vc_type) (
                                    field "credential_subject" (obj c.credential_subject) (
                                      field "proof_verification_method"
                                        (optional c.proof_verification_method)
                                        (field "signature_alg" (text c.signature_alg)
                                          end)))))))))))))))))))

module _ (lib : Libs) where
  -- canonical_json(credential_self_content(credential))
  unfoldable pub signed_content : DelegationCredential → String
  unfolding credential_self_content
  signed_content c = lib.dumps (credential_self_content c)

  unfoldable pub content_hash : DelegationCredential → String
  unfolding signed_content
  content_hash c = lib.sha256_hex (signed_content c)

  unfoldable pub compute_credential_id : DelegationCredential → String
  unfolding signed_content
  compute_credential_id c =
      lib.sha256_hex (or_else c.parent_credential_id root_credential_parent ++ signed_content c)
