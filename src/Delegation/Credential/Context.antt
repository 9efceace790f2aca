-- ===== src/Delegation/Credential/Context.antt =====
-- app/delegation/credential_crypto.py: the identity that a credential stands for.
use Prim.Native.String.{◌++◌}
use bu_iam.Prelude.{String, Option, none, some, ◌==◌, or_else, if◌then◌else◌}
use bu_iam.Protocol.{ActorType, user, agent, AuthContext, DelegationCredential}
use bu_iam.Identity.Did.{build_did}

-- `actor_type or ("user" if credential.subject_id == credential.delegated_user else "agent")`
unfoldable pub inferred_actor_type : DelegationCredential → Option ActorType → ActorType
inferred_actor_type c none = if c.subject_id == c.delegated_user then user else agent
inferred_actor_type c (some t) = t

-- `jti` is `None` or a text.
unfoldable pub auth_context_from_credential :
    DelegationCredential → Option String → Option ActorType → AuthContext
unfolding inferred_actor_type build_did
auth_context_from_credential c jti actor_type = record {
  jti = or_else jti c.credential_id;
  sub = c.subject_id;
  exp = c.exp;
  agent_id = c.subject_id;
  actor_type = inferred_actor_type c actor_type;
  delegated_user = some c.delegated_user;
  subject_did = some (or_else c.subject_did (build_did c.subject_id));
  agent_did = some (or_else c.subject_did (build_did c.subject_id));
  signing_kid = some (
      or_else c.proof_verification_method
        (or_else c.issuer_did (build_did c.issuer_id) ++ "#key-1"));
  capabilities = c.capabilities;
  user_capabilities = c.user_capabilities;
  credential_id = some c.credential_id;
  parent_credential_id = c.parent_credential_id;
  root_credential_id = some c.root_credential_id;
  sig = some (or_else c.proof_signature c.signature);
}
