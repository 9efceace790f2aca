-- ===== src/Protocol.antt =====
-- app/protocol.py: the messages and records that the components exchange. The `Literal` types of
-- the source are data types; a time is a number of seconds.
pub mod Decision
pub mod Errors
use bu_iam.Prelude.{ℕ, String, Bool, Option, none, List}
use bu_iam.Json.{Fields}

-- `decision` of a hop and of a decision; a `DelegationDecision` is never `root`.
pub data Verdict : Type 0 where
  allow deny root : Verdict

pub data ActorType : Type 0 where
  user agent : ActorType

-- the texts of the `Literal` type
abbrev pub actor_type_text : ActorType → String
actor_type_text user = "user"
actor_type_text agent = "agent"

pub record DelegationHop : Type 0 where
  pub from_actor : String
  pub to_agent_id : String
  pub task_type : String
  pub delegated_capabilities : List String
  pub missing_capabilities : List String
  pub decision : Verdict

pub record IntentCommitment : Type 0 where
  pub intent : String
  pub description : String
  pub data_refs : List String
  pub constraints : List String

pub record IntentNode : Type 0 where
  pub node_id : String
  pub parent_node_id : Option String
  pub actor_id : String
  pub actor_type : ActorType
  pub target_agent_id : String
  pub task_type : String
  pub intent_commitment : IntentCommitment
  pub signature : String
  pub signature_alg : String

pub record AuthContext : Type 0 where
  pub jti : String
  pub sub : String
  pub exp : ℕ
  pub agent_id : String
  pub actor_type : ActorType
  pub delegated_user : Option String
  pub subject_did : Option String
  pub agent_did : Option String
  pub signing_kid : Option String
  pub capabilities : List String
  pub user_capabilities : List String
  pub credential_id : Option String
  pub parent_credential_id : Option String
  pub root_credential_id : Option String
  pub sig : Option String

pub record DelegationCredential : Type 0 where
  pub credential_id : String
  pub parent_credential_id : Option String
  pub root_credential_id : String
  pub issuer_id : String
  pub subject_id : String
  pub issuer_did : Option String
  pub subject_did : Option String
  pub delegated_user : String
  pub capabilities : List String
  pub user_capabilities : List String
  pub iat : ℕ
  pub exp : ℕ
  pub trace_id : Option String
  pub request_id : Option String
  pub vc_context : List String
  pub vc_type : List String
  pub credential_subject : Fields
  pub proof_verification_method : Option String
  pub proof_signature : Option String
  pub content_hash : String
  pub signature : String
  pub signature_alg : String
  pub revoked : Bool
  pub revoked_at : Option ℕ
  pub revoke_reason : Option String

pub record DelegationEnvelope : Type 0 where
  pub protocol_version : String
  pub trace_id : String
  pub request_id : String
  pub caller_agent_id : String
  pub target_agent_id : String
  pub task_type : String
  pub requested_capabilities : List String
  pub delegation_chain : List DelegationHop
  pub intent_node : Option IntentNode
  pub auth_context : Option AuthContext
  pub payload : Fields

pub record TokenIssueRequest : Type 0 where
  pub agent_id : String
  pub delegated_user : String
  pub actor_type : ActorType
  pub capabilities : List String
  pub user_capabilities : List String
  pub ttl_seconds : ℕ

pub record RootTaskRequest : Type 0 where
  pub trace_id : Option String
  pub request_id : Option String
  pub target_agent_id : String
  pub task_type : String
  pub user_task : String
  pub requested_capabilities : List String
  pub payload : Fields

pub record AgentTaskResponse : Type 0 where
  pub agent_id : String
  pub trace_id : String
  pub task_type : String
  pub result : Fields
