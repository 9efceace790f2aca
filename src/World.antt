-- ===== src/World.antt =====
-- app/store/schema.py: the tables, each a list of rows in the order of their row ids, and the
-- clock. A row's JSON columns hold the lists that the code dumps and loads.
use bu_iam.Prelude.{ℕ, String, Bool, Option, List, []}
use bu_iam.Prelude.Exec.{Exec}
use bu_iam.Json.{Fields}
use bu_iam.Libs.{ℤ}
use bu_iam.Protocol.{Verdict, ActorType, DelegationHop, IntentNode, DelegationCredential}
use bu_iam.Protocol.Decision.{DecisionDetail}
use bu_iam.Protocol.Errors.{Exception}

pub record Agent : Type 0 where
  pub agent_id : String
  pub name : String
  pub agent_type : String
  pub description : String
  pub owner_org : String
  pub allowed_resource_domains : List String
  pub status : String
  pub endpoint : String
  pub static_capabilities : List String
  pub created_at : ℕ
  pub updated_at : ℕ
  pub last_seen_at : Option ℕ

pub record StoredToken : Type 0 where
  pub jti : String
  pub sub : String
  pub agent_id : String
  pub actor_type : ActorType
  pub delegated_user : String
  pub capabilities : List String
  pub user_capabilities : List String
  pub exp : ℕ
  pub revoked : Bool
  pub credential_id : Option String

pub record JtiRow : Type 0 where
  pub jti : String
  pub first_seen_at : ℕ

pub record ChainRow : Type 0 where
  pub trace_id : String
  pub request_id : String
  pub step_index : ℕ
  pub hop : DelegationHop
  pub created_at : ℕ

pub record AuditRow : Type 0 where
  pub trace_id : String
  pub request_id : String
  pub caller_agent_id : String
  pub target_agent_id : String
  pub requested_capabilities : List String
  pub effective_capabilities : List String
  pub decision : Verdict
  pub reason : String
  pub delegation_chain : List DelegationHop
  pub decision_detail : DecisionDetail
  pub created_at : ℕ

pub record AuthEventRow : Type 0 where
  pub trace_id : String
  pub request_id : String
  pub caller_agent_id : Option String
  pub claimed_agent_id : Option String
  pub token_jti : Option String
  pub token_sub : Option String
  pub token_agent_id : Option String
  pub delegated_user : Option String
  pub token_fingerprint : Option String
  pub token_issued_at : Option ℤ
  pub token_expires_at : Option ℤ
  pub verified_at : ℕ
  pub is_expired : Option Bool
  pub is_revoked : Option Bool
  pub is_jti_registered : Option Bool
  pub signature_valid : Option Bool
  pub issuer_valid : Option Bool
  pub audience_valid : Option Bool
  pub identity_decision : Verdict
  pub error_code : Option String
  pub reason : String
  pub created_at : ℕ

pub record IntentRow : Type 0 where
  pub node : IntentNode
  pub root_node_id : String
  pub trace_id : String
  pub request_id : String
  pub content_hash : String
  pub judge_decision : Option String
  pub judge_reason : Option String
  pub created_at : ℕ

pub record DidRow : Type 0 where
  pub did : String
  pub subject_id : String
  pub document : Fields

pub record CapabilityRow : Type 0 where
  pub name : String
  pub description : String

pub record PolicyRow : Type 0 where
  pub subject_type : String
  pub agent_type : String
  pub allowed_capabilities : List String

pub record World : Type 0 where
  pub clock : ℕ
  pub agents : List Agent
  pub tokens : List StoredToken
  pub jti_seen : List JtiRow
  pub credentials : List DelegationCredential
  pub chain : List ChainRow
  pub audit_logs : List AuditRow
  pub auth_events : List AuthEventRow
  pub intent_tree : List IntentRow
  pub did_documents : List DidRow
  pub capabilities : List CapabilityRow
  pub policies : List PolicyRow

-- A method: it reads and writes the tables, and may raise.
abbrev pub Action : Type 0 → Type 0
Action = Exec Exception World

abbrev pub empty_world : World
empty_world = record {
  clock = 0;
  agents = [];
  tokens = [];
  jti_seen = [];
  credentials = [];
  chain = [];
  audit_logs = [];
  auth_events = [];
  intent_tree = [];
  did_documents = [];
  capabilities = [];
  policies = [];
}
