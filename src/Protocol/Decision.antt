-- ===== src/Protocol/Decision.antt =====
-- app/protocol.py: `DelegationDecision`, and the `DecisionDetail` that the audit log keeps.
use bu_iam.Prelude.{String, Bool, false, Option, none, List, []}
use bu_iam.Protocol.{Verdict}

pub record DelegationDecision : Type 0 where
  pub decision : Verdict
  pub reason : String
  pub effective_capabilities : List String
  pub missing_capabilities : List String
  pub requested_capabilities : List String
  pub caller_token_capabilities : List String
  pub target_agent_capabilities : List String
  pub user_capabilities : List String
  pub missing_by : List (String × List String)
  pub intent_node_id : Option String
  pub parent_intent_node_id : Option String
  pub root_intent : Option String
  pub parent_intent : Option String
  pub child_intent : Option String
  pub intent_generation_model : Option String
  pub intent_judge_decision : Option String
  pub intent_judge_reason : Option String
  pub recoverable : Bool
  pub suggested_agents : List String

pub record DecisionDetail : Type 0 where
  pub requested_capabilities : List String
  pub caller_token_capabilities : List String
  pub target_agent_capabilities : List String
  pub user_capabilities : List String
  pub effective_capabilities : List String
  pub missing_capabilities : List String
  pub missing_by : List (String × List String)
  pub auth_event_recorded : Bool
  pub token_jti : Option String
  pub token_agent_id : Option String
  pub credential_id : Option String
  pub parent_credential_id : Option String
  pub root_credential_id : Option String
  pub intent_node_id : Option String
  pub parent_intent_node_id : Option String
  pub root_intent : Option String
  pub parent_intent : Option String
  pub child_intent : Option String
  pub intent_generation_model : Option String
  pub intent_judge_decision : Option String
  pub intent_judge_reason : Option String
  pub decision : Verdict
  pub reason : String
  pub recoverable : Bool
  pub suggested_agents : List String

-- The constructor's defaults: a decision with its reason and nothing else.
abbrev pub plain : Verdict → String → DelegationDecision
plain verdict reason = record {
  decision = verdict;
  reason = reason;
  effective_capabilities = [];
  missing_capabilities = [];
  requested_capabilities = [];
  caller_token_capabilities = [];
  target_agent_capabilities = [];
  user_capabilities = [];
  missing_by = [];
  intent_node_id = none;
  parent_intent_node_id = none;
  root_intent = none;
  parent_intent = none;
  child_intent = none;
  intent_generation_model = none;
  intent_judge_decision = none;
  intent_judge_reason = none;
  recoverable = false;
  suggested_agents = [];
}

unfoldable pub to_detail : DelegationDecision → DecisionDetail
to_detail d = record {
  requested_capabilities = d.requested_capabilities;
  caller_token_capabilities = d.caller_token_capabilities;
  target_agent_capabilities = d.target_agent_capabilities;
  user_capabilities = d.user_capabilities;
  effective_capabilities = d.effective_capabilities;
  missing_capabilities = d.missing_capabilities;
  missing_by = d.missing_by;
  auth_event_recorded = false;
  token_jti = none;
  token_agent_id = none;
  credential_id = none;
  parent_credential_id = none;
  root_credential_id = none;
  intent_node_id = d.intent_node_id;
  parent_intent_node_id = d.parent_intent_node_id;
  root_intent = d.root_intent;
  parent_intent = d.parent_intent;
  child_intent = d.child_intent;
  intent_generation_model = d.intent_generation_model;
  intent_judge_decision = d.intent_judge_decision;
  intent_judge_reason = d.intent_judge_reason;
  decision = d.decision;
  reason = d.reason;
  recoverable = d.recoverable;
  suggested_agents = d.suggested_agents;
}
