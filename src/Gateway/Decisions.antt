-- ===== src/Gateway/Decisions.antt =====
-- app/gateway/routes.py: the decisions that the gateway records for what it refuses, and the errors
-- that it raises.
use Prim.Native.String.{◌++◌}
use bu_iam.Prelude.{String, Bool, Option, none, some, List, ◌==◌, or_else, if◌then◌else◌}
use bu_iam.Prelude.Sets.{sorted}
use bu_iam.Prelude.Text.{has_text}
use bu_iam.Json.{bool, text, end, field}
use bu_iam.Protocol.{deny, IntentNode, DelegationEnvelope}
use bu_iam.Protocol.Decision.{DelegationDecision, plain}
use bu_iam.Protocol.Errors.{Exception, http_detail, http_exception, IntentValidationError}

abbrev node_id_of : Option IntentNode → Option String
node_id_of none = none
node_id_of (some node) = some node.node_id

abbrev parent_id_of : Option IntentNode → Option String
parent_id_of none = none
parent_id_of (some node) = node.parent_node_id

abbrev intent_of : Option IntentNode → Option String
intent_of none = none
intent_of (some node) = some node.intent_commitment.intent

-- `a or b` on optional texts
abbrev or_optional : Option String → Option String → Option String
or_optional none b = b
or_optional (some a) b = if a == "" then b else some a

unfoldable pub intent_error_decision :
    IntentValidationError → DelegationEnvelope → Option String → DelegationDecision
unfolding sorted
intent_error_decision x e model = record (plain deny (x.error_code ++ (": " ++ x.message))) {
  missing_capabilities = sorted e.requested_capabilities;
  requested_capabilities = sorted e.requested_capabilities;
  intent_node_id = node_id_of x.node;
  parent_intent_node_id = parent_id_of x.node;
  root_intent = x.root_intent;
  parent_intent = x.parent_intent;
  child_intent = or_optional x.child_intent (intent_of e.intent_node);
  intent_generation_model = model;
  intent_judge_decision = x.judge_decision;
  intent_judge_reason = some (or_else x.judge_reason x.message);
}

unfoldable pub intent_generation_error_decision : String → DelegationEnvelope → DelegationDecision
unfolding sorted
intent_generation_error_decision message e =
    record (plain deny ("INTENT_GENERATION_FAILED: " ++ message)) {
      missing_capabilities = sorted e.requested_capabilities;
      requested_capabilities = sorted e.requested_capabilities;
      intent_judge_decision = some "GenerationFailed";
      intent_judge_reason = some message;
    }

-- the refusal of a credential for the next agent
unfoldable pub credential_error_decision :
    String → String → List String → List String → Bool → DelegationDecision
credential_error_decision error_code message missing requested recoverable =
    record (plain deny (error_code ++ (": " ++ message))) {
      missing_capabilities = missing;
      requested_capabilities = requested;
      recoverable = recoverable;
    }

unfoldable pub credential_error_recoverable : String → Bool
unfolding has_text
credential_error_recoverable message = has_text "capabilities exceed" message

-- `http_error`, without and with `recoverable`
unfoldable pub http_error : String → String → Exception
http_error error_code message = http_exception 403 error_code message

unfoldable pub http_error_recoverable : String → String → Bool → Exception
http_error_recoverable error_code message recoverable = http_detail 403 (
    field "error_code" (text error_code)
      (field "message" (text message) (field "recoverable" (bool recoverable) end)))

unfoldable pub cancelled_decision : String → DelegationEnvelope → DelegationDecision
unfolding sorted
cancelled_decision reason e = record (plain deny ("TASK_CANCELLED/" ++ reason)) {
  missing_capabilities = sorted e.requested_capabilities;
  requested_capabilities = sorted e.requested_capabilities;
}
