-- ===== src/Gateway/Root.antt =====
-- app/gateway/routes.py: `root_task`, a user's task. Its uuids are parameters.
pub mod Steps
pub mod Cleared
pub mod Refused
use bu_iam.Prelude.{String, Option, none, some, List, [], ◌∷◌, or_else, or_list}
use bu_iam.Prelude.Result.{ok, err, or_raise}
use bu_iam.Prelude.Exec.{pure, raise, reads, modify, catching, ◌>>=◌, ◌>>◌}
use bu_iam.Json.{text, Fields, put}
use bu_iam.Libs.{Libs}
use bu_iam.Protocol.{
  Verdict, allow, root, ActorType, user, agent, AuthContext, DelegationHop, DelegationEnvelope,
  RootTaskRequest, AgentTaskResponse, IntentNode,
}
use bu_iam.Protocol.Decision.{DelegationDecision, plain}
use bu_iam.Protocol.Errors.{Exception, http_exception, credential_error, generation_error}
use bu_iam.World.{World, Action}
use bu_iam.Store.Audit.{record_decision}
use bu_iam.Intent.Crypto.{build_signed_intent_node}
use bu_iam.Intent.Service.{Submission, IntentValidationResult}
use bu_iam.Delegation.Service.Child.{ChildRequest, build_child_auth_context}
use bu_iam.Gateway.Bearer.{auth_failure_decision, get_active_agent, verify_bearer_for_envelope}
use bu_iam.Gateway.Server.{Handler, on_world, Generate, GeneratedIntent, Generator, Outside}
use bu_iam.Gateway.Decisions.{
  intent_generation_error_decision, credential_error_decision, credential_error_recoverable,
  http_error_recoverable,
}
use bu_iam.Gateway.Forward.{forward_to_agent}
use bu_iam.Gateway.Checks.{refuse, refuse_intent, run_validation}

-- the values of `uuid4()`: the last two are those of `generate_root_intent`
pub record Uuids : Type 0 where
  pub trace : String
  pub request : String
  pub lost_trace : String
  pub lost_request : String

-- {**request.payload, "user_task": request.user_task}
unfoldable pub task_payload : RootTaskRequest → Fields
unfolding put
task_payload r = put "user_task" (text r.user_task) r.payload

unfoldable pub provisional : Uuids → RootTaskRequest → DelegationEnvelope
unfolding task_payload
provisional u r = record {
  protocol_version = "buiam.delegation.v1";
  trace_id = or_else r.trace_id u.trace;
  request_id = or_else r.request_id u.request;
  caller_agent_id = "user";
  target_agent_id = r.target_agent_id;
  task_type = r.task_type;
  requested_capabilities = r.requested_capabilities;
  delegation_chain = [];
  intent_node = none;
  auth_context = none;
  payload = task_payload r;
}

abbrev pub needs_user_token : String
needs_user_token = "root task requires a user token"

unfoldable pub require_user : DelegationEnvelope → ActorType → Action (Unit {0})
unfolding refuse auth_failure_decision
require_user e user = pure tt
require_user e agent =
    refuse e (auth_failure_decision "AUTH_ACTOR_TYPE_INVALID" needs_user_token e)
      (http_exception 403 "AUTH_ACTOR_TYPE_INVALID" needs_user_token)

-- auth_context.delegated_user or auth_context.agent_id
abbrev pub root_actor : AuthContext → String
root_actor a = or_else a.delegated_user a.agent_id

-- the envelope that a failed generation is recorded with
unfoldable pub lost_envelope : Uuids → RootTaskRequest → AuthContext → DelegationEnvelope
unfolding provisional
lost_envelope u r a = record (provisional u r) {
  trace_id = or_else r.trace_id u.lost_trace;
  request_id = or_else r.request_id u.lost_request;
  caller_agent_id = a.agent_id;
  auth_context = some a;
}

unfoldable pub refuse_root_generation :
    Uuids → RootTaskRequest → AuthContext → Exception → Action GeneratedIntent
unfolding refuse intent_generation_error_decision lost_envelope
refuse_root_generation u r a (generation_error message) =
    refuse (lost_envelope u r a) (intent_generation_error_decision message (lost_envelope u r a))
      (http_exception 403 "INTENT_GENERATION_FAILED" message)
refuse_root_generation u r a x = raise x

unfoldable pub generate_root_intent :
    Generator → Uuids → RootTaskRequest → AuthContext → Action GeneratedIntent
unfolding refuse_root_generation
generate_root_intent generator u r a =
    catching
      (reads (λ _. generator (record {
        user_task = r.user_task;
        actor_id = root_actor a;
        actor_type = user;
        target_agent_id = r.target_agent_id;
        task_type = r.task_type;
        payload = r.payload;
      })))
      (refuse_root_generation u r a)

unfoldable pub root_hop : RootTaskRequest → AuthContext → DelegationHop
root_hop r a = record {
  from_actor = root_actor a;
  to_agent_id = r.target_agent_id;
  task_type = r.task_type;
  delegated_capabilities = r.requested_capabilities;
  missing_capabilities = [];
  decision = root;
}

-- the `trusted` envelope, made of the provisional one
unfoldable pub root_envelope :
    DelegationEnvelope → RootTaskRequest → AuthContext → IntentNode → DelegationEnvelope
unfolding root_hop
root_envelope e r a node = record e {
  caller_agent_id = a.agent_id;
  auth_context = some a;
  delegation_chain = root_hop r a ∷ [];
  intent_node = some node;
}

unfoldable pub root_child : DelegationEnvelope → RootTaskRequest → AuthContext → ChildRequest
root_child e r a = record {
  issuer_id = a.agent_id;
  subject_id = r.target_agent_id;
  capabilities = r.requested_capabilities;
  trace_id = e.trace_id;
  request_id = e.request_id;
}

unfoldable pub root_decision :
    RootTaskRequest
    → AuthContext
    → IntentNode
    → String
    → IntentValidationResult
    → DelegationDecision
root_decision r a node model found = record (plain allow "root user task accepted") {
  effective_capabilities = r.requested_capabilities;
  requested_capabilities = r.requested_capabilities;
  caller_token_capabilities = a.capabilities;
  user_capabilities = or_list a.user_capabilities a.capabilities;
  intent_node_id = some node.node_id;
  root_intent = some found.root_intent;
  parent_intent = some found.parent_intent;
  child_intent = some found.child_intent;
  intent_generation_model = some model;
  intent_judge_decision = some found.judge_decision;
  intent_judge_reason = some found.judge_reason;
}

-- `except CredentialValidationError`
unfoldable pub refuse_root_child :
    DelegationEnvelope → RootTaskRequest → Exception → Action AuthContext
unfolding refuse credential_error_decision credential_error_recoverable http_error_recoverable
refuse_root_child e r (credential_error error_code message) =
    refuse e
      (credential_error_decision error_code message r.requested_capabilities
        r.requested_capabilities (credential_error_recoverable message))
      (http_error_recoverable error_code message (credential_error_recoverable message))
refuse_root_child e r x = raise x

-- What is sent to the target.
pub record RootPrepared : Type 0 where
  pub endpoint : String
  pub trusted : DelegationEnvelope
  pub forwarded : DelegationEnvelope

module _ (lib : Libs) (out : Outside) where
  unfoldable pub check_root_node :
      DelegationEnvelope → AuthContext → IntentNode → String → Action IntentValidationResult
  unfolding run_validation refuse_intent
  check_root_node e a node model =
      catching
        (run_validation lib out.judge (record {
          node = node;
          trace_id = e.trace_id;
          request_id = e.request_id;
          auth_context = a;
        }))
        (refuse_intent lib e (some model))

  -- from the signed root node on
  unfoldable pub prepare_root_node :
      String
      → DelegationEnvelope
      → RootTaskRequest
      → AuthContext
      → IntentNode
      → String
      → Action RootPrepared
  unfolding check_root_node root_child build_child_auth_context refuse_root_child root_decision
      record_decision
  prepare_root_node endpoint e r a node model = do
    found ← check_root_node e a node model
    next ← catching (build_child_auth_context lib a (root_child e r a)) (refuse_root_child e r)
    modify (record_decision e (root_decision r a node model found))
    pure (record {
      endpoint = endpoint;
      trusted = e;
      forwarded = record e { caller_agent_id = r.target_agent_id; auth_context = some next };
    })

  -- from the generation of the root intent on
  unfoldable pub prepare_generated :
      String → Uuids → RootTaskRequest → AuthContext → Action RootPrepared
  unfolding provisional generate_root_intent build_signed_intent_node root_envelope
      prepare_root_node
  prepare_generated endpoint u r a = do
    generated ← generate_root_intent out.generator u r a
    node ← reads (
        build_signed_intent_node lib none (root_actor a) user r.target_agent_id r.task_type
          generated.commitment)
    prepare_root_node endpoint (root_envelope (provisional u r) r a node) r a node generated.model

  unfoldable pub prepare_root : Uuids → RootTaskRequest → Option String → Action RootPrepared
  unfolding provisional verify_bearer_for_envelope require_user get_active_agent prepare_generated
  prepare_root u r authorization = do
    let e = provisional u r
    result ← verify_bearer_for_envelope lib e authorization
    a ← reads (λ _. or_raise result.auth_context (Exception.other "AttributeError"))
    require_user e a.actor_type
    target ← get_active_agent r.target_agent_id (some e)
    prepare_generated target.endpoint u r a

  unfoldable pub root_task : Uuids → RootTaskRequest → Option String → Handler AgentTaskResponse
  unfolding prepare_root forward_to_agent
  root_task u r authorization = do
    p ← on_world (prepare_root u r authorization)
    forward_to_agent out p.endpoint p.forwarded
