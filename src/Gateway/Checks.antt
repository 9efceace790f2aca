-- ===== src/Gateway/Checks.antt =====
-- app/gateway/routes.py: the steps of a task that record what they refuse, up to the intent check.
use bu_iam.Prelude.{String, Option, none, some, if◌then◌else◌}
use bu_iam.Prelude.Result.{err}
use bu_iam.Prelude.Exec.{pure, raise, reads, catching, ◌>>=◌}
use bu_iam.Json.{Json, Fields, get, truth}
use bu_iam.Libs.{Libs, str}
use bu_iam.Protocol.{ActorType, user, agent, AuthContext, DelegationEnvelope, IntentNode}
use bu_iam.Protocol.Decision.{DelegationDecision}
use bu_iam.Protocol.Errors.{
  Exception, http_exception, intent_error, generation_error, detail_of, Read,
}
use bu_iam.World.{World, Action}
use bu_iam.Store.Audit.{record_decision}
use bu_iam.Intent.Crypto.{build_signed_intent_node}
use bu_iam.Intent.Service.{
  Judge, Submission, IntentValidationResult, validate_and_record_intent_node,
}
use bu_iam.Gateway.Bearer.{auth_failure_decision}
use bu_iam.Gateway.Context.{trusted_auth_context_for_envelope}
use bu_iam.Gateway.Server.{GeneratedIntent, Generator}
use bu_iam.Gateway.Decisions.{intent_error_decision, intent_generation_error_decision, http_error}

-- record a decision of the request, then raise
unfoldable pub refuse :
    {A : Type 0} → DelegationEnvelope → DelegationDecision → Exception → Action A
unfolding record_decision
refuse e d x w = (err x, record_decision e d w)

-- the code and the message of a detail, with the defaults of the handler
abbrev pub detail_text : Libs → String → String → Fields → String
detail_text lib key default detail = elim (get key detail) [ none ↦ default | some v ↦ str lib v ]

-- The walk to the root ends (Intent.Branch.Walk), so there is a result.
unfoldable pub come_back :
    Option (Read IntentValidationResult × World) → Action IntentValidationResult
come_back none w = (err (Exception.other "endless walk"), w)
come_back (some out) w = out

module _ (lib : Libs) where
  unfoldable pub refuse_context :
      DelegationEnvelope → Option Fields → Exception → Action AuthContext
  unfolding refuse auth_failure_decision get
  refuse_context e none x = raise x
  refuse_context e (some detail) x =
      refuse e
        (auth_failure_decision (detail_text lib "error_code" "AUTH_CREDENTIAL_INVALID" detail)
          (detail_text lib "message" "credential identity validation failed" detail) e)
        x

  unfoldable pub task_context : DelegationEnvelope → AuthContext → Action AuthContext
  unfolding trusted_auth_context_for_envelope refuse_context
  task_context e bearer =
      catching (reads (trusted_auth_context_for_envelope lib e bearer))
        (λ x. refuse_context e (detail_of x) x)

  abbrev pub needs_agent_token : String
  needs_agent_token = "agent-to-agent task requires an agent bearer token"

  unfoldable pub require_agent : DelegationEnvelope → ActorType → Action (Unit {0})
  unfolding refuse auth_failure_decision
  require_agent e agent = pure tt
  require_agent e user =
      refuse e (auth_failure_decision "AUTH_ACTOR_TYPE_INVALID" needs_agent_token e)
        (http_exception 403 "AUTH_ACTOR_TYPE_INVALID" needs_agent_token)

  -- `except IntentGenerationError`
  unfoldable pub refuse_generation : DelegationEnvelope → Exception → Action GeneratedIntent
  unfolding refuse intent_generation_error_decision
  refuse_generation e (generation_error message) =
      refuse e (intent_generation_error_decision message e)
        (http_exception 403 "INTENT_GENERATION_FAILED" message)
  refuse_generation e x = raise x

  -- str(parent_node_id) if parent_node_id else None
  abbrev pub parent_node_of : Option Json → Option String
  unfolding truth
  parent_node_of none = none
  parent_node_of (some v) = if truth v then some (str lib v) else none

  unfoldable pub attach_generated_intent_node :
      Generator → DelegationEnvelope → AuthContext → String → Action (DelegationEnvelope × String)
  unfolding get refuse_generation build_signed_intent_node
  attach_generated_intent_node generator e a user_task = do
    generated ←
        catching
          (reads (λ _. generator (record {
            user_task = user_task;
            actor_id = a.agent_id;
            actor_type = agent;
            target_agent_id = e.target_agent_id;
            task_type = e.task_type;
            payload = e.payload;
          })))
          (refuse_generation e)
    node ← reads (
        build_signed_intent_node lib (parent_node_of (get "parent_intent_node_id" e.payload))
          a.agent_id agent e.target_agent_id e.task_type generated.commitment)
    pure (record e { intent_node = some node }, generated.model)

  abbrev pub user_task_of : DelegationEnvelope → String
  unfolding get
  user_task_of e = elim (get "user_task" e.payload) [ none ↦ e.task_type | some v ↦ str lib v ]

  -- the envelope with its node, and the model that made it
  unfoldable pub with_node :
      Generator
      → DelegationEnvelope
      → AuthContext
      → Option IntentNode
      → Action (DelegationEnvelope × Option String)
  unfolding attach_generated_intent_node
  with_node generator e a (some node) = pure (e, none)
  with_node generator e a none = do
    attached ← attach_generated_intent_node generator e a (user_task_of e)
    pure (attached.0, some attached.1)

  -- `except IntentValidationError`
  unfoldable pub refuse_intent :
      {A : Type 0} → DelegationEnvelope → Option String → Exception → Action A
  unfolding refuse intent_error_decision http_error
  refuse_intent e model (intent_error x) =
      refuse e (intent_error_decision x e model) (http_error x.error_code x.message)
  refuse_intent e model x = raise x

  unfoldable pub run_validation : Judge → Submission → Action IntentValidationResult
  unfolding validate_and_record_intent_node come_back
  run_validation judge s w = come_back (validate_and_record_intent_node lib judge s w) w

  unfoldable pub record_intent :
      Judge
      → DelegationEnvelope
      → AuthContext
      → Option String
      → Option IntentNode
      → Action (Option IntentValidationResult)
  unfolding run_validation refuse_intent
  record_intent judge e a model none = pure none
  record_intent judge e a model (some node) = do
    found ←
        catching
          (run_validation judge (record {
            node = node;
            trace_id = e.trace_id;
            request_id = e.request_id;
            auth_context = a;
          }))
          (refuse_intent e model)
    pure (some found)

-- the fields that the intent check adds to a decision
unfoldable pub with_intent :
    Option String → Option IntentValidationResult → DelegationDecision → DelegationDecision
with_intent model none d = d
with_intent model (some r) d = record d {
  intent_node_id = some r.node.node_id;
  parent_intent_node_id = r.node.parent_node_id;
  root_intent = some r.root_intent;
  parent_intent = some r.parent_intent;
  child_intent = some r.child_intent;
  intent_generation_model = model;
  intent_judge_decision = some r.judge_decision;
  intent_judge_reason = some r.judge_reason;
}
