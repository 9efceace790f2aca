-- ===== src/Gateway/Agent.antt =====
-- app/gateway/routes.py: `agent_task`. The steps up to the forwarding are `prepare_task`.
pub mod Steps
pub mod Permitted
pub mod Cleared
pub mod Refused
use Prim.Native.String.{◌++◌}
use bu_iam.Prelude.{
  String, Bool, true, false, not, Option, none, some, List, [], is_none, if◌then◌else◌,
}
use bu_iam.Prelude.Result.{Result, ok, err, or_raise}
use bu_iam.Prelude.Exec.{Exec, pure, raise, reads, modify, catching, require, ◌>>=◌, ◌>>◌}
use bu_iam.Json.{Json, text, obj, Fields, get, truth}
use bu_iam.Libs.{Libs, str}
use bu_iam.Protocol.{
  Verdict, deny, ActorType, user, agent, AuthContext, DelegationEnvelope, AgentTaskResponse,
  IntentNode,
}
use bu_iam.Protocol.Decision.{DelegationDecision, plain}
use bu_iam.Protocol.Errors.{
  Exception, http_exception, http_detail, credential_error, intent_error, generation_error,
  IntentValidationError, detail_of, Read,
}
use bu_iam.World.{World, Agent, Action}
use bu_iam.Store.Audit.{record_decision}
use bu_iam.Identity.Jwt.{TokenVerificationResult}
use bu_iam.Intent.Crypto.{build_signed_intent_node}
use bu_iam.Intent.Service.{
  Judge, Submission, IntentValidationResult, validate_and_record_intent_node,
}
use bu_iam.Delegation.Service.{authorize}
use bu_iam.Delegation.Service.Denied.{raise_for_denied}
use bu_iam.Delegation.Service.Child.{append_hop}
use bu_iam.Gateway.Bearer.{auth_failure_decision, get_active_agent, verify_bearer_for_envelope}
use bu_iam.Gateway.Context.{trusted_auth_context_for_envelope}
use bu_iam.Gateway.Server.{Server, Handler, on_world, Generate, GeneratedIntent, Generator, Outside}
use bu_iam.Gateway.Decisions.{
  intent_error_decision, intent_generation_error_decision, credential_error_decision,
  credential_error_recoverable, http_error, http_error_recoverable,
}
use bu_iam.Gateway.Checks.{
  refuse, task_context, require_agent, with_node, record_intent, with_intent,
}
use bu_iam.Gateway.Forward.{forward_to_agent}

unfoldable pub trusted_envelope : DelegationEnvelope → String → AuthContext → DelegationEnvelope
trusted_envelope e target_id a = record e {
  caller_agent_id = a.agent_id;
  target_agent_id = target_id;
  auth_context = some a;
}

-- What is sent to the target, and what is recorded if that fails.
pub record Prepared : Type 0 where
  pub endpoint : String
  pub trusted : DelegationEnvelope
  pub decision : DelegationDecision
  pub authorized : DelegationEnvelope

module _ (lib : Libs) where
  -- the decision, recorded; a denial is raised
  unfoldable pub decide_task :
      DelegationEnvelope → Option String → Option IntentValidationResult → Action DelegationDecision
  unfolding authorize with_intent record_decision raise_for_denied
  decide_task e model found = do
    decided ← reads (authorize lib e)
    modify (record_decision e (with_intent model found decided))
    reads (λ _. raise_for_denied (with_intent model found decided))
    pure (with_intent model found decided)

  -- `except CredentialValidationError`
  unfoldable pub refuse_hop :
      DelegationEnvelope → DelegationDecision → Exception → Action DelegationEnvelope
  unfolding refuse credential_error_decision credential_error_recoverable http_error_recoverable
  refuse_hop e d (credential_error error_code message) =
      refuse e
        (credential_error_decision error_code message d.effective_capabilities
          d.requested_capabilities (credential_error_recoverable message))
        (http_error_recoverable error_code message (credential_error_recoverable message))
  refuse_hop e d x = raise x

  unfoldable pub next_envelope : DelegationEnvelope → DelegationDecision → Action DelegationEnvelope
  unfolding append_hop refuse_hop
  next_envelope e d = catching (append_hop lib e d.effective_capabilities) (refuse_hop e d)

  -- from the trusted envelope on
  unfoldable pub prepare_trusted :
      Outside → String → DelegationEnvelope → AuthContext → Action Prepared
  unfolding require_agent with_node record_intent decide_task next_envelope
  prepare_trusted out endpoint e a = do
    require_agent lib e a.actor_type
    attached ← with_node lib out.generator e a e.intent_node
    found ← record_intent lib out.judge attached.0 a attached.1 attached.0.intent_node
    decision ← decide_task attached.0 attached.1 found
    authorized ← next_envelope attached.0 decision
    pure (record {
      endpoint = endpoint;
      trusted = attached.0;
      decision = decision;
      authorized = authorized;
    })

  unfoldable pub prepare_task :
      Outside → String → DelegationEnvelope → Option String → Action Prepared
  unfolding get_active_agent verify_bearer_for_envelope task_context trusted_envelope
      prepare_trusted
  prepare_task out target_id e authorization = do
    target ← get_active_agent target_id (some e)
    result ← verify_bearer_for_envelope lib e authorization
    bearer ← reads (λ _. or_raise result.auth_context (Exception.other "AttributeError"))
    a ← task_context lib e bearer
    prepare_trusted out target.endpoint (trusted_envelope e target_id a) a

  unfoldable pub failed_decision : DelegationDecision → Fields → DelegationDecision
  failed_decision d detail =
      record (plain deny
        (◌++◌ "target agent unreachable or returned error: " (lib.repr (obj detail)))) {
          effective_capabilities = d.effective_capabilities;
          requested_capabilities = d.requested_capabilities;
          caller_token_capabilities = d.caller_token_capabilities;
          target_agent_capabilities = d.target_agent_capabilities;
          user_capabilities = d.user_capabilities;
        }

  -- `except HTTPException`
  unfoldable pub refuse_forward : Prepared → Option Fields → Exception → Action AgentTaskResponse
  unfolding refuse failed_decision
  refuse_forward p none x = raise x
  refuse_forward p (some detail) x = refuse p.trusted (failed_decision p.decision detail) x

  unfoldable pub send_task : Outside → Prepared → Handler AgentTaskResponse
  unfolding forward_to_agent refuse_forward
  send_task out p =
      catching (forward_to_agent out p.endpoint p.authorized)
        (λ x. on_world (refuse_forward p (detail_of x) x))

  unfoldable pub agent_task :
      Outside → String → DelegationEnvelope → Option String → Handler AgentTaskResponse
  unfolding prepare_task send_task
  agent_task out target_id e authorization = do
    p ← on_world (prepare_task out target_id e authorization)
    send_task out p
