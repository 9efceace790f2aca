-- ===== src/Gateway/Agent/Refused.antt =====
-- What `agent_task` (app/gateway/routes.py) refuses is in the audit log.
pub mod Whole
pub mod Models
use bu_iam.Prelude.{
  ℕ, String, ◌≡◌, refl, sym, ap, ◌∙◌, subst, Bool, true, false, Option, none, some, List, inl, inr,
  ◌==◌, Bool-cases, Option-cases, if◌then◌else◌, or_else,
}
use bu_iam.Prelude.Result.{Result, ok, err, or_raise}
use bu_iam.Prelude.Exec.{pair-eta, bind-step, pure-ok, continue, handle}
use bu_iam.Json.{Fields}
use bu_iam.Libs.{Libs}
use bu_iam.Protocol.{
  Verdict, deny, ActorType, user, agent, AuthContext, DelegationEnvelope, IntentNode,
}
use bu_iam.Protocol.Decision.{DelegationDecision}
use bu_iam.Protocol.Errors.{
  Exception, http_exception, credential_error, intent_error, generation_error, detail_of, Read,
}
use bu_iam.Protocol.Errors.Internal.{
  IsInternal, IsInternal-no_detail, or_raise-IsInternal, continue-IsInternal,
}
use bu_iam.World.{World, Agent}
use bu_iam.Store.Agents.{get_agent}
use bu_iam.Store.Audit.{record_decision}
use bu_iam.Identity.Jwt.{TokenVerificationResult, inspect_token}
use bu_iam.Identity.Jwt.Internal.{inspect_token-IsInternal}
use bu_iam.Intent.Service.{
  Judge, JudgeRequest, Submission, IntentValidationResult, validate_and_record_intent_node,
}
use bu_iam.Intent.Service.Internal.{
  build_signed-IsInternal, Checked, ChecksInternal, endless, checks,
  validate_and_record-ChecksInternal,
}
use bu_iam.Delegation.Service.{authorize}
use bu_iam.Delegation.Service.Denied.{is_deny, raise_for_denied}
use bu_iam.Delegation.Service.Internal.{authorize-IsInternal, child-IsInternal}
use bu_iam.Delegation.Service.Child.{append_hop, append_hop_with, hop_request}
use bu_iam.Gateway.Bearer.{
  auth_failure_decision, check_active, get_active_agent, bearer_token, lowers_to, refuse_header,
  require_context, check_inspected, verify_bearer, verify_bearer_for_envelope, record_token_result,
}
use bu_iam.Gateway.Server.{Generate, GeneratedIntent, Generator, Outside}
use bu_iam.Gateway.Decisions.{
  intent_error_decision, intent_generation_error_decision, credential_error_decision,
}
use bu_iam.Gateway.Audited.{
  DeniedLast, record_decision-DeniedLast, IsAudited, returns, inner, recorded, internal-IsAudited,
  continue-IsAudited, handle-IsAudited, if-IsAudited, elim-IsAudited, IsAudited-row,
}
use bu_iam.Gateway.Checks.{
  refuse, refuse_context, task_context, require_agent, refuse_generation,
  attach_generated_intent_node, with_node, refuse_intent, come_back, run_validation, record_intent,
  with_intent,
}
use bu_iam.Gateway.Agent.{
  Prepared, decide_task, refuse_hop, next_envelope, prepare_trusted, prepare_task, trusted_envelope,
  failed_decision,
}
use bu_iam.Gateway.Agent.Steps.{submission, with_node-ok}
use bu_iam.Gateway.Bearer.Audited.{
  whole, Audited, row-Audited, move-Audited, check_active-Audited, bearer_token-IsHeader,
  verify_bearer-Audited,
}

-- What the models raise is no `HTTPException`.
pub record ModelsInternal (out : Outside) : Type 0 where
  pub generates : (g : Generate) → IsInternal (out.generator g)
  pub judges : (q : JudgeRequest) → IsInternal (out.judge q)

refuse_context-Audited :
    (lib : Libs) (e : DelegationEnvelope) (x : Exception) (o : Option Fields) (w : World)
    → detail_of x ≡ o
    → Audited e (refuse_context lib e o x w)
unfolding refuse_context refuse auth_failure_decision
refuse_context-Audited lib e x none w told = inner x w told
refuse_context-Audited lib e x (some detail) w told = row-Audited e _ _ _ refl

task_context-Audited :
    (lib : Libs) (e : DelegationEnvelope) (bearer : AuthContext) (w : World)
    → Audited e (task_context lib e bearer w)
unfolding task_context
task_context-Audited lib e bearer w =
    handle-IsAudited _ _ w (λ x raised. refuse_context-Audited lib e x (detail_of x) w refl)

require_agent-Audited :
    (lib : Libs) (e : DelegationEnvelope) (t : ActorType) (w : World)
    → Audited e (require_agent lib e t w)
unfolding require_agent refuse auth_failure_decision
require_agent-Audited lib e agent w = returns tt w
require_agent-Audited lib e user w = row-Audited e _ _ _ refl

-- what an inner part raises, under a handler for one kind of exception
raised-inner :
    {A : Type 0} {r : Read A} (x : Exception) → IsInternal r → r ≡ err x → detail_of x ≡ none
raised-inner x inside raised = IsInternal-no_detail x inside raised

refuse_generation-Audited :
    (lib : Libs) (e : DelegationEnvelope) (x : Exception) (w : World)
    → detail_of x ≡ none
    → Audited e (refuse_generation lib e x w)
unfolding refuse_generation refuse intent_generation_error_decision
refuse_generation-Audited lib e (generation_error message) w h = row-Audited e _ _ _ refl
refuse_generation-Audited lib e x w h = inner x w h

attach-Audited :
    (lib : Libs) (out : Outside) (e : DelegationEnvelope) (a : AuthContext) (task : String)
    (w : World)
    → ModelsInternal out
    → Audited e (attach_generated_intent_node lib out.generator e a task w)
unfolding attach_generated_intent_node
attach-Audited lib out e a task w models =
    continue-IsAudited _ _ _
      (handle-IsAudited _ _ w (λ x raised.
        refuse_generation-Audited lib e x w (IsInternal-no_detail x (models.generates _) raised)))
      (λ g asked.
        continue-IsAudited _ _ _
          (internal-IsAudited _ _ (build_signed-IsInternal lib _ _ _ _ _ _ _))
          (λ node signed. returns _ _))

with_node-Audited :
    (lib : Libs) (out : Outside) (e : DelegationEnvelope) (a : AuthContext) (o : Option IntentNode)
    (w : World)
    → ModelsInternal out
    → Audited e (with_node lib out.generator e a o w)
unfolding with_node
with_node-Audited lib out e a (some node) w models = returns _ w
with_node-Audited lib out e a none w models =
    continue-IsAudited _ _ _ (attach-Audited lib out e a _ w models) (λ attached made. returns _ _)

pub refuse_intent-Audited :
    {A : Type 0} (lib : Libs) (e : DelegationEnvelope) (model : Option String) (x : Exception)
    (w : World)
    → detail_of x ≡ none
    → Audited e (refuse_intent lib {A = A} e model x w)
unfolding refuse_intent refuse intent_error_decision
refuse_intent-Audited lib e model (intent_error x) w h = row-Audited e _ _ _ refl
refuse_intent-Audited lib e model x w h = inner x w h

pub come_back-IsInternal :
    (o : Checked) (w : World) → ChecksInternal o → IsInternal (come_back o w).0
unfolding come_back
come_back-IsInternal o w endless = IsInternal.raises _ refl
come_back-IsInternal o w (checks r w' inside) = inside

record_intent-Audited :
    (lib : Libs) (out : Outside) (e : DelegationEnvelope) (a : AuthContext) (model : Option String)
    (o : Option IntentNode) (w : World)
    → ModelsInternal out
    → Audited e (record_intent lib out.judge e a model o w)
unfolding record_intent run_validation submission
record_intent-Audited lib out e a model none w models = returns none w
record_intent-Audited lib out e a model (some node) w models =
    continue-IsAudited _ _ _
      (handle-IsAudited _ _ _ (λ x raised. refuse_intent-Audited lib e model x _ (
        IsInternal-no_detail x
          (come_back-IsInternal _ w (
            validate_and_record-ChecksInternal lib out.judge models.judges (submission e a node) w))
          raised)))
      (λ found checked. returns _ _)

is_deny→deny : (v : Verdict) → is_deny v ≡ true → v ≡ deny
is_deny→deny deny h = refl
is_deny→deny v h = cc h

raise_for_denied-Audited :
    (e : DelegationEnvelope) (d : DelegationDecision) (w : World)
    → IsAudited whole e.trace_id e.request_id (raise_for_denied d) (record_decision e d w)
unfolding raise_for_denied
raise_for_denied-Audited e d w = elim (Bool-cases (is_deny d.decision)) [
  | inl denied ↦ simp (denied) (row-Audited e _ d w (is_deny→deny d.decision denied))
  | inr free ↦ simp (free) (returns tt _)
]

decide_task-Audited :
    (lib : Libs) (e : DelegationEnvelope) (model : Option String)
    (found : Option IntentValidationResult) (w : World)
    → Audited e (decide_task lib e model found w)
unfolding decide_task
decide_task-Audited lib e model found w =
    continue-IsAudited _ _ _ (internal-IsAudited _ w (authorize-IsInternal lib e w))
      (λ decided authorized. continue-IsAudited _ _ _ (returns tt _) (λ u recorded_it.
        continue-IsAudited _ _ _ (raise_for_denied-Audited e (with_intent model found decided) w)
          (λ v passed. returns _ _)))

refuse_hop-Audited :
    (lib : Libs) (e : DelegationEnvelope) (d : DelegationDecision) (x : Exception) (w : World)
    → detail_of x ≡ none
    → Audited e (refuse_hop lib e d x w)
unfolding refuse_hop refuse credential_error_decision
refuse_hop-Audited lib e d (credential_error code message) w h = row-Audited e _ _ _ refl
refuse_hop-Audited lib e d x w h = inner x w h

append_hop-IsInternal :
    (lib : Libs) (e : DelegationEnvelope) (effective : List String) (o : Option AuthContext)
    (w : World)
    → IsInternal (append_hop_with lib e effective o w).0
unfolding append_hop_with continue
append_hop-IsInternal lib e effective none w = IsInternal.raises _ refl
append_hop-IsInternal lib e effective (some a) w =
    continue-IsInternal _ _ _ (child-IsInternal lib a (hop_request e effective) w)
      (λ next. IsInternal.returns _)

next_envelope-Audited :
    (lib : Libs) (e : DelegationEnvelope) (d : DelegationDecision) (w : World)
    → Audited e (next_envelope lib e d w)
unfolding next_envelope append_hop
next_envelope-Audited lib e d w = handle-IsAudited _ _ _ (λ x raised.
    refuse_hop-Audited lib e d x _ (
      IsInternal-no_detail x (append_hop-IsInternal lib e d.effective_capabilities e.auth_context w)
        raised))

prepare_trusted-Audited :
    (lib : Libs) (out : Outside) (endpoint : String) (e : DelegationEnvelope) (a : AuthContext)
    (w : World)
    → ModelsInternal out
    → Audited e (prepare_trusted lib out endpoint e a w)
unfolding prepare_trusted
prepare_trusted-Audited lib out endpoint e a w models =
    continue-IsAudited _ _ _ (require_agent-Audited lib e a.actor_type w) (λ u actor.
      continue-IsAudited _ _ _ (with_node-Audited lib out e a e.intent_node _ models)
        (λ attached made.
          let (node, same, kept) =
            with_node-ok lib out.generator e a e.intent_node _ _ attached refl (pair-eta _ made) in
          move-Audited e attached.0 _ (ap (λ (x : DelegationEnvelope). x.trace_id) same)
            (ap (λ (x : DelegationEnvelope). x.request_id) same)
            (continue-IsAudited _ _ _
              (record_intent-Audited lib out attached.0 a attached.1 attached.0.intent_node _
                models)
              (λ found checked.
                continue-IsAudited _ _ _ (decide_task-Audited lib attached.0 attached.1 found _)
                  (λ d decided.
                    continue-IsAudited _ _ _ (next_envelope-Audited lib attached.0 d _)
                      (λ e' appended. returns _ _))))))

pub prepare_task-Audited :
    (lib : Libs) (out : Outside) (target_id : String) (e : DelegationEnvelope)
    (authorization : Option String) (w : World)
    → ModelsInternal out
    → Audited e (prepare_task lib out target_id e authorization w)
unfolding prepare_task get_active_agent verify_bearer_for_envelope trusted_envelope
prepare_task-Audited lib out target_id e authorization w models =
    continue-IsAudited _ _ _ (check_active-Audited target_id e (get_agent target_id w) w)
      (λ target found.
        continue-IsAudited _ _ _
          (verify_bearer-Audited lib e authorization (bearer_token authorization) _
            (bearer_token-IsHeader authorization))
          (λ result verified.
            continue-IsAudited _ _ _
              (internal-IsAudited _ _ (or_raise-IsInternal result.auth_context _ refl))
              (λ bearer is_bearer.
                continue-IsAudited _ _ _ (task_context-Audited lib e bearer _) (λ a chosen.
                  prepare_trusted-Audited lib out target.endpoint (trusted_envelope e target_id a) a
                    _ models))))
