-- ===== src/Gateway/Root/Refused.antt =====
-- What `root_task` (app/gateway/routes.py) refuses before it forwards is in the audit log.
use bu_iam.Prelude.{
  String, ◌≡◌, refl, ap, sym, subst, ◌∙◌, Option, none, some, false, or_else, ◌==◌,
}
use bu_iam.Prelude.Result.{err}
use bu_iam.Json.{Fields}
use bu_iam.Libs.{Libs}
use bu_iam.Protocol.{
  ActorType, user, agent, AuthContext, DelegationEnvelope, IntentNode, RootTaskRequest,
}
use bu_iam.Protocol.Errors.{Exception, credential_error, generation_error, detail_of}
use bu_iam.Protocol.Errors.Internal.{IsInternal-no_detail, or_raise-IsInternal}
use bu_iam.World.{World}
use bu_iam.Store.Agents.{get_agent}
use bu_iam.Intent.Service.Internal.{build_signed-IsInternal, validate_and_record-ChecksInternal}
use bu_iam.Delegation.Service.Internal.{child-IsInternal}
use bu_iam.Gateway.Bearer.{
  auth_failure_decision, get_active_agent, bearer_token, verify_bearer_for_envelope,
}
use bu_iam.Gateway.Bearer.Audited.{
  Audited, row-Audited, move-Audited, check_active-Audited, bearer_token-IsHeader,
  verify_bearer-Audited,
}
use bu_iam.Gateway.Server.{Outside}
use bu_iam.Gateway.Decisions.{intent_generation_error_decision, credential_error_decision}
use bu_iam.Gateway.Audited.{
  DeniedLast, returns, inner, internal-IsAudited, continue-IsAudited, handle-IsAudited,
  IsAudited-row,
}
use bu_iam.Gateway.Checks.{refuse, run_validation}
use bu_iam.Gateway.Agent.Steps.{submission}
use bu_iam.Gateway.Agent.Refused.{ModelsInternal, refuse_intent-Audited, come_back-IsInternal}
use bu_iam.Gateway.Root.{
  Uuids, provisional, require_user, lost_envelope, refuse_root_generation, generate_root_intent,
  root_envelope, root_child, refuse_root_child, check_root_node, prepare_root_node,
  prepare_generated, prepare_root,
}

require_user-Audited :
    (e : DelegationEnvelope) (t : ActorType) (w : World) → Audited e (require_user e t w)
unfolding require_user refuse auth_failure_decision
require_user-Audited e user w = returns tt w
require_user-Audited e agent w = row-Audited e _ _ _ refl

-- The client has named its trace and its request, with texts that are not empty.
pub record IsNamed (r : RootTaskRequest) (trace request : String) : Type 0 where
  pub in_trace : r.trace_id ≡ some trace
  pub of_request : r.request_id ≡ some request
  pub trace_full : (trace == "") ≡ false
  pub request_full : (request == "") ≡ false

named-or_else :
    (o : Option String) (t default : String)
    → o ≡ some t
    → (t == "") ≡ false
    → or_else o default ≡ t
named-or_else o t default is full = rw (is, full) refl

-- Then the row of a failed generation is of that request, too.
refuse_generation-Audited :
    (u : Uuids) (r : RootTaskRequest) (trace request : String) (a : AuthContext) (x : Exception)
    (w : World)
    → IsNamed r trace request
    → detail_of x ≡ none
    → Audited (provisional u r) (refuse_root_generation u r a x w)
unfolding refuse_root_generation refuse lost_envelope provisional intent_generation_error_decision
refuse_generation-Audited u r trace request a (generation_error message) w named h =
    move-Audited (provisional u r) (lost_envelope u r a) _
      (named-or_else r.trace_id trace u.lost_trace named.in_trace named.trace_full
        ∙ sym (named-or_else r.trace_id trace u.trace named.in_trace named.trace_full))
      (named-or_else r.request_id request u.lost_request named.of_request named.request_full
        ∙ sym (named-or_else r.request_id request u.request named.of_request named.request_full))
      (row-Audited (lost_envelope u r a) _ _ _ refl)
refuse_generation-Audited u r trace request a x w named h = inner x w h

refuse_child-Audited :
    (e : DelegationEnvelope) (r : RootTaskRequest) (x : Exception) (w : World)
    → detail_of x ≡ none
    → Audited e (refuse_root_child e r x w)
unfolding refuse_root_child refuse credential_error_decision
refuse_child-Audited e r (credential_error code message) w h = row-Audited e _ _ _ refl
refuse_child-Audited e r x w h = inner x w h

check_root_node-Audited :
    (lib : Libs) (out : Outside) (e : DelegationEnvelope) (a : AuthContext) (node : IntentNode)
    (model : String) (w : World)
    → ModelsInternal out
    → Audited e (check_root_node lib out e a node model w)
unfolding check_root_node run_validation submission
check_root_node-Audited lib out e a node model w models = handle-IsAudited _ _ _ (λ x raised.
    refuse_intent-Audited lib e (some model) x _ (
      IsInternal-no_detail x
        (come_back-IsInternal _ w
          (validate_and_record-ChecksInternal lib out.judge models.judges (submission e a node) w))
        raised))

prepare_root_node-Audited :
    (lib : Libs) (out : Outside) (endpoint : String) (e : DelegationEnvelope) (r : RootTaskRequest)
    (a : AuthContext) (node : IntentNode) (model : String) (w : World)
    → ModelsInternal out
    → Audited e (prepare_root_node lib out endpoint e r a node model w)
unfolding prepare_root_node
prepare_root_node-Audited lib out endpoint e r a node model w models =
    continue-IsAudited _ _ _ (check_root_node-Audited lib out e a node model w models)
      (λ found checked.
        continue-IsAudited _ _ _
          (handle-IsAudited _ _ _ (λ x raised.
            refuse_child-Audited e r x _
              (IsInternal-no_detail x (child-IsInternal lib a (root_child e r a) _) raised)))
          (λ next built. continue-IsAudited _ _ _ (returns tt _) (λ v recorded. returns _ _)))

prepare_root-Audited :
    (lib : Libs) (out : Outside) (u : Uuids) (r : RootTaskRequest) (authorization : Option String)
    (trace request : String) (w : World)
    → ModelsInternal out
    → IsNamed r trace request
    → Audited (provisional u r) (prepare_root lib out u r authorization w)
unfolding prepare_root prepare_generated verify_bearer_for_envelope get_active_agent
    generate_root_intent root_envelope
prepare_root-Audited lib out u r authorization trace request w models named =
    continue-IsAudited _ _ _
      (verify_bearer-Audited lib (provisional u r) authorization (bearer_token authorization) w
        (bearer_token-IsHeader authorization))
      (λ result verified.
        continue-IsAudited _ _ _
          (internal-IsAudited _ _ (or_raise-IsInternal result.auth_context _ refl))
          (λ a is_bearer.
            continue-IsAudited _ _ _ (require_user-Audited (provisional u r) a.actor_type _)
              (λ v actor.
                continue-IsAudited _ _ _
                  (check_active-Audited r.target_agent_id (provisional u r)
                    (get_agent r.target_agent_id _) _)
                  (λ target found.
                    continue-IsAudited _ _ _
                      (handle-IsAudited _ _ _ (λ x raised.
                        refuse_generation-Audited u r trace request a x _ named
                          (IsInternal-no_detail x (models.generates _) raised)))
                      (λ generated made.
                        continue-IsAudited _ _ _
                          (internal-IsAudited _ _ (build_signed-IsInternal lib _ _ _ _ _ _ _))
                          (λ node signed.
                            prepare_root_node-Audited lib out target.endpoint
                              (root_envelope (provisional u r) r a node) r a node generated.model _
                              models))))))

-- If neither the intent generator nor the judge raises an HTTPException and the client names its
-- trace and its request with texts that are not empty, every HTTPException that `root_task` raises
-- before it forwards leaves a denial under those ids as the newest row of the audit log.
pub prepare_root-DeniedLast :
    (lib : Libs) (out : Outside) (u : Uuids) (r : RootTaskRequest) (authorization : Option String)
    (trace request : String) (w w' : World) (x : Exception) (detail : Fields)
    → ModelsInternal out
    → IsNamed r trace request
    → prepare_root lib out u r authorization w ≡ (err x, w')
    → detail_of x ≡ some detail
    → DeniedLast trace request w'
unfolding provisional
prepare_root-DeniedLast lib out u r authorization trace request w w' x detail models named raised
      told =
    subst (λ t. DeniedLast t request w')
      (named-or_else r.trace_id trace u.trace named.in_trace named.trace_full)
      (subst (λ q. DeniedLast (or_else r.trace_id u.trace) q w')
        (named-or_else r.request_id request u.request named.of_request named.request_full)
        (subst (DeniedLast (or_else r.trace_id u.trace) (or_else r.request_id u.request))
          (ap (λ q. q.1) raised)
          (IsAudited-row x detail
            (prepare_root-Audited lib out u r authorization trace request w models named)
            (ap (λ q. q.0) raised) told)))
