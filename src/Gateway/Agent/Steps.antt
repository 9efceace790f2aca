-- ===== src/Gateway/Agent/Steps.antt =====
-- The steps of `agent_task` (app/gateway/routes.py) that have returned.
use bu_iam.Prelude.{
  String, ◌≡◌, refl, sym, ap, ◌∙◌, subst, inl, inr, false, Option, none, some, List, [], ◌∷◌, ◌++◌,
  arith, ◌==◌, eq_iff, Bool-cases,
}
use bu_iam.Prelude.Result.{ok, err}
use bu_iam.Prelude.Exec.{bind-ok, catching-ok, pure-ok, pair-eta}
use bu_iam.Libs.{Libs}
use bu_iam.Json.{Fields}
use bu_iam.Protocol.{allow, ActorType, user, agent, AuthContext, DelegationEnvelope, IntentNode}
use bu_iam.Protocol.Decision.{DelegationDecision}
use bu_iam.Protocol.Errors.{
  Exception, credential_error, intent_error, generation_error, detail_of, Read,
}
use bu_iam.World.{World, Agent}
use bu_iam.Store.Audit.{record_decision}
use bu_iam.Intent.Service.{
  Judge, Submission, IntentValidationResult, validate_and_record_intent_node,
}
use bu_iam.Delegation.Service.{authorize}
use bu_iam.Delegation.Service.Denied.{is_deny, raise_for_denied}
use bu_iam.Delegation.Service.Child.{
  build_child_auth_context, hop_request, build_decision_hop, append_hop, append_hop_with,
}
use bu_iam.Gateway.Bearer.{check_active}
use bu_iam.Gateway.Context.{trusted_auth_context_for_envelope}
use bu_iam.Gateway.Server.{Generator}
use bu_iam.Gateway.Checks.{
  refuse, refuse_context, task_context, require_agent, refuse_generation,
  attach_generated_intent_node, with_node, refuse_intent, come_back, run_validation, record_intent,
  with_intent,
}
use bu_iam.Gateway.Agent.{decide_task, refuse_hop, next_envelope}

pub check_active-ok :
    (id : String) (e : Option DelegationEnvelope) (found : Option Agent) (w w' : World) (t : Agent)
    → check_active id e found w ≡ (ok t, w')
    → (found ≡ some t) × (t.status ≡ "active") × (w ≡ w')
unfolding check_active
check_active-ok id e none w w' t h = absurd (cc (ap (λ q. q.0) h))
check_active-ok id e (some a) w w' t h = elim (Bool-cases (a.status == "active")) [
  | inr idle ↦ absurd (cc (rw idle at h))
  | inl live ↦ ground (arith, live, eq_iff a.status "active", h)
]

refuse_context-raises :
    (lib : Libs) (e : DelegationEnvelope) (o : Option Fields) (x : Exception) (w : World)
    → (y : Exception) × ((refuse_context lib e o x w).0 ≡ err y)
unfolding refuse_context refuse
refuse_context-raises lib e none x w = (x, refl)
refuse_context-raises lib e (some detail) x w = (x, refl)

pub task_context-ok :
    (lib : Libs) (e : DelegationEnvelope) (bearer a : AuthContext) (w w' : World)
    → task_context lib e bearer w ≡ (ok a, w')
    → (trusted_auth_context_for_envelope lib e bearer w ≡ ok a) × (w ≡ w')
unfolding task_context
task_context-ok lib e bearer a w w' h =
    let (found, kept) =
      catching-ok (λ x. refuse_context lib e (detail_of x) x)
        (trusted_auth_context_for_envelope lib e bearer w) w
        (λ x. refuse_context-raises lib e (detail_of x) x) (ap (λ q. q.0) h) in
    (found, sym kept ∙ ap (λ q. q.1) h)

pub require_agent-ok :
    (lib : Libs) (e : DelegationEnvelope) (t : ActorType) (w : World)
    → (require_agent lib e t w).0 ≡ ok tt
    → (t ≡ agent) × ((require_agent lib e t w).1 ≡ w)
unfolding require_agent refuse
require_agent-ok lib e agent w h = (refl, refl)
require_agent-ok lib e user w h = absurd (cc h)

refuse_generation-raises :
    (lib : Libs) (e : DelegationEnvelope) (x : Exception) (w : World)
    → (y : Exception) × ((refuse_generation lib e x w).0 ≡ err y)
unfolding refuse_generation refuse
refuse_generation-raises lib e (generation_error m) w = (_, refl)
refuse_generation-raises lib e x w = (x, refl)

-- A generated node goes into the envelope, and the tables stay.
attach-ok :
    (lib : Libs) (generator : Generator) (e : DelegationEnvelope) (a : AuthContext) (task : String)
    (w w' : World) (out : DelegationEnvelope × String)
    → attach_generated_intent_node lib generator e a task w ≡ (ok out, w')
    → (node : IntentNode) × (out.0 ≡ record e { intent_node = some node }) × (w ≡ w')
unfolding attach_generated_intent_node
attach-ok lib generator e a task w w' out h =
    let (g, asked, h₁) = bind-ok _ _ _ h in
    let (same, kept) =
      catching-ok (refuse_generation lib e) _ w (refuse_generation-raises lib e) asked in
    let (node, signed, h₂) = bind-ok _ _ _ h₁ in
    let (made, last) = pure-ok h₂ in (node, sym (ap (λ q. q.0) made), sym kept ∙ last)

pub with_node-ok :
    (lib : Libs) (generator : Generator) (e : DelegationEnvelope) (a : AuthContext)
    (o : Option IntentNode) (w w' : World) (out : DelegationEnvelope × Option String)
    → e.intent_node ≡ o
    → with_node lib generator e a o w ≡ (ok out, w')
    → (node : IntentNode) × (out.0 ≡ record e { intent_node = some node }) × (w ≡ w')
unfolding with_node
with_node-ok lib generator e a (some node) w w' out has h =
    let (same, kept) = pure-ok h in
    (node, sym (ap (λ q. q.0) same) ∙ (λ i. record e { intent_node = has i }), kept)
with_node-ok lib generator e a none w w' out has h =
    let (attached, made, h₁) = bind-ok _ _ _ h in
    let (node, with, kept) = attach-ok lib generator e a _ w _ attached (pair-eta _ made) in
    let (same, last) = pure-ok h₁ in (node, sym (ap (λ q. q.0) same) ∙ with, kept ∙ last)

pub refuse_intent-raises :
    (lib : Libs) (e : DelegationEnvelope) (model : Option String) (x : Exception) (w : World)
    → (y : Exception) × ((refuse_intent lib {A = IntentValidationResult} e model x w).0 ≡ err y)
unfolding refuse_intent refuse
refuse_intent-raises lib e model (intent_error x) w = (_, refl)
refuse_intent-raises lib e model x w = (x, refl)

-- The arguments that the gateway passes to the intent check.
unfoldable pub submission : DelegationEnvelope → AuthContext → IntentNode → Submission
submission e a node = record {
  node = node;
  trace_id = e.trace_id;
  request_id = e.request_id;
  auth_context = a;
}

pub come_back-ok :
    (o : Option (Read IntentValidationResult × World)) (w w' : World) (r : IntentValidationResult)
    → come_back o w ≡ (ok r, w')
    → o ≡ some (ok r, w')
unfolding come_back
come_back-ok none w w' r h = absurd (cc (ap (λ q. q.0) h))
come_back-ok (some out) w w' r h = ap some h

raise_for_denied-ok :
    (d : DelegationDecision) {u : Unit {0}} → raise_for_denied d ≡ ok u → is_deny d.decision ≡ false
unfolding raise_for_denied
raise_for_denied-ok d h = elim (Bool-cases (is_deny d.decision)) [
  | inl denied ↦ absurd (cc (rw denied at h))
  | inr free ↦ free
]

pub record_intent-ok :
    (lib : Libs) (judge : Judge) (e : DelegationEnvelope) (a : AuthContext) (model : Option String)
    (o : Option IntentNode) (node : IntentNode) (w w' : World)
    (found : Option IntentValidationResult)
    → o ≡ some node
    → record_intent lib judge e a model o w ≡ (ok found, w')
    → (r : IntentValidationResult) × (found ≡ some r)
      × (validate_and_record_intent_node lib judge (submission e a node) w ≡ some (ok r, w'))
unfolding record_intent run_validation submission
record_intent-ok lib judge e a model o node w w' found has h =
    let (r, validated, h₁) = bind-ok _ _ _ (rw has at h) in
    let (answered, kept) =
      catching-ok (refuse_intent lib e model) _ _ (refuse_intent-raises lib e model) validated in
    let (same, last) = pure-ok h₁ in
    (
      r,
      sym same,
      come_back-ok _ w w' r (pair-eta _ answered ∙ ap (λ v. (ok r, v)) (sym kept ∙ last)),
    )

pub decide_task-ok :
    (lib : Libs) (e : DelegationEnvelope) (model : Option String)
    (found : Option IntentValidationResult) (w w' : World) (d : DelegationDecision)
    → decide_task lib e model found w ≡ (ok d, w')
    → (decided : DelegationDecision) × (authorize lib e w ≡ ok decided)
      × (d ≡ with_intent model found decided)
      × (is_deny d.decision ≡ false)
      × (w' ≡ record_decision e d w)
unfolding decide_task raise_for_denied
decide_task-ok lib e model found w w' d h =
    let (decided, found_out, h₁) = bind-ok _ _ _ h in
    let (u, recorded, h₂) = bind-ok _ _ _ h₁ in
    let (v, passed, h₃) = bind-ok _ _ _ h₂ in
    let (same, last) = pure-ok h₃ in
    (
      decided,
      found_out,
      sym same,
      subst (λ (x : DelegationDecision). is_deny x.decision ≡ false) same
          (raise_for_denied-ok _ passed),
      sym last ∙ ap (λ x. record_decision e x w) same,
    )

refuse_hop-raises :
    (lib : Libs) (e : DelegationEnvelope) (d : DelegationDecision) (x : Exception) (w : World)
    → (y : Exception) × ((refuse_hop lib e d x w).0 ≡ err y)
unfolding refuse_hop refuse
refuse_hop-raises lib e d (credential_error code m) w = (_, refl)
refuse_hop-raises lib e d x w = (x, refl)

pub next_envelope-ok :
    (lib : Libs) (e e' : DelegationEnvelope) (d : DelegationDecision) (w w' : World)
    → next_envelope lib e d w ≡ (ok e', w')
    → append_hop lib e d.effective_capabilities w ≡ (ok e', w')
unfolding next_envelope
next_envelope-ok lib e e' d w w' h =
    let (appended, kept) =
      catching-ok (refuse_hop lib e d) _ _ (refuse_hop-raises lib e d) (ap (λ q. q.0) h) in
    pair-eta _ appended ∙ ap (λ v. (ok e', v)) (sym kept ∙ ap (λ q. q.1) h)

-- The envelope of the next agent: one hop more, with a context made of the caller's.
pub append_hop-ok :
    (lib : Libs) (e e' : DelegationEnvelope) (a : AuthContext) (effective : List String)
    (w w' : World)
    → e.auth_context ≡ some a
    → append_hop lib e effective w ≡ (ok e', w')
    → (next : AuthContext) × (build_child_auth_context lib a (hop_request e effective) w
        ≡ (ok next, w'))
      × (e' ≡ record e {
        delegation_chain = e.delegation_chain ++ build_decision_hop e effective [] allow ∷ [];
        auth_context = some next;
      })
unfolding append_hop append_hop_with
append_hop-ok lib e e' a effective w w' has h =
    let (next, built, h₁) = bind-ok _ _ _ (rw has at h) in
    let (same, last) = pure-ok h₁ in
    (next, pair-eta _ built ∙ ap (λ v. (ok next, v)) last, sym same)
