-- ===== src/Gateway/Agent/Permitted.antt =====
-- What stands when `agent_task` (app/gateway/routes.py) has prepared a task from its trusted
-- envelope on.
use mathlib.Core.Option.{some-injective}
use bu_iam.Prelude.{String, ◌≡◌, refl, sym, ap, ◌∙◌, subst, Option, none, some, [], ◌∷◌, ◌++◌}
use bu_iam.Prelude.Result.{ok}
use bu_iam.Prelude.Exec.{bind-step, pure-ok}
use bu_iam.Libs.{Libs}
use bu_iam.Protocol.{allow, agent, AuthContext, DelegationEnvelope, IntentNode}
use bu_iam.Protocol.Decision.{DelegationDecision}
use bu_iam.World.{World, Agent}
use bu_iam.Store.Audit.{record_decision}
use bu_iam.Intent.Service.{IntentValidationResult, validate_and_record_intent_node}
use bu_iam.Intent.Service.Record.{Accepted, validate_and_record-Accepted}
use bu_iam.Delegation.Service.{authorize}
use bu_iam.Delegation.Service.Child.{
  ChildRequest, build_child_auth_context, hop_request, build_decision_hop,
}
use bu_iam.Delegation.Service.Child.Granted.{Granted, build_child-Granted}
use bu_iam.Delegation.Service.Denied.{is_deny}
use bu_iam.Delegation.Service.Authorize.{MayDelegate, authorize-allow}
use bu_iam.Delegation.Service.Denied.Allowed.{authorize-IsFinal}
use bu_iam.Gateway.Server.{Outside}
use bu_iam.Gateway.Audited.{Logged, record_decision-Logged}
use bu_iam.Gateway.Checks.{with_node, with_intent}
use bu_iam.Gateway.Agent.{Prepared, decide_task, prepare_trusted}
use bu_iam.Gateway.Agent.Steps.{
  require_agent-ok, with_node-ok, submission, record_intent-ok, decide_task-ok, next_envelope-ok,
  append_hop-ok,
}

-- From the trusted envelope on: an agent's node was accepted, `authorize` allows the envelope with
-- it, that decision with the fields of the intent check is the newest row of the audit log, and the
-- next envelope has one hop more and the context that the target is granted.
pub record Permitted (lib : Libs) (out : Outside) (e : DelegationEnvelope) (a : AuthContext)
    (w w' : World) (p : Prepared) : Type 0 where
  pub actor : a.actor_type ≡ agent
  pub node : IntentNode
  pub trusted : p.trusted ≡ record e { intent_node = some node }
  pub model : Option String
  pub attached : with_node lib out.generator e a e.intent_node w ≡ (ok (p.trusted, model), w)
  pub judged : World
  pub result : IntentValidationResult
  pub checked :
      validate_and_record_intent_node lib out.judge (submission p.trusted a node) w
      ≡ some (ok result, judged)
  pub accepted : Accepted lib (submission p.trusted a node) w judged result
  pub target : Agent
  pub permitted : MayDelegate lib judged p.trusted target a
  pub decided : DelegationDecision
  pub decision : authorize lib p.trusted judged ≡ ok decided
  pub allows : p.decision.decision ≡ allow
  pub effective : p.decision.effective_capabilities ≡ decided.effective_capabilities
  pub noted : p.decision ≡ with_intent model (some result) decided
  pub logged : Logged p.trusted p.decision w'
  pub next : AuthContext
  pub issued :
      build_child_auth_context lib a
        (hop_request p.trusted p.decision.effective_capabilities)
        (record_decision p.trusted p.decision judged)
      ≡ (ok next, w')
  pub granted :
      Granted lib
        (record_decision p.trusted p.decision judged)
        a
        (hop_request p.trusted p.decision.effective_capabilities)
        next
        w'
  pub authorized : p.authorized ≡ record p.trusted {
    delegation_chain =
        p.trusted.delegation_chain
        ++ build_decision_hop p.trusted p.decision.effective_capabilities [] allow ∷ [];
    auth_context = some next;
  }

with_intent-keeps :
    (model : Option String) (found : Option IntentValidationResult) (d : DelegationDecision)
    → ((with_intent model found d).decision ≡ d.decision)
      × ((with_intent model found d).effective_capabilities ≡ d.effective_capabilities)
unfolding with_intent
with_intent-keeps model none d = (refl, refl)
with_intent-keeps model (some r) d = (refl, refl)

-- the context that is delegated is the envelope's
MayDelegate-of :
    (lib : Libs) (w : World) (e : DelegationEnvelope) (target : Agent) (a b : AuthContext)
    → e.auth_context ≡ some a
    → MayDelegate lib w e target b
    → MayDelegate lib w e target a
MayDelegate-of lib w e target a b has m =
    subst (MayDelegate lib w e target) (some-injective _ _ (sym m.trusted ∙ has)) m

decide_task-permits :
    (lib : Libs) (e : DelegationEnvelope) (a : AuthContext) (model : Option String)
    (found : Option IntentValidationResult) (w w' : World) (d : DelegationDecision)
    → e.auth_context ≡ some a
    → decide_task lib e model found w ≡ (ok d, w')
    → (target : Agent) × MayDelegate lib w e target a
      × (decided : DelegationDecision) × (authorize lib e w ≡ ok decided)
      × (d.decision ≡ allow)
      × (d.effective_capabilities ≡ decided.effective_capabilities)
      × (d ≡ with_intent model found decided)
      × (record_decision e d w ≡ w')
decide_task-permits lib e a model found w w' d has h =
    let (decided, authorized, d_is, free, recorded) = decide_task-ok lib e model found w w' d h in
    let (verdict, effective) = with_intent-keeps model found decided in
    let same : d.decision ≡ decided.decision =
      ap (λ (x : DelegationDecision). x.decision) d_is ∙ verdict in
    let allowed = authorize-IsFinal lib e w decided authorized (sym (ap is_deny same) ∙ free) in
    let (target, b, permitted) = authorize-allow lib w e decided authorized allowed in
    (
      target,
      MayDelegate-of lib w e target a b has permitted,
      decided,
      authorized,
      same ∙ allowed,
      ap (λ (x : DelegationDecision). x.effective_capabilities) d_is ∙ effective,
      d_is,
      sym recorded,
    )

-- A grant leaves the newest row of the audit log where it is.
Granted-Logged :
    (lib : Libs) (e : DelegationEnvelope) (d : DelegationDecision) (a next : AuthContext)
    (r : ChildRequest) (w w' : World)
    → Logged e d w
    → Granted lib w a r next w'
    → Logged e d w'
Granted-Logged lib e d a next r w w' logged granted = record {
  older = logged.older;
  row = logged.row;
  last = granted.logs ∙ logged.last;
  in_trace = logged.in_trace;
  of_request = logged.of_request;
  caller = logged.caller;
  target = logged.target;
  decision = logged.decision;
  reason = logged.reason;
  effective = logged.effective;
  detail = logged.detail;
}

pub prepare_trusted-Permitted :
    (lib : Libs) (out : Outside) (endpoint : String) (e : DelegationEnvelope) (a : AuthContext)
    (w w' : World) (p : Prepared)
    → e.auth_context ≡ some a
    → prepare_trusted lib out endpoint e a w ≡ (ok p, w')
    → (p.endpoint ≡ endpoint) × Permitted lib out e a w w' p
unfolding prepare_trusted
prepare_trusted-Permitted lib out endpoint e a w w' p has h =
    let (u, w₁, actor, h₁) = bind-step _ _ _ h in
    let (is_agent, kept) = require_agent-ok lib e a.actor_type w (ap (λ q. q.0) actor) in
    let (attached, w₂, made, h₂) = bind-step _ _ _ h₁ in
    let (node, trusted, same) =
      with_node-ok lib out.generator e a e.intent_node _ _ attached refl made in
    let at_w₁ : w₁ ≡ w = sym (ap (λ q. q.1) actor) ∙ kept in
    let at_w₂ : w₂ ≡ w = sym same ∙ at_w₁ in
    let node_of : attached.0.intent_node ≡ some node =
      ap (λ (x : DelegationEnvelope). x.intent_node) trusted in
    let context_of : attached.0.auth_context ≡ some a =
      ap (λ (x : DelegationEnvelope). x.auth_context) trusted ∙ has in
    let (found, w₃, checked, h₃) = bind-step _ _ _ h₂ in
    let (r, found_is, validated) =
      record_intent-ok lib out.judge attached.0 a attached.1 attached.0.intent_node node _ _ found
        node_of checked in
    let accepted_by =
      subst
        (λ v.
          validate_and_record_intent_node lib out.judge (submission attached.0 a node) v
          ≡ some (ok r, w₃))
        at_w₂ validated in
    let (d, w₄, decided_out, h₄) = bind-step _ _ _ h₃ in
    let (target, permitted, decided, authorized, allows, effective, noted, recorded) =
      decide_task-permits lib attached.0 a attached.1 found _ _ d context_of decided_out in
    let (e', w₅, appended, h₅) = bind-step _ _ _ h₄ in
    let (result, last) = pure-ok h₅ in
    let (next, built, chain) =
      append_hop-ok lib attached.0 e' a d.effective_capabilities _ _ context_of
        (next_envelope-ok lib attached.0 e' d _ _ appended) in
    let issued =
      subst
        (λ v.
          build_child_auth_context lib a (hop_request attached.0 d.effective_capabilities) v
          ≡ (ok next, w'))
        (sym recorded) (built ∙ ap (λ v. (ok next, v)) last) in
    let granted = build_child-Granted lib a next _ _ w' issued in
    (
      sym (ap (λ (x : Prepared). x.endpoint) result),
      subst (Permitted lib out e a w w') result (record {
        actor = is_agent;
        node = node;
        trusted = trusted;
        model = attached.1;
        attached =
            subst (λ v. with_node lib out.generator e a e.intent_node v ≡ (ok attached, v)) at_w₁
              (made ∙ ap (λ v. (ok attached, v)) (sym same));
        judged = w₃;
        result = r;
        checked = accepted_by;
        accepted =
            validate_and_record-Accepted lib out.judge (submission attached.0 a node) w w₃ r
              accepted_by;
        target = target;
        permitted = permitted;
        decided = decided;
        decision = authorized;
        allows = allows;
        effective = effective;
        noted = noted ∙ ap (λ o. with_intent attached.1 o decided) found_is;
        logged =
            Granted-Logged lib attached.0 d a next _ _ w' (record_decision-Logged attached.0 d w₃)
              granted;
        next = next;
        issued = issued;
        granted = granted;
        authorized = chain;
      }),
    )
