-- ===== src/Gateway/Root/Cleared.antt =====
-- What stands when `root_task` (app/gateway/routes.py) is about to forward a user's task.
use mathlib.Core.Option.{some-injective}
use bu_iam.Prelude.{String, ◌≡◌, sym, ap, ◌∙◌, subst, Option, none, some}
use bu_iam.Prelude.Result.{ok, or_raise-eq-ok}
use bu_iam.Prelude.Exec.{bind-step, pure-ok, pair-eta, catching-ok}
use bu_iam.Libs.{Libs}
use bu_iam.Protocol.{user, AuthContext, DelegationEnvelope, IntentNode, RootTaskRequest}
use bu_iam.World.{World, Agent}
use bu_iam.Store.Agents.{get_agent}
use bu_iam.Identity.Jwt.{TokenVerificationResult}
use bu_iam.Identity.Jwt.Accept.{Trusted}
use bu_iam.Intent.Crypto.{build_signed_intent_node}
use bu_iam.Intent.Service.{IntentValidationResult, validate_and_record_intent_node}
use bu_iam.Intent.Service.Record.{Accepted, validate_and_record-Accepted}
use bu_iam.Store.Audit.{record_decision}
use bu_iam.Delegation.Service.Child.{build_child_auth_context}
use bu_iam.Delegation.Service.Child.Granted.{Granted, build_child-Granted}
use bu_iam.Gateway.Audited.{Logged, record_decision-Logged}
use bu_iam.Gateway.Bearer.{bearer_token, get_active_agent, verify_bearer_for_envelope}
use bu_iam.Gateway.Bearer.Verified.{verify_bearer-Trusted}
use bu_iam.Gateway.Server.{GeneratedIntent, Outside}
use bu_iam.Gateway.Agent.Steps.{check_active-ok, submission}
use bu_iam.Gateway.Root.{
  prepare_generated, Uuids, provisional, root_actor, generate_root_intent, root_envelope,
  root_child, root_decision, refuse_root_child, RootPrepared, prepare_root_node, prepare_root,
}
use bu_iam.Gateway.Root.Steps.{
  require_user-ok, refuse_child-raises, generate-ok, check_root_node-ok,
}

-- From the root node on: it was accepted, the forwarded envelope has the context that the target is
-- granted from the user's, and the newest row of the audit log is that of the accepted root task.
pub record NodeCleared (lib : Libs) (out : Outside) (e : DelegationEnvelope) (r : RootTaskRequest)
    (a : AuthContext) (node : IntentNode) (model : String) (w w' : World) (p : RootPrepared)
    : Type 0 where
  pub judged : World
  pub result : IntentValidationResult
  pub checked :
      validate_and_record_intent_node lib out.judge (submission e a node) w
      ≡ some (ok result, judged)
  pub accepted : Accepted lib (submission e a node) w judged result
  pub next : AuthContext
  pub issued : World
  pub child : build_child_auth_context lib a (root_child e r a) judged ≡ (ok next, issued)
  pub granted : Granted lib judged a (root_child e r a) next issued
  pub recorded : record_decision e (root_decision r a node model result) issued ≡ w'
  pub logged : Logged e (root_decision r a node model result) w'
  pub trusted : p.trusted ≡ e
  pub forwarded :
      p.forwarded ≡ record e { caller_agent_id = r.target_agent_id; auth_context = some next }

prepare_root_node-Cleared :
    (lib : Libs) (out : Outside) (endpoint : String) (e : DelegationEnvelope) (r : RootTaskRequest)
    (a : AuthContext) (node : IntentNode) (model : String) (w w' : World) (p : RootPrepared)
    → prepare_root_node lib out endpoint e r a node model w ≡ (ok p, w')
    → (p.endpoint ≡ endpoint) × NodeCleared lib out e r a node model w w' p
unfolding prepare_root_node
prepare_root_node-Cleared lib out endpoint e r a node model w w' p h =
    let (found, w₁, checked, h₁) = bind-step _ _ _ h in
    let validated = check_root_node-ok lib out e a node model w w₁ found checked in
    let (next, w₂, caught, h₂) = bind-step _ _ _ h₁ in
    let (built, kept) =
      catching-ok (refuse_root_child e r) _ _ (refuse_child-raises e r) (ap (λ q. q.0) caught) in
    let child : build_child_auth_context lib a (root_child e r a) w₁ ≡ (ok next, w₂) =
      pair-eta _ built ∙ ap (λ v. (ok next, v)) (sym kept ∙ ap (λ q. q.1) caught) in
    let (u, w₃, noted, h₃) = bind-step _ _ _ h₂ in
    let (result, last) = pure-ok h₃ in
    let recorded = ap (λ q. q.1) noted ∙ last in
    (
      sym (ap (λ (x : RootPrepared). x.endpoint) result),
      record {
        judged = w₁;
        result = found;
        checked = validated;
        accepted =
            validate_and_record-Accepted lib out.judge (submission e a node) w w₁ found validated;
        next = next;
        issued = w₂;
        child = child;
        granted = build_child-Granted lib a next (root_child e r a) w₁ w₂ child;
        recorded = recorded;
        logged =
            subst (Logged e (root_decision r a node model found)) recorded
              (record_decision-Logged e (root_decision r a node model found) w₂);
        trusted = sym (ap (λ (x : RootPrepared). x.trusted) result);
        forwarded = sym (ap (λ (x : RootPrepared). x.forwarded) result);
      },
    )

-- From the generation on: a root node of the generated intent was signed, and it is cleared.
pub record GeneratedCleared (lib : Libs) (out : Outside) (u : Uuids) (r : RootTaskRequest)
    (a : AuthContext) (w w' : World) (p : RootPrepared) : Type 0 where
  pub generated : GeneratedIntent
  pub made : generate_root_intent out.generator u r a w ≡ (ok generated, w)
  pub node : IntentNode
  pub signed :
      build_signed_intent_node lib none
        (root_actor a)
        user
        r.target_agent_id
        r.task_type
        generated.commitment
        w
      ≡ ok node
  pub cleared :
      NodeCleared lib out (root_envelope (provisional u r) r a node) r a node generated.model w w' p

prepare_generated-Cleared :
    (lib : Libs) (out : Outside) (endpoint : String) (u : Uuids) (r : RootTaskRequest)
    (a : AuthContext) (w w' : World) (p : RootPrepared)
    → prepare_generated lib out endpoint u r a w ≡ (ok p, w')
    → (p.endpoint ≡ endpoint) × GeneratedCleared lib out u r a w w' p
unfolding prepare_generated
prepare_generated-Cleared lib out endpoint u r a w w' p h =
    let (generated, w₁, caught, h₁) = bind-step _ _ _ h in
    let same = sym (generate-ok out.generator u r a w w₁ generated caught) in
    let (node, w₂, signed, h₂) = bind-step _ _ _ h₁ in
    let (built, cleared) =
      prepare_root_node-Cleared lib out endpoint (root_envelope (provisional u r) r a node) r a node
        generated.model w₂ w' p h₂ in
    let here = sym (ap (λ q. q.1) signed) ∙ same in
    (
      built,
      record {
        generated = generated;
        made = caught ∙ ap (λ v. (ok generated, v)) same;
        node = node;
        signed =
            subst
              (λ v.
                build_signed_intent_node lib none (root_actor a) user r.target_agent_id r.task_type
                  generated.commitment v
                ≡ ok node)
              same (ap (λ q. q.0) signed);
        cleared =
            subst
              (λ v.
                NodeCleared lib out (root_envelope (provisional u r) r a node) r a node
                  generated.model v w' p)
              here cleared;
      },
    )

-- A user's task that `root_task` is about to forward.
pub record RootCleared (lib : Libs) (out : Outside) (u : Uuids) (r : RootTaskRequest)
    (authorization : Option String) (w w' : World) (p : RootPrepared) : Type 0 where
  pub token : String
  pub header : bearer_token authorization ≡ ok token
  pub context : AuthContext
  pub verified : Trusted lib token w context
  pub actor : context.actor_type ≡ user
  pub result : TokenVerificationResult
  pub seen : World
  pub bearer_checked :
      verify_bearer_for_envelope lib (provisional u r) authorization w ≡ (ok result, seen)
  pub target : Agent
  pub registered : get_agent r.target_agent_id seen ≡ some target
  pub active : target.status ≡ "active"
  pub endpoint : p.endpoint ≡ target.endpoint
  pub cleared : GeneratedCleared lib out u r context seen w' p

-- If `root_task` comes to forward a task, the header holds a bearer token of a user that
-- `inspect_token` trusts, the target is registered and active, the root node signed for the
-- generated intent was accepted and recorded, the newest row of the audit log is that of the
-- accepted root task, and the forwarded envelope has the target as its caller and, in place of the
-- user's, the context that the target is granted from it for the requested capabilities: of a new
-- stored credential under the user's, or of a user's context without one.
pub prepare_root-Cleared :
    (lib : Libs) (out : Outside) (u : Uuids) (r : RootTaskRequest) (authorization : Option String)
    (w w' : World) (p : RootPrepared)
    → prepare_root lib out u r authorization w ≡ (ok p, w')
    → RootCleared lib out u r authorization w w' p
unfolding prepare_root get_active_agent
prepare_root-Cleared lib out u r authorization w w' p h =
    let (result, w₁, passed, h₁) = bind-step _ _ _ h in
    let (token, bearer, header, has, verified) =
      verify_bearer-Trusted lib (provisional u r) authorization result w w₁ passed in
    let (a, w₂, is_bearer, h₂) = bind-step _ _ _ h₁ in
    let same = some-injective _ _ (sym has ∙ or_raise-eq-ok _ _ (ap (λ q. q.0) is_bearer)) in
    let (v, w₃, required, h₃) = bind-step _ _ _ h₂ in
    let (actor, kept) = require_user-ok (provisional u r) a.actor_type w₂ w₃ required in
    let (target, w₄, found, h₄) = bind-step _ _ _ h₃ in
    let (registered, active, still) =
      check_active-ok r.target_agent_id (some (provisional u r)) (get_agent r.target_agent_id w₃) w₃
        w₄ target found in
    let (endpoint, cleared) = prepare_generated-Cleared lib out target.endpoint u r a w₄ w' p h₄ in
    let here : w₃ ≡ w₁ = sym (ap (λ q. q.1) is_bearer ∙ kept) in
    record {
      token = token;
      header = header;
      context = a;
      verified = subst (Trusted lib token w) same verified;
      actor = actor;
      result = result;
      seen = w₁;
      bearer_checked = passed;
      target = target;
      registered = subst (λ x. get_agent r.target_agent_id x ≡ some target) here registered;
      active = active;
      endpoint = endpoint;
      cleared = subst (λ x. GeneratedCleared lib out u r a x w' p) (sym still ∙ here) cleared;
    }
