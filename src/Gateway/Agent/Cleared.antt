-- ===== src/Gateway/Agent/Cleared.antt =====
-- What stands when `agent_task` (app/gateway/routes.py) is about to forward a task.
use mathlib.Core.Option.{some-injective}
use bu_iam.Prelude.{String, ◌≡◌, refl, sym, ap, ◌∙◌, subst, ◌⊎◌, Option, none, some}
use bu_iam.Prelude.Result.{ok, or_raise-eq-ok}
use bu_iam.Prelude.Exec.{bind-step}
use bu_iam.Libs.{Libs}
use bu_iam.Protocol.{AuthContext, DelegationEnvelope}
use bu_iam.World.{World, Agent}
use bu_iam.Store.Agents.{get_agent}
use bu_iam.Identity.Jwt.{TokenVerificationResult}
use bu_iam.Identity.Jwt.Accept.{Trusted}
use bu_iam.Gateway.Bearer.{bearer_token, get_active_agent, verify_bearer_for_envelope}
use bu_iam.Gateway.Bearer.Verified.{verify_bearer-Trusted}
use bu_iam.Gateway.Context.{
  Held, named_credential, trusted_auth_context_for_envelope, trusted_auth_context-Held,
}
use bu_iam.Gateway.Server.{Outside}
use bu_iam.Gateway.Agent.{Prepared, trusted_envelope, prepare_task}
use bu_iam.Gateway.Agent.Steps.{check_active-ok, task_context-ok}
use bu_iam.Gateway.Agent.Permitted.{Permitted, prepare_trusted-Permitted}

-- A request that `agent_task` is about to forward.
pub record Cleared (lib : Libs) (out : Outside) (target_id : String) (e : DelegationEnvelope)
    (authorization : Option String) (w w' : World) (p : Prepared) : Type 0 where
  pub target : Agent
  pub registered : get_agent target_id w ≡ some target
  pub active : target.status ≡ "active"
  pub endpoint : p.endpoint ≡ target.endpoint
  pub token : String
  pub header : bearer_token authorization ≡ ok token
  pub bearer : AuthContext
  pub verified : Trusted lib token w bearer
  pub result : TokenVerificationResult
  pub seen : World
  pub bearer_checked : verify_bearer_for_envelope lib e authorization w ≡ (ok result, seen)
  pub context : AuthContext
  pub held :
      ((named_credential e.auth_context ≡ none) × (context ≡ bearer))
      ⊎ ((e.auth_context ≡ some context) × Held lib seen e bearer context)
  pub permitted : Permitted lib out (trusted_envelope e target_id context) context seen w' p

-- If `agent_task` comes to forward a task, the target is registered and active, the header holds a
-- bearer token that `inspect_token` trusts, the context is that token's or speaks for a credential
-- of its agent, an agent's intent node was accepted and recorded, `authorize` allows the envelope
-- with it, the newest row of the audit log is that of this allowing decision with the fields of
-- the intent check, and the next envelope has one hop more and the context that the target is
-- granted for the effective capabilities: of a new stored credential under the caller's, or of a
-- caller without one.
pub prepare_task-Cleared :
    (lib : Libs) (out : Outside) (target_id : String) (e : DelegationEnvelope)
    (authorization : Option String) (w w' : World) (p : Prepared)
    → prepare_task lib out target_id e authorization w ≡ (ok p, w')
    → Cleared lib out target_id e authorization w w' p
unfolding prepare_task get_active_agent trusted_envelope
prepare_task-Cleared lib out target_id e authorization w w' p h =
    let (target, w₁, found, h₁) = bind-step _ _ _ h in
    let (registered, active, kept) =
      check_active-ok target_id (some e) (get_agent target_id w) w _ target found in
    let (result, w₂, passed, h₂) = bind-step _ _ _ h₁ in
    let (token, bearer, header, has, verified) =
      verify_bearer-Trusted lib e authorization result _ _ passed in
    let (bearer', w₃, is_bearer, h₃) = bind-step _ _ _ h₂ in
    let same = some-injective _ _ (sym has ∙ or_raise-eq-ok _ _ (ap (λ q. q.0) is_bearer)) in
    let (a, w₄, chosen, h₄) = bind-step _ _ _ h₃ in
    let (trusted, still) = task_context-ok lib e bearer' a _ _ chosen in
    let (endpoint, permitted) =
      prepare_trusted-Permitted lib out target.endpoint (trusted_envelope e target_id a) a _ w' p
        refl h₄ in
    record {
      target = target;
      registered = registered;
      active = active;
      endpoint = endpoint;
      token = token;
      header = header;
      bearer = bearer;
      verified = subst (λ v. Trusted lib token v bearer) (sym kept) verified;
      result = result;
      seen = w₄;
      bearer_checked =
          subst (λ v. verify_bearer_for_envelope lib e authorization v ≡ (ok result, w₄)) (sym kept)
            (passed ∙ ap (λ v. (ok result, v)) (ap (λ q. q.1) is_bearer ∙ still));
      context = a;
      held = trusted_auth_context-Held lib e bearer a w₄ (
          subst (λ v. trusted_auth_context_for_envelope lib e v w₄ ≡ ok a) (sym same)
            (subst (λ v. trusted_auth_context_for_envelope lib e bearer' v ≡ ok a) still trusted));
      permitted = permitted;
    }
