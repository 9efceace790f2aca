-- ===== src/Delegation/Service/Authorize.antt =====
-- When `DelegationService.authorize` (app/delegation/service.py) allows a delegation.
use bu_iam.Prelude.{
  String, ◌≡◌, sym, ◌∙◌, ap, subst, inl, inr, true, false, Option, none, some, List, ◌==◌, eq_iff,
  or_list, Option-cases, Bool-cases,
}
use bu_iam.Prelude.Sets.{contains, Within, contains-set_of}
use bu_iam.Prelude.Result.{ok}
use bu_iam.Libs.{Libs}
use bu_iam.Protocol.{allow, AuthContext, DelegationCredential, DelegationEnvelope}
use bu_iam.Protocol.Decision.{DelegationDecision}
use bu_iam.World.{World, Agent}
use bu_iam.Store.Agents.{get_agent}
use bu_iam.Delegation.Capabilities.{known_capabilities}
use bu_iam.Delegation.Service.{
  get_agent_vc, validate_auth_context_credential, is_chain_continuous, target_capabilities, decide,
  decide_parsed, decide_validated, authorize_context, authorize_target, authorize,
}
use bu_iam.Delegation.Service.Covered.{
  sets_of, decide-allow, Covered-decide, effective-decide, Covered-contains, parse_sets-ok,
  parse_sets-Within, not-allow, decide_parsed-allow, decide_validated-allow, Covered,
}

-- The conditions under which a delegation to a target is allowed.
pub record MayDelegate (lib : Libs) (w : World) (e : DelegationEnvelope) (target : Agent)
    (a : AuthContext) : Type 0 where
  pub registered : get_agent e.target_agent_id w ≡ some target
  pub trusted : e.auth_context ≡ some a
  pub sub : a.sub ≡ e.caller_agent_id
  pub agent : a.agent_id ≡ e.caller_agent_id
  pub continuous : is_chain_continuous e ≡ true
  pub checked :
      (c : Option DelegationCredential) × (validate_auth_context_credential lib (some a) w ≡ ok c)
  pub known_request : Within e.requested_capabilities (known_capabilities w)
  pub known_token : Within a.capabilities (known_capabilities w)
  pub known_user : Within (or_list a.user_capabilities a.capabilities) (known_capabilities w)
  pub covered :
      Covered (sets_of e a (target_capabilities (get_agent_vc lib e.target_agent_id w) target))

-- The tests of `authorize_context` that stand before the credential's.
context-allow :
    (lib : Libs) (e : DelegationEnvelope) (a : AuthContext) (target : List String) (w : World)
    (d : DelegationDecision)
    → authorize_context lib e target (some a) w ≡ ok d
    → d.decision ≡ allow
    → (a.sub ≡ e.caller_agent_id)
      × (a.agent_id ≡ e.caller_agent_id)
      × (is_chain_continuous e ≡ true)
      × (decide_validated lib e a target (validate_auth_context_credential lib (some a) w) w ≡ ok d)
unfolding authorize_context
context-allow lib e a target w d h allowed = elim (Bool-cases (a.sub == e.caller_agent_id)) [
  | inr other_sub ↦
      absurd (not-allow e.requested_capabilities _ false d (rw other_sub at h) allowed)
  | inl sub ↦ elim (Bool-cases (a.agent_id == e.caller_agent_id)) [
    | inr other_agent ↦
        absurd (not-allow e.requested_capabilities _ false d (rw (sub, other_agent) at h) allowed)
    | inl agent ↦ elim (Bool-cases (is_chain_continuous e)) [
      | inr broken ↦
          absurd
            (not-allow e.requested_capabilities _ false d (rw (sub, agent, broken) at h) allowed)
      | inl continuous ↦
          ((eq_iff _ _).0 sub, (eq_iff _ _).0 agent, continuous, rw (sub, agent, continuous) at h)
    ]
  ]
]

authorize-some :
    (lib : Libs) (w : World) (e : DelegationEnvelope) (target : Agent) (a : AuthContext)
    → get_agent e.target_agent_id w ≡ some target
    → e.auth_context ≡ some a
    → authorize lib e w
      ≡ authorize_context lib e
          (target_capabilities (get_agent_vc lib e.target_agent_id w) target)
          (some a)
          w
unfolding authorize authorize_target
authorize-some lib w e target a found trusted = simp (found, trusted)

authorize-no_target :
    (lib : Libs) (w : World) (e : DelegationEnvelope) (d : DelegationDecision)
    → get_agent e.target_agent_id w ≡ none
    → authorize lib e w ≡ ok d
    → d.decision ≡ allow
    → ⊥
unfolding authorize authorize_target
authorize-no_target lib w e d missing h allowed =
    not-allow e.requested_capabilities _ false d (rw missing at h) allowed

authorize-no_context :
    (lib : Libs) (w : World) (e : DelegationEnvelope) (target : Agent) (d : DelegationDecision)
    → get_agent e.target_agent_id w ≡ some target
    → e.auth_context ≡ none
    → authorize lib e w ≡ ok d
    → d.decision ≡ allow
    → ⊥
unfolding authorize authorize_target authorize_context
authorize-no_context lib w e target d found missing h allowed =
    not-allow e.requested_capabilities _ false d (simp (found, missing) at h) allowed

-- If `authorize` decides on allow, the target is registered, the envelope has a trusted context of
-- the caller, the chain is continuous, the context's credential check returns, the requested,
-- token and user capabilities are known, and the requested ones lie within the token's, the
-- target's and the user's.
pub authorize-allow :
    (lib : Libs) (w : World) (e : DelegationEnvelope) (d : DelegationDecision)
    → authorize lib e w ≡ ok d
    → d.decision ≡ allow
    → (target : Agent) × (a : AuthContext) × MayDelegate lib w e target a
authorize-allow lib w e d h allowed = elim (Option-cases (get_agent e.target_agent_id w)) [
  | inl missing ↦ absurd (authorize-no_target lib w e d missing h allowed)
  | inr (target, found) ↦ elim (Option-cases e.auth_context) [
    | inl missing ↦ absurd (authorize-no_context lib w e target d found missing h allowed)
    | inr (a, trusted) ↦
        let caps = target_capabilities (get_agent_vc lib e.target_agent_id w) target in
        let (sub, agent, continuous, h₁) =
          context-allow lib e a caps w d (sym (authorize-some lib w e target a found trusted) ∙ h)
            allowed in
        let (c, checked, h₂) = decide_validated-allow lib e a caps _ w d h₁ allowed in
        let (s, parsed, same) = decide_parsed-allow lib e _ w d h₂ allowed in
        let (sets, rk, tk, uk) = parse_sets-ok lib e a caps w s parsed in
        (
          target,
          a,
          record {
            registered = found;
            trusted = trusted;
            sub = sub;
            agent = agent;
            continuous = continuous;
            checked = (c, checked);
            known_request = rk;
            known_token = tk;
            known_user = uk;
            covered = subst Covered sets (
                decide-allow lib s e.target_agent_id w
                  (ap (λ (x : DelegationDecision). x.decision) (sym same) ∙ allowed));
          },
        )
  ]
]

-- If the target is registered, the context is the caller's, the chain is continuous, the
-- credential check returns, all capabilities named are known, and the requested ones lie within
-- the token's, the target's and the user's, then `authorize` returns allow with exactly the
-- requested capabilities as the effective ones.
pub MayDelegate-authorize :
    (lib : Libs) (w : World) (e : DelegationEnvelope) (target : Agent) (a : AuthContext)
    → MayDelegate lib w e target a
    → (d : DelegationDecision) × (authorize lib e w ≡ ok d)
      × (d.decision ≡ allow)
      × ((c : String) → contains c d.effective_capabilities ≡ contains c e.requested_capabilities)
unfolding authorize_context decide_validated decide_parsed
MayDelegate-authorize lib w e target a m =
    let caps = target_capabilities (get_agent_vc lib e.target_agent_id w) target in
    let s = sets_of e a caps in
    (
      decide lib s e.target_agent_id w,
      authorize-some lib w e target a m.registered m.trusted
          ∙ rw (
            (eq_iff a.sub e.caller_agent_id).1 m.sub,
            (eq_iff a.agent_id e.caller_agent_id).1 m.agent,
            m.continuous,
            m.checked.1,
            parse_sets-Within lib e a caps w m.known_request m.known_token m.known_user,
          ),
      Covered-decide lib s e.target_agent_id w m.covered,
      λ c.
          effective-decide lib s e.target_agent_id w c
          ∙ Covered-contains s m.covered c
          ∙ contains-set_of c e.requested_capabilities,
    )
