-- ===== src/Registry/Routes/Granted.antt =====
-- What `register_agent` (app/registry/routes.py) gives an agent.
use bu_iam.Prelude.{
  ℕ, String, ◌≡◌, refl, sym, ap, ◌∙◌, subst, inl, inr, Bool, false, ◌&&◌, Option, none, some, List,
  [], ◌∷◌, eq_refl, Bool-cases, Option-cases,
}
use bu_iam.Prelude.Sets.{contains, sorted, set_of, contains-sorted, contains-set_of}
use bu_iam.Prelude.Result.{ok, err, ok-injective, >>=-eq-ok}
use bu_iam.Prelude.Exec.{bind-step, pure-ok}
use bu_iam.Libs.{Libs}
use bu_iam.Json.{Fields}
use bu_iam.Protocol.{DelegationCredential}
use bu_iam.Protocol.Errors.{Read}
use bu_iam.World.{World, Agent, PolicyRow}
use bu_iam.Store.Agents.{find_agent, get_agent, get_agent_by_name, clean_agent}
use bu_iam.Store.Agents.Rows.{upsert_agent-IsRowOf}
use bu_iam.Store.Credentials.{get_credential, upsert_credential}
use bu_iam.Store.Credentials.Rows.{get_credential-upsert}
use bu_iam.Store.Policies.{get_policy}
use bu_iam.Identity.Did.{build_did, build_verification_method_id}
use bu_iam.Identity.Crypto.{sign_with_kid}
use bu_iam.Delegation.Credential.{signed_content, gateway_system_id, agent_vc_type}
use bu_iam.Delegation.Credential.Build.{
  build_agent_capability_vc, sign_credential, unsigned_agent_vc, with_ids, with_signature,
}
use bu_iam.Registry.Policy.{Evaluation, evaluate_with, evaluate_capability_request}
use bu_iam.Registry.Policy.Granted.{evaluate-partition}
use bu_iam.Registry.Routes.{
  AgentRegisterRequest, resolve_requested, check_name, check_approval, check_agent, is_denied,
  agent_of, store_system_did, ensure_system_did, Registration, vc_days, register_approved,
  register_agent,
}

-- a request that is not denied has a policy
not_denied-policy :
    (s a : String) (requested : List String) (w : World)
    → is_denied (evaluate_capability_request s a requested w).decision ≡ false
    → (p : PolicyRow) × (get_policy s a w ≡ some p)
unfolding evaluate_capability_request evaluate_with
not_denied-policy s a [] w h = absurd (cc h)
not_denied-policy s a (c ∷ cs) w h = elim (Option-cases (get_policy s a w)) [
  | inl missing ↦ absurd (cc (rw missing at h))
  | inr found ↦ found
]

check_approval-ok :
    (approval e : Evaluation) (requested : List String)
    → check_approval approval requested ≡ ok e
    → (approval ≡ e) × (is_denied approval.decision ≡ false)
unfolding check_approval
check_approval-ok approval e requested h = elim (Bool-cases (is_denied approval.decision)) [
  | inl refused ↦ absurd (cc (simp (refused) at h))
  | inr free ↦ (ok-injective (simp (free) at h), free)
]

check_agent-ok :
    (r : AgentRegisterRequest) (w : World) (e : Evaluation) (name : Read (Unit {0}))
    → (elim name [
      | err x ↦ err x
      | ok u ↦
          check_approval
            (evaluate_capability_request "agent" r.agent_type (resolve_requested r) w)
            (resolve_requested r)
    ])
      ≡ ok e
    → (evaluate_capability_request "agent" r.agent_type (resolve_requested r) w ≡ e)
      × (is_denied
            (evaluate_capability_request "agent" r.agent_type (resolve_requested r) w).decision
          ≡ false)
check_agent-ok r w e (err x) h = absurd (cc h)
check_agent-ok r w e (ok u) h = check_approval-ok _ e _ h

-- the capability credential, as built
built-vc :
    (lib : Libs) (id : String) (caps : List String) (endpoint kind : String) (days : ℕ) (w : World)
    (vc : DelegationCredential)
    → build_agent_capability_vc lib id caps endpoint kind days w ≡ ok vc
    → (vc.subject_id ≡ id)
      × (vc.issuer_id ≡ gateway_system_id)
      × (vc.capabilities ≡ sorted caps)
      × (vc.vc_type ≡ agent_vc_type)
      × (vc.revoked ≡ false)
unfolding build_agent_capability_vc sign_credential unsigned_agent_vc with_ids with_signature
built-vc lib id caps endpoint kind days w vc h =
    let unsigned = unsigned_agent_vc lib id caps endpoint kind days w in
    let vm = build_verification_method_id (build_did gateway_system_id) in
    let (sig, signed, e) =
      >>=-eq-ok (sign_with_kid lib unsigned.signature_alg (signed_content lib unsigned) vm w)
        (λ x. ok (with_ids lib (with_signature lib unsigned x))) h in
    let same : with_ids lib (with_signature lib unsigned sig) ≡ vc = ok-injective e in
    (
      ap (λ (c : DelegationCredential). c.subject_id) (sym same),
      ap (λ (c : DelegationCredential). c.issuer_id) (sym same),
      ap (λ (c : DelegationCredential). c.capabilities) (sym same),
      ap (λ (c : DelegationCredential). c.vc_type) (sym same),
      ap (λ (c : DelegationCredential). c.revoked) (sym same),
    )

store_system-keeps :
    (o : Option Fields) (built : Read Fields) (w : World)
    → ((store_system_did o built w).1.agents ≡ w.agents)
unfolding store_system_did
store_system-keeps (some d) built w = refl
store_system-keeps none (err x) w = refl
store_system-keeps none (ok d) w = refl

kept_agents : (vc : DelegationCredential) (w : World) → (upsert_credential vc w).agents ≡ w.agents
unfolding upsert_credential
kept_agents vc w = refl

same_row : (v w : World) (id : String) → v.agents ≡ w.agents → get_agent id v ≡ get_agent id w
unfolding get_agent
same_row v w id same = ap (find_agent id) same

contains-cleaned :
    (c : String) (a : Agent) (w : World)
    → contains c (clean_agent a w).static_capabilities ≡ contains c a.static_capabilities
unfolding clean_agent
contains-cleaned c a w =
    contains-sorted c (set_of a.static_capabilities) ∙ contains-set_of c a.static_capabilities

-- An agent with exactly these capabilities, in its row and in a stored credential of the gateway.
pub record Holds (agent_id vc_id : String) (has : String → Bool) (w : World) : Type 0 where
  pub row : Agent
  pub stored : get_agent agent_id w ≡ some row
  pub row_capabilities : (c : String) → contains c row.static_capabilities ≡ has c
  pub vc : DelegationCredential
  pub issued : get_credential vc_id w ≡ some vc
  pub subject : vc.subject_id ≡ agent_id
  pub issuer : vc.issuer_id ≡ gateway_system_id
  pub kind : vc.vc_type ≡ agent_vc_type
  pub valid : vc.revoked ≡ false
  pub vc_capabilities : (c : String) → contains c vc.capabilities ≡ has c

unfoldable pub requested_and_allowed : AgentRegisterRequest → PolicyRow → String → Bool
unfolding resolve_requested
requested_and_allowed r p c = contains c (resolve_requested r) && contains c p.allowed_capabilities

-- If `register_agent` returns, the agent's type has a policy, and afterwards the agent's row and a
-- stored credential of the gateway for it, not revoked, under the id returned, hold exactly the
-- capabilities that are requested and allowed by that policy.
pub register_agent-Holds :
    (lib : Libs) (r : AgentRegisterRequest) (w w' : World) (g : Registration)
    → register_agent lib r w ≡ (ok g, w')
    → (p : PolicyRow) × (get_policy "agent" r.agent_type w ≡ some p)
      × Holds r.agent_id g.agent_vc_id (requested_and_allowed r p) w'
unfolding register_agent check_agent register_approved ensure_system_did agent_of
    requested_and_allowed
register_agent-Holds lib r w w' g h =
    let (approval, w₁, checked, h₁) = bind-step _ _ _ h in
    let (is_approval, free) =
      check_agent-ok r w approval (check_name r.agent_id (get_agent_by_name r.name w))
        (ap (λ q. q.0) checked) in
    let (p, found) = not_denied-policy "agent" r.agent_type (resolve_requested r) w free in
    let granted : (c : String) → contains c approval.granted ≡ requested_and_allowed r p c = λ c.
      ap (λ (e : Evaluation). contains c e.granted) (sym is_approval)
      ∙ (evaluate-partition "agent" r.agent_type (resolve_requested r) w p c found).0 in
    let (a, w₂, upserted, h₂) = bind-step _ _ _ h₁ in
    let (row, stored, is_row, a_is, same_credentials, same_dids, same_clock) =
      upsert_agent-IsRowOf (agent_of r approval.granted) a _ w₂ upserted in
    let (u, w₃, ensured, h₃) = bind-step _ _ _ h₂ in
    let (vc, w₄, built, h₄) = bind-step _ _ _ h₃ in
    let (v, w₅, upserted_vc, h₅) = bind-step _ _ _ h₄ in
    let (result, last) = pure-ok h₅ in
    let end : w' ≡ upsert_credential vc w₃ =
      sym (ap (λ q. q.1) upserted_vc ∙ last)
      ∙ ap (upsert_credential vc) (sym (ap (λ q. q.1) built)) in
    let agents : w'.agents ≡ w₂.agents =
      ap (λ (x : World). x.agents) end
      ∙ kept_agents vc w₃
      ∙ ap (λ (x : World). x.agents) (sym (ap (λ q. q.1) ensured))
      ∙ store_system-keeps _ _ w₂ in
    let (subject, issuer, caps, kind, valid) =
      built-vc lib r.agent_id approval.granted r.endpoint r.agent_type vc_days w₃ vc
        (ap (λ q. q.0) built) in
    (
      p,
      found,
      subst (λ (x : Registration). Holds r.agent_id x.agent_vc_id (requested_and_allowed r p) w')
          result
          (record {
            row = row;
            stored = same_row w' w₂ r.agent_id agents ∙ stored;
            row_capabilities = λ c.
                ap (contains c) is_row.capabilities
                ∙ contains-cleaned c (agent_of r approval.granted) w₁
                ∙ granted c;
            vc = vc;
            issued =
                ap (get_credential vc.credential_id) end
                ∙ get_credential-upsert vc.credential_id vc w₃
                ∙ rw (eq_refl vc.credential_id) refl;
            subject = subject;
            issuer = issuer;
            kind = kind;
            valid = valid;
            vc_capabilities =
                λ c. ap (contains c) caps ∙ contains-sorted c approval.granted ∙ granted c;
          }),
    )
