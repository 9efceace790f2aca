-- ===== src/Delegation/Service/Covered.antt =====
-- The sets that meet in a decision of `authorize` (app/delegation/service.py), and when they allow.
use bu_iam.Prelude.{
  String, ◌≡◌, refl, sym, ◌∙◌, inl, inr, Bool, true, false, ◌&&◌, Option, List, [], ◌∷◌, arith,
  or_list, Bool-cases,
}
use bu_iam.Prelude.Sets.{
  contains, set_of, minus, Within, contains-sorted, minus-nil→Within, Within→minus-nil,
}
use bu_iam.Prelude.Result.{Result, ok, err, >>=-eq-ok}
use bu_iam.Libs.{Libs}
use bu_iam.Protocol.{allow, deny, AuthContext, DelegationCredential, DelegationEnvelope}
use bu_iam.Protocol.Decision.{DelegationDecision}
use bu_iam.Protocol.Errors.{Exception, credential_error, value_error}
use bu_iam.World.{World}
use bu_iam.Store.Agents.{non_empty}
use bu_iam.Delegation.Capabilities.{
  known_capabilities, parse_capabilities, in_all, contains-intersect_capabilities,
}
use bu_iam.Delegation.Capabilities.Parse.{parse_capabilities-ok, parse_capabilities-Within}
use bu_iam.Delegation.Service.{
  denied, Sets, parse_sets, effective_of, decide, decide_parsed, decide_validated, with_sets,
}

-- The four sets of a request, by what the code reads them from.
abbrev pub sets_of : DelegationEnvelope → AuthContext → List String → Sets
sets_of e a target = record {
  requested = set_of e.requested_capabilities;
  caller_token = set_of a.capabilities;
  target = target;
  user = set_of (or_list a.user_capabilities a.capabilities);
}

contains-effective_of :
    (c : String) (s : Sets)
    → contains c (effective_of s) ≡ (
        contains c s.caller_token
        && (contains c s.target && (contains c s.requested && (contains c s.user && true))))
unfolding effective_of
contains-effective_of c s =
    contains-intersect_capabilities c s.caller_token (s.target ∷ s.requested ∷ s.user ∷ [])
    ∙ unfold in_all in refl

-- All that is requested is in the token, held by the target, and granted to the user.
pub record Covered (s : Sets) : Type 0 where
  pub by_token : Within s.requested s.caller_token
  pub by_target : Within s.requested s.target
  pub by_user : Within s.requested s.user

Covered-effective : (s : Sets) → Covered s → Within s.requested (effective_of s)
Covered-effective s v c m =
    ground (arith, contains-effective_of c s, m, v.by_token c m, v.by_target c m, v.by_user c m)

effective-Covered : (s : Sets) → Within s.requested (effective_of s) → Covered s
effective-Covered s h = record {
  by_token = λ c m. ground (arith, contains-effective_of c s, m, h c m);
  by_target = λ c m. ground (arith, contains-effective_of c s, m, h c m);
  by_user = λ c m. ground (arith, contains-effective_of c s, m, h c m);
}

non_empty-false : (xs : List String) → non_empty xs ≡ false → xs ≡ []
non_empty-false [] h = refl
non_empty-false (x ∷ xs) h = cc

pub decide-allow :
    (lib : Libs) (s : Sets) (t : String) (w : World)
    → (decide lib s t w).decision ≡ allow
    → Covered s
unfolding decide with_sets
decide-allow lib s t w h = elim (Bool-cases (non_empty (minus s.requested (effective_of s)))) [
  | inl some_missing ↦ absurd (ground (arith, some_missing, h))
  | inr none_missing ↦ effective-Covered s (minus-nil→Within _ _ (non_empty-false _ none_missing))
]

pub Covered-decide :
    (lib : Libs) (s : Sets) (t : String) (w : World)
    → Covered s
    → (decide lib s t w).decision ≡ allow
unfolding decide with_sets
Covered-decide lib s t w v =
    rw (Within→minus-nil s.requested (effective_of s) (Covered-effective s v))

-- On both branches the effective capabilities are the intersection.
pub effective-decide :
    (lib : Libs) (s : Sets) (t : String) (w : World) (c : String)
    → contains c (decide lib s t w).effective_capabilities ≡ contains c (effective_of s)
unfolding decide with_sets
effective-decide lib s t w c = elim (Bool-cases (non_empty (minus s.requested (effective_of s)))) [
  | inl some_missing ↦ rw some_missing (contains-sorted c (effective_of s))
  | inr none_missing ↦ rw none_missing (contains-sorted c (effective_of s))
]

pub Covered-contains :
    (s : Sets) → Covered s → (c : String) → contains c (effective_of s) ≡ contains c s.requested
Covered-contains s v c = elim (Bool-cases (contains c s.requested)) [
  | inl asked ↦ Covered-effective s v c asked ∙ sym asked
  | inr not_asked ↦ ground (arith, contains-effective_of c s, not_asked)
]

pub parse_sets-ok :
    (lib : Libs) (e : DelegationEnvelope) (a : AuthContext) (target : List String) (w : World)
    (s : Sets)
    → parse_sets lib e a target w ≡ ok s
    → (s ≡ sets_of e a target)
      × Within e.requested_capabilities (known_capabilities w)
      × Within a.capabilities (known_capabilities w)
      × Within (or_list a.user_capabilities a.capabilities) (known_capabilities w)
unfolding parse_sets
parse_sets-ok lib e a target w s h =
    let (r, pr, h₁) = >>=-eq-ok (parse_capabilities lib e.requested_capabilities _) _ h in
    let (t, pt, h₂) = >>=-eq-ok (parse_capabilities lib a.capabilities _) _ h₁ in
    let (u, pu, h₃) =
      >>=-eq-ok (parse_capabilities lib (or_list a.user_capabilities a.capabilities) _) _ h₂ in
    let (re, rk) = parse_capabilities-ok lib e.requested_capabilities _ r pr in
    let (te, tk) = parse_capabilities-ok lib a.capabilities _ t pt in
    let (ue, uk) = parse_capabilities-ok lib (or_list a.user_capabilities a.capabilities) _ u pu in
    (ground (arith, h₃, re, te, ue), rk, tk, uk)

pub parse_sets-Within :
    (lib : Libs) (e : DelegationEnvelope) (a : AuthContext) (target : List String) (w : World)
    → Within e.requested_capabilities (known_capabilities w)
    → Within a.capabilities (known_capabilities w)
    → Within (or_list a.user_capabilities a.capabilities) (known_capabilities w)
    → parse_sets lib e a target w ≡ ok (sets_of e a target)
unfolding parse_sets
parse_sets-Within lib e a target w rk tk uk = rw (
  parse_capabilities-Within lib e.requested_capabilities (known_capabilities w) rk,
  parse_capabilities-Within lib a.capabilities (known_capabilities w) tk,
  parse_capabilities-Within lib (or_list a.user_capabilities a.capabilities) (known_capabilities w)
      uk,
)

denied-decision :
    (requested : List String) (reason : String) (recoverable : Bool)
    → (denied requested reason recoverable).decision ≡ deny
unfolding denied
denied-decision requested reason recoverable = refl

-- A decision that is a denial allows nothing.
pub not-allow :
    (requested : List String) (reason : String) (recoverable : Bool) (d : DelegationDecision)
    → ◌≡◌ {A = Result Exception DelegationDecision}
        (ok (denied requested reason recoverable))
        (ok d)
    → d.decision ≡ allow
    → ⊥
unfolding denied
not-allow requested reason recoverable d e h = ground (arith, e, h)

pub decide_parsed-allow :
    (lib : Libs) (e : DelegationEnvelope) (r : Result Exception Sets) (w : World)
    (d : DelegationDecision)
    → decide_parsed lib e r w ≡ ok d
    → d.decision ≡ allow
    → (s : Sets) × (r ≡ ok s) × (d ≡ decide lib s e.target_agent_id w)
unfolding decide_parsed
decide_parsed-allow lib e (ok s) w d h allowed = (s, refl, cc)
decide_parsed-allow lib e (err (value_error message)) w d h allowed =
    absurd (not-allow e.requested_capabilities message true d h allowed)
decide_parsed-allow lib e (err _) w d h allowed = absurd (cc)

pub decide_validated-allow :
    (lib : Libs) (e : DelegationEnvelope) (a : AuthContext) (target : List String)
    (r : Result Exception (Option DelegationCredential)) (w : World) (d : DelegationDecision)
    → decide_validated lib e a target r w ≡ ok d
    → d.decision ≡ allow
    → (c : Option DelegationCredential) × (r ≡ ok c)
      × (decide_parsed lib e (parse_sets lib e a target w) w ≡ ok d)
unfolding decide_validated
decide_validated-allow lib e a target (ok c) w d h allowed = (c, refl, h)
decide_validated-allow lib e a target (err (credential_error code message)) w d h allowed =
    absurd (not-allow e.requested_capabilities _ false d h allowed)
decide_validated-allow lib e a target (err _) w d h allowed = absurd (cc)
