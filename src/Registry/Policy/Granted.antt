-- ===== src/Registry/Policy/Granted.antt =====
-- What `evaluate_capability_request` (app/registry/policy.py) grants, and when it approves.
use bu_iam.Prelude.{
  String, ◌≡◌, refl, sym, ◌∙◌, ap, ◌↔◌, true, not, ◌&&◌, some, List, [], ◌∷◌, arith, eq_refl,
}
use bu_iam.Prelude.Sets.{
  contains, set_of, intersect, minus, sorted, Within, contains-set_of, contains-intersect,
  contains-minus, contains-sorted, minus-nil→Within, Within→minus-nil, sorted-nil,
}
use bu_iam.World.{World, PolicyRow}
use bu_iam.Store.Policies.{get_policy}
use bu_iam.Registry.Policy.{
  approved, kind_text, decide_request, evaluate_with, evaluate_capability_request,
}

contains-granted :
    (c kind : String) (g m : List String)
    → contains c (decide_request kind g m).granted ≡ contains c g
unfolding decide_request contains
contains-granted c kind [] m = refl
contains-granted c kind (x ∷ xs) m = ground arith

contains-missing :
    (c kind : String) (g m : List String)
    → contains c (decide_request kind g m).missing ≡ contains c m
unfolding decide_request contains
contains-missing c kind [] m = refl
contains-missing c kind (x ∷ xs) [] = refl
contains-missing c kind (x ∷ xs) (y ∷ ys) = refl

-- Under a policy, a request for something is decided on what it allows.
module _ (p : PolicyRow) (kind : String) (requested : List String) where
  with-granted :
      (c : String)
      → contains c (evaluate_with (some p) kind requested).granted
        ≡ (contains c requested && contains c p.allowed_capabilities)
  unfolding evaluate_with
  with-granted c =
      contains-granted c kind (sorted (intersect (set_of requested) p.allowed_capabilities))
        (sorted (minus (set_of requested) p.allowed_capabilities))
      ∙ contains-sorted c (intersect (set_of requested) p.allowed_capabilities)
      ∙ contains-intersect c (set_of requested) p.allowed_capabilities
      ∙ ap (λ b. b && contains c p.allowed_capabilities) (contains-set_of c requested)

  with-missing :
      (c : String)
      → contains c (evaluate_with (some p) kind requested).missing
        ≡ (contains c requested && not (contains c p.allowed_capabilities))
  unfolding evaluate_with
  with-missing c =
      contains-missing c kind (sorted (intersect (set_of requested) p.allowed_capabilities))
        (sorted (minus (set_of requested) p.allowed_capabilities))
      ∙ contains-sorted c (minus (set_of requested) p.allowed_capabilities)
      ∙ contains-minus c (set_of requested) p.allowed_capabilities
      ∙ ap (λ b. b && not (contains c p.allowed_capabilities)) (contains-set_of c requested)

decide_request-approved :
    (kind : String) (g m : List String) → (decide_request kind g m).decision ≡ approved → m ≡ []
unfolding decide_request
decide_request-approved kind [] m h = absurd (cc)
decide_request-approved kind (x ∷ xs) [] h = refl
decide_request-approved kind (x ∷ xs) (y ∷ ys) h = absurd (cc)

approved-decide_request :
    (kind x : String) (g m : List String)
    → contains x g ≡ true
    → m ≡ []
    → (decide_request kind g m).decision ≡ approved
unfolding decide_request contains
approved-decide_request kind x [] m h none_missing = absurd (cc)
approved-decide_request kind x (y ∷ ys) m h none_missing = rw none_missing refl

approved-Within :
    (p : PolicyRow) (kind : String) (requested : List String)
    → (evaluate_with (some p) kind requested).decision ≡ approved
    → Within requested p.allowed_capabilities
unfolding evaluate_with
approved-Within p kind requested h c m =
    minus-nil→Within (set_of requested) p.allowed_capabilities
      (sorted-nil (minus (set_of requested) p.allowed_capabilities) (
        decide_request-approved kind (sorted (intersect (set_of requested) p.allowed_capabilities))
          (sorted (minus (set_of requested) p.allowed_capabilities)) h))
      c (contains-set_of c requested ∙ m)

Within-approved :
    (p : PolicyRow) (kind x : String) (requested : List String)
    → contains x requested ≡ true
    → Within requested p.allowed_capabilities
    → (evaluate_with (some p) kind requested).decision ≡ approved
unfolding evaluate_with
Within-approved p kind x requested asked h =
    let allowed = p.allowed_capabilities in
    let known : Within (set_of requested) allowed =
      λ c m. h c (sym (contains-set_of c requested) ∙ m) in
    approved-decide_request kind x (sorted (intersect (set_of requested) allowed))
      (sorted (minus (set_of requested) allowed))
      (contains-sorted x (intersect (set_of requested) allowed)
        ∙ contains-intersect x (set_of requested) allowed
        ∙ ground (arith, contains-set_of x requested, asked, h x asked))
      (rw (Within→minus-nil (set_of requested) allowed known) (unfold sorted in refl))

-- Under a policy, a capability is granted exactly if it is requested and allowed, and reported as
-- missing exactly if it is requested and not allowed.
pub evaluate-partition :
    (s a : String) (requested : List String) (w : World) (p : PolicyRow) (c : String)
    → get_policy s a w ≡ some p
    → (contains c (evaluate_capability_request s a requested w).granted
        ≡ (contains c requested && contains c p.allowed_capabilities))
      × (contains c (evaluate_capability_request s a requested w).missing
          ≡ (contains c requested && not (contains c p.allowed_capabilities)))
unfolding evaluate_capability_request contains
evaluate-partition s a [] w p c found = (refl, refl)
evaluate-partition s a (x ∷ xs) w p c found = (
  rw found (with-granted p (kind_text s a) (x ∷ xs) c),
  rw found (with-missing p (kind_text s a) (x ∷ xs) c),
)

-- Under a policy, a request for at least one capability is approved exactly if the policy allows
-- all that it asks for.
pub evaluate-approved :
    (s a : String) (x : String) (xs : List String) (w : World) (p : PolicyRow)
    → get_policy s a w ≡ some p
    → ((evaluate_capability_request s a (x ∷ xs) w).decision ≡ approved)
      ↔ Within (x ∷ xs) p.allowed_capabilities
unfolding evaluate_capability_request
evaluate-approved s a x xs w p found = (
  λ h. approved-Within p (kind_text s a) (x ∷ xs) (rw found at h),
  λ h.
      rw found
        (Within-approved p (kind_text s a) x (x ∷ xs) (unfold contains in rw (eq_refl x) refl) h),
)
