-- ===== src/Store/Credentials/Revoke.antt =====
-- `revoke_credential_tree` (app/store/delegation_credentials.py) as a whole.
use mathlib.Core.Option.{some-injective}
use bu_iam.Prelude.{
  sym, ◌∙◌, ap, subst, ◌↔◌, ℕ, String, ◌≡◌, refl, inl, inr, true, none, some, List, [], ◌∷◌,
  Bool-cases, Option-cases, length,
}
use bu_iam.Prelude.Sets.{contains, set_of, sorted}
use bu_iam.Protocol.{DelegationCredential}
use bu_iam.World.{World}
use bu_iam.Store.Credentials.{
  get_credential, list_credentials, walk, revoke_fuel, revoke_with, revoke_found, mark_revoked,
  revoke_rows, traces_of, revoke_credential_tree,
}
use bu_iam.Store.Credentials.Rows.{get_credential-revoke_rows_in, get_credential-revoke_rows_out}
use bu_iam.Store.Credentials.Walk.{Descends, walk-revoke_fuel, walk-Descends}

-- The credentials that `revoke_credential_tree` reads, those of the target's root.
abbrev pub family : DelegationCredential → World → List DelegationCredential
family target w = list_credentials none (some target.root_credential_id) w

abbrev revoked_world : World → String → List String → World
revoked_world w reason ids = record w { credentials = revoke_rows w.clock reason ids w.credentials }

abbrev outcome : List String → DelegationCredential → World → ℕ × List String
outcome ids target w = (length ids, sorted (set_of (traces_of ids (family target w))))

module _ (cid reason : String) (w : World) (target : DelegationCredential)
    (found : get_credential cid w ≡ some target) where
  revoke-walk :
      (ids : List String)
      → walk (revoke_fuel (family target w)) (family target w) (cid ∷ []) [] ≡ some ids
      → revoke_credential_tree cid reason w
        ≡ some (outcome ids target w, revoked_world w reason ids)
  unfolding revoke_credential_tree revoke_with
  revoke-walk ids walked = rw (found, revoke_found, walked) refl

  -- The set of ids behind a result.
  revoke-ids :
      (out : ℕ × List String) (w' : World)
      → revoke_credential_tree cid reason w ≡ some (out, w')
      → (ids : List String) × ((x : String)
          → (contains x ids ≡ true) ↔ Descends (family target w) cid x)
        × (revoked_world w reason ids ≡ w')
        × (outcome ids target w ≡ out)
  revoke-ids out w' ran =
      let (ids, walked) = walk-revoke_fuel (family target w) cid in
      let same : (outcome ids target w, revoked_world w reason ids) ≡ (out, w') =
        some-injective _ _ (sym (revoke-walk ids walked) ∙ ran) in
      (
        ids,
        λ x. walk-Descends _ (family target w) cid ids x walked,
        ap (λ p. p.1) same,
        ap (λ p. p.0) same,
      )

-- On a stored credential the loop of `revoke_credential_tree` ends and there is a result.
pub revoke_credential_tree_total :
    (cid reason : String) (w : World) (target : DelegationCredential)
    → get_credential cid w ≡ some target
    → (out : ℕ × List String) × (w' : World) × (revoke_credential_tree cid reason w
        ≡ some (out, w'))
revoke_credential_tree_total cid reason w target found =
    let (ids, walked) = walk-revoke_fuel (family target w) cid in
    (
      outcome ids target w,
      revoked_world w reason ids,
      revoke-walk cid reason w target found ids walked,
    )

-- If `revoke_credential_tree` has returned on a stored credential, every credential stored under
-- an id at or below it among the credentials of its root is afterwards the same but marked
-- revoked, at the present time and with the reason given.
pub get_credential-revoke_tree_below :
    (cid reason x : String) (w w' : World) (target c : DelegationCredential) (out : ℕ × List String)
    → get_credential cid w ≡ some target
    → revoke_credential_tree cid reason w ≡ some (out, w')
    → Descends (family target w) cid x
    → get_credential x w ≡ some c
    → get_credential x w' ≡ some (mark_revoked w.clock reason c)
get_credential-revoke_tree_below cid reason x w w' target c out found ran d stored =
    let (ids, exact, same, _) = revoke-ids cid reason w target found out w' ran in
    subst (λ v. get_credential x v ≡ some (mark_revoked w.clock reason c)) same
      (get_credential-revoke_rows_in reason x ids w c ((exact x).1 d) stored)

-- If `revoke_credential_tree` has returned on a stored credential, an id that does not lie at or
-- below it among the credentials of its root reads afterwards as it did before.
pub get_credential-revoke_tree_beside :
    (cid reason x : String) (w w' : World) (target : DelegationCredential) (out : ℕ × List String)
    → get_credential cid w ≡ some target
    → revoke_credential_tree cid reason w ≡ some (out, w')
    → ¬ Descends (family target w) cid x
    → get_credential x w' ≡ get_credential x w
get_credential-revoke_tree_beside cid reason x w w' target out found ran apart =
    let (ids, exact, same, _) = revoke-ids cid reason w target found out w' ran in
    subst (λ v. get_credential x v ≡ get_credential x w) same
      (get_credential-revoke_rows_out reason x ids w (elim (Bool-cases (contains x ids)) [
        | inl is_in ↦ absurd (apart ((exact x).0 is_in))
        | inr is_out ↦ is_out
      ]))

-- Without such a credential nothing happens.
pub revoke_credential_tree-none :
    (cid reason : String) (w : World)
    → get_credential cid w ≡ none
    → revoke_credential_tree cid reason w ≡ some ((0, []), w)
unfolding revoke_credential_tree
revoke_credential_tree-none cid reason w missing = rw (missing, revoke_found)

-- The other tables and the clock stay as they are.
pub record SameBut (w w' : World) : Type 0 where
  pub clock : w'.clock ≡ w.clock
  pub agents : w'.agents ≡ w.agents
  pub tokens : w'.tokens ≡ w.tokens
  pub did_documents : w'.did_documents ≡ w.did_documents
  pub audit_logs : w'.audit_logs ≡ w.audit_logs

SameBut-along : (w v w' : World) → SameBut w v → v ≡ w' → SameBut w w'
SameBut-along w v w' s e = subst (SameBut w) e s

pub revoke_credential_tree-SameBut :
    (cid reason : String) (w w' : World) (out : ℕ × List String)
    → revoke_credential_tree cid reason w ≡ some (out, w')
    → SameBut w w'
revoke_credential_tree-SameBut cid reason w w' out ran =
    elim (Option-cases (get_credential cid w)) [
      | inl missing ↦
          let same : ((0, []), w) ≡ (out, w') =
            some-injective _ _ (sym (revoke_credential_tree-none cid reason w missing) ∙ ran) in
          SameBut-along w w w'
            (record {
              clock = refl;
              agents = refl;
              tokens = refl;
              did_documents = refl;
              audit_logs = refl;
            })
            (ap (λ p. p.1) same)
      | inr (target, found) ↦
          let (ids, _, same, _) = revoke-ids cid reason w target found out w' ran in
          SameBut-along w (revoked_world w reason ids) w'
            (record {
              clock = refl;
              agents = refl;
              tokens = refl;
              did_documents = refl;
              audit_logs = refl;
            })
            same
    ]

-- With or without such a credential there is a result.
pub revoke_credential_tree-returns :
    (cid reason : String) (w : World)
    → (out : ℕ × List String) × (w' : World) × (revoke_credential_tree cid reason w
        ≡ some (out, w'))
revoke_credential_tree-returns cid reason w = elim (Option-cases (get_credential cid w)) [
  | inl missing ↦ ((0, []), w, revoke_credential_tree-none cid reason w missing)
  | inr (target, found) ↦ revoke_credential_tree_total cid reason w target found
]
