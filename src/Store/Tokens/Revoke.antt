-- ===== src/Store/Tokens/Revoke.antt =====
-- Revoking a token with its credentials (app/store/tokens.py).
use mathlib.Core.Option.{some-injective}
use bu_iam.Prelude.{
  ℕ, String, ◌≡◌, refl, sym, ◌∙◌, ap, inl, inr, Bool, true, Option, none, some, List, [], ◌∷◌,
  arith, Option-cases, Bool-cases, ltb, ◌==◌, eq_refl,
}
use bu_iam.World.{World, StoredToken}
use bu_iam.Store.Credentials.Revoke.{revoke_credential_tree-returns, revoke_credential_tree-SameBut}
use bu_iam.Store.Tokens.{
  find_token, get_token, revoke_row, rows_with, revoke_tree_of, revoke_token_and_credentials,
}
use bu_iam.Store.Tokens.Rows.{find-revoke_row}

abbrev marked : String → World → World
marked jti w = record w { tokens = revoke_row jti w.tokens }

revoke_tree_of-returns :
    (stored : Option StoredToken) (reason : String) (w : World)
    → (out : ℕ × List String) × (w' : World) × (revoke_tree_of stored reason w ≡ some (out, w'))
unfolding revoke_tree_of
revoke_tree_of-returns none reason w = ((0, []), w, refl)
revoke_tree_of-returns (some t) reason w = elim (Option-cases t.credential_id) [
  | inl no_credential ↦ ((0, []), w, rw (no_credential, revoke_tree_of))
  | inr (cid, has) ↦ elim (Bool-cases (cid == "")) [
    | inl empty ↦ ((0, []), w, rw (has, revoke_tree_of, empty))
    | inr named ↦
        let (out, w', ran) = revoke_credential_tree-returns cid reason w in
        (out, w', rw (has, revoke_tree_of, named) ran)
  ]
]

revoke_tree_of-tokens :
    (stored : Option StoredToken) (reason : String) (w w' : World) (out : ℕ × List String)
    → revoke_tree_of stored reason w ≡ some (out, w')
    → w'.tokens ≡ w.tokens
unfolding revoke_tree_of
revoke_tree_of-tokens none reason w w' out ran = ground (arith, ran)
revoke_tree_of-tokens (some t) reason w w' out ran = elim (Option-cases t.credential_id) [
  | inl no_credential ↦ ground (arith, ran)
  | inr (cid, has) ↦ elim (Bool-cases (cid == "")) [
    | inl empty ↦ ground (arith, ran)
    | inr named ↦
        (revoke_credential_tree-SameBut cid reason w w' out
          (rw (has, revoke_tree_of, named) at ran)).tokens
  ]
]

revoke_token-tree :
    (jti reason : String) (w w' : World) (out : ℕ × List String)
    → revoke_tree_of (get_token jti w) reason (marked jti w) ≡ some (out, w')
    → revoke_token_and_credentials jti reason w ≡ some ((ltb 0 (rows_with jti w.tokens), out.1), w')
revoke_token-tree jti reason w w' out tree =
    unfold revoke_token_and_credentials in rw (tree, revoke_token_and_credentials)

-- `revoke_token_and_credentials` returns a result for every token id.
pub revoke_token_total :
    (jti reason : String) (w : World)
    → (out : Bool × List String) × (w' : World) × (revoke_token_and_credentials jti reason w
        ≡ some (out, w'))
revoke_token_total jti reason w =
    let (out, w', ran) = revoke_tree_of-returns (get_token jti w) reason (marked jti w) in
    ((ltb 0 (rows_with jti w.tokens), out.1), w', revoke_token-tree jti reason w w' out ran)

rows_with-pos :
    (jti : String) (ts : List StoredToken) (t : StoredToken)
    → find_token jti ts ≡ some t
    → ltb 0 (rows_with jti ts) ≡ true
unfolding find_token rows_with
rows_with-pos jti [] t e = cc
rows_with-pos jti (x ∷ xs) t e = ground (arith, rows_with-pos jti xs t)

-- If revoking a stored token has returned, it reports that a token was there, and the token is
-- read back with its flag set and otherwise as it was.
pub get_token-revoke :
    (jti reason : String) (w w' : World) (t : StoredToken) (out : Bool × List String)
    → get_token jti w ≡ some t
    → revoke_token_and_credentials jti reason w ≡ some (out, w')
    → (out.0 ≡ true) × (get_token jti w' ≡ some (record t { revoked = true }))
unfolding get_token
get_token-revoke jti reason w w' t out found ran =
    let (o, v, tree) = revoke_tree_of-returns (get_token jti w) reason (marked jti w) in
    let same : ((ltb 0 (rows_with jti w.tokens), o.1), v) ≡ (out, w') =
      some-injective _ _ (sym (revoke_token-tree jti reason w v o tree) ∙ ran) in
    let rows : w'.tokens ≡ revoke_row jti w.tokens =
      ap (λ (p : (Bool × List String) × World). p.1.tokens) (sym same)
      ∙ revoke_tree_of-tokens (get_token jti w) reason (marked jti w) v o tree in
    (
      ap (λ (p : (Bool × List String) × World). p.0.0) (sym same)
          ∙ rows_with-pos jti w.tokens t found,
      rw rows (find-revoke_row jti jti w.tokens t found ∙ rw (eq_refl jti)),
    )
