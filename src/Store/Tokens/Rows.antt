-- ===== src/Store/Tokens/Rows.antt =====
-- What the operations of app/store/tokens.py do to the token that is read back.
use bu_iam.Prelude.{
  String, ◌≡◌, refl, true, some, List, [], ◌∷◌, arith, ◌==◌, eq_iff, if◌then◌else◌,
}
use bu_iam.World.{World, StoredToken}
use bu_iam.Store.Tokens.{find_token, get_token, was_revoked, replace_token, store_token, revoke_row}

find-replace_token :
    (jti : String) (t : StoredToken) (ts : List StoredToken)
    → find_token jti (replace_token t ts) ≡ (if t.jti == jti then some t else find_token jti ts)
unfolding find_token replace_token
find-replace_token jti t [] = refl
find-replace_token jti t (x ∷ xs) =
    ground
      (arith, find-replace_token jti t xs, eq_iff x.jti t.jti, eq_iff t.jti jti, eq_iff x.jti jti)

-- After `store_token`, the token is read back under its id with the revocation flag that was
-- stored before, and every other id reads as before.
pub get_token-store :
    (jti : String) (t : StoredToken) (w : World)
    → get_token jti (store_token t w) ≡ (
        if t.jti == jti
        then some (record t { revoked = was_revoked (get_token t.jti w) })
        else get_token jti w)
unfolding get_token store_token
get_token-store jti t w = find-replace_token jti _ w.tokens

pub find-revoke_row :
    (jti j : String) (ts : List StoredToken) (t : StoredToken)
    → find_token j ts ≡ some t
    → find_token j (revoke_row jti ts) ≡ some (if jti == j then record t { revoked = true } else t)
unfolding find_token revoke_row
find-revoke_row jti j [] t e = cc
find-revoke_row jti j (x ∷ xs) t e =
    ground (arith, find-revoke_row jti j xs t, eq_iff x.jti jti, eq_iff x.jti j, eq_iff jti j)
