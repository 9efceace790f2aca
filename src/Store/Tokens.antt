-- ===== src/Store/Tokens.antt =====
-- app/store/tokens.py: the issued tokens, and the ids of those that were presented.
pub mod Rows
pub mod Revoke
use bu_iam.Prelude.{
  ℕ, suc, ◌+◌, ◌-◌, ◌*◌, String, Bool, true, false, not, ◌&&◌, Option, none, some, List, [], ◌∷◌,
  ◌++◌, ltb, ◌==◌, truthy, if◌then◌else◌,
}
use bu_iam.Prelude.Sets.{sorted}
use bu_iam.Libs.{Libs}
use bu_iam.World.{World, StoredToken, JtiRow}
use bu_iam.Store.Credentials.{revoke_credential_tree}

unfoldable pub find_token : String → List StoredToken → Option StoredToken
find_token jti [] = none
find_token jti (t ∷ ts) = if t.jti == jti then some t else find_token jti ts

unfoldable pub get_token : String → World → Option StoredToken
unfolding find_token
get_token jti w = find_token jti w.tokens

-- COALESCE((SELECT revoked FROM tokens WHERE jti = ?), 0)
unfoldable pub was_revoked : Option StoredToken → Bool
was_revoked none = false
was_revoked (some t) = t.revoked

-- INSERT OR REPLACE: the old row goes, the new one gets the last place.
unfoldable pub replace_token : StoredToken → List StoredToken → List StoredToken
replace_token t [] = t ∷ []
replace_token t (x ∷ xs) =
    let rest = replace_token t xs in if x.jti == t.jti then rest else x ∷ rest

-- The row's own `revoked` does not count: the stored flag is kept.
unfoldable pub store_token : StoredToken → World → World
unfolding was_revoked get_token replace_token
store_token t w = record w {
  tokens = replace_token (record t { revoked = was_revoked (get_token t.jti w) }) w.tokens;
}

-- UPDATE tokens SET revoked = 1 WHERE jti = ?
unfoldable pub revoke_row : String → List StoredToken → List StoredToken
revoke_row jti [] = []
revoke_row jti (t ∷ ts) =
    (if t.jti == jti then record t { revoked = true } else t) ∷ revoke_row jti ts

-- cursor.rowcount of that update
unfoldable pub rows_with : String → List StoredToken → ℕ
rows_with jti [] = 0
rows_with jti (t ∷ ts) = if t.jti == jti then suc (rows_with jti ts) else rows_with jti ts

unfoldable pub revoke_tree_of :
    Option StoredToken → String → World → Option ((ℕ × List String) × World)
revoke_tree_of none reason w = some ((0, []), w)
revoke_tree_of (some t) reason w = elim t.credential_id [
  | none ↦ some ((0, []), w)
  | some cid ↦ if truthy (some cid) then revoke_credential_tree cid reason w else some ((0, []), w)
]

-- Whether a token was there, and the traces of the credentials that went with it; `none` is a loop
-- of `revoke_credential_tree` that runs on.
unfoldable pub revoke_token_and_credentials :
    String → String → World → Option ((Bool × List String) × World)
unfolding get_token revoke_row rows_with revoke_tree_of
revoke_token_and_credentials jti reason w =
    let stored = get_token jti w in
    let marked : World = record w { tokens = revoke_row jti w.tokens } in
    elim (revoke_tree_of stored reason marked) [
      | none ↦ none
      | some (out, w') ↦ some ((ltb 0 (rows_with jti w.tokens), out.1), w')
    ]

unfoldable pub revoke_token : String → String → World → Option (Bool × World)
unfolding revoke_token_and_credentials
revoke_token jti reason w = elim (revoke_token_and_credentials jti reason w) [
  | none ↦ none
  | some (out, w') ↦ some (out.0, w')
]

-- WHERE agent_id = ? AND revoked = 0 AND exp > ?
unfoldable pub batch_hits : String → ℕ → StoredToken → Bool
batch_hits agent_id now t = t.agent_id == agent_id && (not t.revoked && ltb now t.exp)

unfoldable pub batch_rows : String → ℕ → List StoredToken → List StoredToken
unfolding batch_hits
batch_rows agent_id now [] = []
batch_rows agent_id now (t ∷ ts) =
    (if batch_hits agent_id now t then record t { revoked = true } else t)
    ∷ batch_rows agent_id now ts

unfoldable pub batch_count : String → ℕ → List StoredToken → ℕ
unfolding batch_hits
batch_count agent_id now [] = 0
batch_count agent_id now (t ∷ ts) =
    if batch_hits agent_id now t
    then suc (batch_count agent_id now ts)
    else batch_count agent_id now ts

unfoldable pub batch_revoke_tokens_by_agent : String → World → ℕ × World
unfolding batch_rows batch_count
batch_revoke_tokens_by_agent agent_id w = (
  batch_count agent_id w.clock w.tokens,
  record w { tokens = batch_rows agent_id w.clock w.tokens },
)

-- DELETE FROM tokens WHERE exp < ?
unfoldable pub unexpired_rows : ℕ → List StoredToken → List StoredToken
unexpired_rows now [] = []
unexpired_rows now (t ∷ ts) =
    let rest = unexpired_rows now ts in if ltb t.exp now then rest else t ∷ rest

-- DELETE FROM jti_seen WHERE first_seen_at < ?
unfoldable pub recent_rows : ℕ → List JtiRow → List JtiRow
recent_rows cutoff [] = []
recent_rows cutoff (r ∷ rs) =
    let rest = recent_rows cutoff rs in if ltb r.first_seen_at cutoff then rest else r ∷ rest

unfoldable pub old_count : ℕ → List JtiRow → ℕ
old_count cutoff [] = 0
old_count cutoff (r ∷ rs) =
    let rest = old_count cutoff rs in if ltb r.first_seen_at cutoff then suc rest else rest

-- One cursor runs both statements, so its `rowcount` is that of the second.
unfoldable pub cleanup_expired_tokens : Libs → World → ℕ × World
unfolding unexpired_rows recent_rows old_count
cleanup_expired_tokens lib w =
    let cutoff = lib.local_time (w.clock - 86400 * 7) in
    (
      old_count cutoff w.jti_seen,
      record w {
        tokens = unexpired_rows w.clock w.tokens;
        jti_seen = recent_rows cutoff w.jti_seen;
      },
    )

unfoldable pub jti_known : String → List JtiRow → Bool
jti_known jti [] = false
jti_known jti (r ∷ rs) = if r.jti == jti then true else jti_known jti rs

-- INSERT OR IGNORE
unfoldable pub mark_jti_seen : String → World → World
unfolding jti_known
mark_jti_seen jti w =
    if jti_known jti w.jti_seen
    then w
    else record w { jti_seen = w.jti_seen ++ record { jti = jti; first_seen_at = w.clock } ∷ [] }
