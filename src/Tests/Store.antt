-- ===== src/Tests/Store.antt =====
-- The theorems on the tables, at a root credential with one below it and a token for it.
use bu_iam.Prelude.{ℕ, String, ◌≡◌, refl, some, List, [], ◌∷◌, ◌==◌, if◌then◌else◌}
use bu_iam.Prelude.Sets.{contains}
use bu_iam.World.{World}
use bu_iam.Store.Credentials.{
  get_credential, list_credentials, walk, mark_revoked, revoke_credential_tree,
}
use bu_iam.Store.Credentials.Walk.{Descends, here, walk-Descends}
use bu_iam.Store.Credentials.Revoke.{
  family, revoke_credential_tree_total, get_credential-revoke_tree_below,
  get_credential-revoke_tree_beside,
}
use bu_iam.Store.Tokens.{get_token, store_token, was_revoked}
use bu_iam.Store.Tokens.Rows.{get_token-store}
use bu_iam.Tests.Fixtures.{root_vc, child_vc, with_child, child_revoked, root_token, token_revoked}

child-revoked :
    revoke_credential_tree "ROOT{}{}" "lost" with_child ≡ some ((1, "trace" ∷ []), child_revoked)
unfolding revoke_credential_tree
child-revoked = refl

revoke_credential_tree_total_example :
    (out : ℕ × List String) × (w' : World) × (revoke_credential_tree "ROOT{}" "lost" with_child
      ≡ some (out, w'))
unfolding get_credential
revoke_credential_tree_total_example =
    revoke_credential_tree_total "ROOT{}" "lost" with_child root_vc refl

get_credential-revoke_tree_below_example :
    get_credential "ROOT{}{}" child_revoked ≡ some (mark_revoked 10 "lost" child_vc)
unfolding get_credential
get_credential-revoke_tree_below_example =
    get_credential-revoke_tree_below "ROOT{}{}" "lost" "ROOT{}{}" with_child child_revoked child_vc
      child_vc (1, "trace" ∷ []) refl child-revoked here refl

root-beside : ¬ Descends (family child_vc with_child) "ROOT{}{}" "ROOT{}"
unfolding walk list_credentials contains
root-beside d =
    let inside =
      (walk-Descends 4 (family child_vc with_child) "ROOT{}{}" ("ROOT{}{}" ∷ []) "ROOT{}" refl).1
        d in
    cc

get_credential-revoke_tree_beside_example :
    get_credential "ROOT{}" child_revoked ≡ get_credential "ROOT{}" with_child
unfolding get_credential
get_credential-revoke_tree_beside_example =
    get_credential-revoke_tree_beside "ROOT{}{}" "lost" "ROOT{}" with_child child_revoked child_vc
      (1, "trace" ∷ []) refl child-revoked root-beside

get_token-store_example : get_token "token" (store_token root_token token_revoked) ≡ (
    if root_token.jti == "token"
    then some (record root_token { revoked = was_revoked (get_token "token" token_revoked) })
    else get_token "token" token_revoked)
get_token-store_example = get_token-store "token" root_token token_revoked
