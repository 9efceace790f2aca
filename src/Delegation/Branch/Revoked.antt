-- ===== src/Delegation/Branch/Revoked.antt =====
-- After `revoke_credential_tree` (app/store/delegation_credentials.py) no credential of the revoked
-- tree passes `validate_credential_branch` (app/delegation/service.py).
use mathlib.Core.Option.{some-injective}
use bu_iam.Prelude.{sym, ◌∙◌, ap, ℕ, String, ◌≡◌, ◌≢◌, Bool, true, some, List}
use bu_iam.Prelude.Result.{ok}
use bu_iam.Libs.{Libs}
use bu_iam.Protocol.{DelegationCredential}
use bu_iam.World.{World}
use bu_iam.Store.Credentials.{get_credential, mark_revoked, revoke_credential_tree}
use bu_iam.Store.Credentials.Walk.{Descends}
use bu_iam.Store.Credentials.Revoke.{family, get_credential-revoke_tree_below}
use bu_iam.Delegation.Branch.{validate_credential_branch}
use bu_iam.Delegation.Branch.Ancestors.{Above, validate-Above}

-- A credential with a revoked one above it, or that is itself revoked, is never accepted.
pub validate-revoked :
    (lib : Libs) (w : World) (fuel : ℕ) (current : Bool) (c a : DelegationCredential)
    → Above w a c
    → a.revoked ≡ true
    → validate_credential_branch lib fuel current c w ≢ ok tt
validate-revoked lib w fuel current c a above revoked accepted =
    let (live, bounded) = validate-Above lib w fuel current c a accepted above in
    cc (live.unrevoked, revoked)

-- After `revoke_credential_tree` has returned on a stored credential, `validate_credential_branch`
-- accepts no credential that has above it a credential stored in the new tables under an id that
-- lay in the revoked tree and was stored before.
pub validate-revoke_tree :
    (lib : Libs) (cid reason x : String) (w w' : World) (target old a c : DelegationCredential)
    (out : ℕ × List String) (fuel : ℕ) (current : Bool)
    → get_credential cid w ≡ some target
    → revoke_credential_tree cid reason w ≡ some (out, w')
    → Descends (family target w) cid x
    → get_credential x w ≡ some old
    → get_credential x w' ≡ some a
    → Above w' a c
    → validate_credential_branch lib fuel current c w' ≢ ok tt
unfolding mark_revoked
validate-revoke_tree lib cid reason x w w' target old a c out fuel current found ran d before after
      above =
    validate-revoked lib w' fuel current c a above (
      let same =
        get_credential-revoke_tree_below cid reason x w w' target old out found ran d before in
      let stored : mark_revoked w.clock reason old ≡ a = some-injective _ _ (sym same ∙ after) in
      ap (λ (b : DelegationCredential). b.revoked) (sym stored))
