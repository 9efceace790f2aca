-- ===== src/Store/Credentials/Rows.antt =====
-- What reading and writing the table of credentials do to each other
-- (app/store/delegation_credentials.py).
use bu_iam.Prelude.{
  ℕ, String, ◌≡◌, refl, true, false, some, List, [], ◌∷◌, arith, ◌==◌, eq_iff, if◌then◌else◌,
}
use bu_iam.Prelude.Sets.{contains}
use bu_iam.Protocol.{DelegationCredential}
use bu_iam.World.{World}
use bu_iam.Store.Credentials.{
  find_credential, get_credential, replace_credential, upsert_credential, mark_revoked, revoke_rows,
}

find-replace_credential :
    (cid : String) (c : DelegationCredential) (cs : List DelegationCredential)
    → find_credential cid (replace_credential c cs)
      ≡ (if c.credential_id == cid then some c else find_credential cid cs)
unfolding find_credential replace_credential
find-replace_credential cid c [] = refl
find-replace_credential cid c (x ∷ xs) = ground (
  arith,
  find-replace_credential cid c xs,
  eq_iff x.credential_id c.credential_id,
  eq_iff c.credential_id cid,
  eq_iff x.credential_id cid,
)

-- A credential that is written is read back under its id, and no other id's credential changes.
pub get_credential-upsert :
    (cid : String) (c : DelegationCredential) (w : World)
    → get_credential cid (upsert_credential c w)
      ≡ (if c.credential_id == cid then some c else get_credential cid w)
unfolding get_credential upsert_credential
get_credential-upsert cid c w = find-replace_credential cid c w.credentials

find_credential-id :
    (cid : String) (cs : List DelegationCredential) (c : DelegationCredential)
    → find_credential cid cs ≡ some c
    → c.credential_id ≡ cid
unfolding find_credential
find_credential-id cid [] c e = cc
find_credential-id cid (x ∷ xs) c e =
    ground (arith, find_credential-id cid xs c, eq_iff x.credential_id cid)

-- A credential that is found has the id that it was looked up by.
pub get_credential-id :
    (cid : String) (w : World) (c : DelegationCredential)
    → get_credential cid w ≡ some c
    → c.credential_id ≡ cid
unfolding get_credential
get_credential-id cid w c e = find_credential-id cid w.credentials c e

find-revoke_rows_in :
    (at : ℕ) (reason cid : String) (ids : List String) (cs : List DelegationCredential)
    (c : DelegationCredential)
    → contains cid ids ≡ true
    → find_credential cid cs ≡ some c
    → find_credential cid (revoke_rows at reason ids cs) ≡ some (mark_revoked at reason c)
unfolding find_credential revoke_rows mark_revoked
find-revoke_rows_in at reason cid ids [] c h e = cc
find-revoke_rows_in at reason cid ids (x ∷ xs) c h e =
    ground (arith, find-revoke_rows_in at reason cid ids xs c h, eq_iff x.credential_id cid)

find-revoke_rows_out :
    (at : ℕ) (reason cid : String) (ids : List String) (cs : List DelegationCredential)
    → contains cid ids ≡ false
    → find_credential cid (revoke_rows at reason ids cs) ≡ find_credential cid cs
unfolding find_credential revoke_rows mark_revoked
find-revoke_rows_out at reason cid ids [] h = refl
find-revoke_rows_out at reason cid ids (x ∷ xs) h =
    ground (arith, find-revoke_rows_out at reason cid ids xs h, eq_iff x.credential_id cid)

-- After the update of a set of ids, a credential of the set is revoked …
pub get_credential-revoke_rows_in :
    (reason cid : String) (ids : List String) (w : World) (c : DelegationCredential)
    → contains cid ids ≡ true
    → get_credential cid w ≡ some c
    → get_credential cid (record w { credentials = revoke_rows w.clock reason ids w.credentials })
      ≡ some (mark_revoked w.clock reason c)
unfolding get_credential
get_credential-revoke_rows_in reason cid ids w c h e =
    find-revoke_rows_in w.clock reason cid ids w.credentials c h e

-- … and any other is as it was.
pub get_credential-revoke_rows_out :
    (reason cid : String) (ids : List String) (w : World)
    → contains cid ids ≡ false
    → get_credential cid (record w { credentials = revoke_rows w.clock reason ids w.credentials })
      ≡ get_credential cid w
unfolding get_credential
get_credential-revoke_rows_out reason cid ids w h =
    find-revoke_rows_out w.clock reason cid ids w.credentials h
