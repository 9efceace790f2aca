-- ===== src/Store/Credentials.antt =====
-- app/store/delegation_credentials.py: the table of credentials, and the revocation of a tree.
pub mod Rows
pub mod Walk
pub mod Revoke
use bu_iam.Prelude.{
  ℕ, zero, suc, ◌+◌, String, ◌≡◌, Bool, true, false, Option, none, some, List, [], ◌∷◌, ◌++◌, ltb,
  ◌==◌, is_text, truthy, length, if◌then◌else◌, ◌&&◌, ◌||◌,
}
use bu_iam.Prelude.Sets.{contains, set_of, sorted}
use bu_iam.Libs.{Libs}
use bu_iam.Protocol.{DelegationCredential}
use bu_iam.World.{World}

unfoldable pub find_credential : String → List DelegationCredential → Option DelegationCredential
find_credential cid [] = none
find_credential cid (c ∷ cs) = if c.credential_id == cid then some c else find_credential cid cs

unfoldable pub get_credential : String → World → Option DelegationCredential
unfolding find_credential
get_credential cid w = find_credential cid w.credentials

-- INSERT OR REPLACE: the old row goes, the new one gets the last place.
unfoldable pub replace_credential :
    DelegationCredential → List DelegationCredential → List DelegationCredential
replace_credential c [] = c ∷ []
replace_credential c (x ∷ xs) =
    let rest = replace_credential c xs in
    if x.credential_id == c.credential_id then rest else x ∷ rest

unfoldable pub upsert_credential : DelegationCredential → World → World
unfolding replace_credential
upsert_credential c w = record w { credentials = replace_credential c w.credentials }

-- ORDER BY iat DESC LIMIT 1: of the rows with the highest `iat`, the first.
unfoldable pub later : DelegationCredential → Option DelegationCredential → DelegationCredential
later c none = c
later c (some d) = if ltb c.iat d.iat then d else c

unfoldable pub latest_match :
    Libs → String → String → List DelegationCredential → Option DelegationCredential
unfolding later
latest_match lib subject marker [] = none
latest_match lib subject marker (c ∷ cs) =
    let rest = latest_match lib subject marker cs in
    if c.subject_id == subject && lib.vc_type_like marker c.vc_type
    then some (later c rest)
    else rest

-- vc_type[-1] if vc_type else ""
unfoldable pub type_marker : List String → String
type_marker [] = ""
type_marker (t ∷ []) = t
type_marker (t ∷ u ∷ us) = type_marker (u ∷ us)

unfoldable pub get_credential_by_subject_and_type :
    Libs → String → List String → World → Option DelegationCredential
unfolding latest_match type_marker
get_credential_by_subject_and_type lib subject vc_type w =
    latest_match lib subject (type_marker vc_type) w.credentials

-- the WHERE clause of `list_credentials`, a part for each argument that is not `None`
unfoldable pub trace_matches : Option String → DelegationCredential → Bool
trace_matches none c = true
trace_matches (some t) c = is_text c.trace_id t

unfoldable pub root_matches : Option String → DelegationCredential → Bool
root_matches none c = true
root_matches (some r) c = c.root_credential_id == r || c.credential_id == r

unfoldable pub select_credentials :
    Option String → Option String → List DelegationCredential → List DelegationCredential
unfolding trace_matches root_matches
select_credentials trace root [] = []
select_credentials trace root (c ∷ cs) =
    let rest = select_credentials trace root cs in
    if trace_matches trace c && root_matches root c then c ∷ rest else rest

unfoldable pub list_credentials : Option String → Option String → World → List DelegationCredential
unfolding select_credentials
list_credentials trace root w = select_credentials trace root w.credentials

-- for child in by_parent.get(current_id, []): stack.append(child.credential_id)
unfoldable pub push_children : List DelegationCredential → String → List String → List String
push_children [] current stack = stack
push_children (c ∷ cs) current stack =
    push_children cs current
      (if is_text c.parent_credential_id current then c.credential_id ∷ stack else stack)

-- The `while stack` loop, on fuel, with the set of the ids that it has revoked.
unfoldable pub walk :
    ℕ → List DelegationCredential → List String → List String → Option (List String)
unfolding contains push_children
walk zero creds stack revoked = none
walk (suc fuel) creds [] revoked = some revoked
walk (suc fuel) creds (current ∷ stack) revoked = elim (contains current revoked) [
  | true ↦ walk fuel creds stack revoked
  | false ↦ walk fuel creds (push_children creds current stack) (current ∷ revoked)
]

unfoldable pub mark_revoked : ℕ → String → DelegationCredential → DelegationCredential
mark_revoked at reason c = record c {
  revoked = true;
  revoked_at = some at;
  revoke_reason = some reason;
}

-- UPDATE … WHERE credential_id = ?, for each id of the set
unfoldable pub revoke_rows :
    ℕ → String → List String → List DelegationCredential → List DelegationCredential
unfolding contains mark_revoked
revoke_rows at reason ids [] = []
revoke_rows at reason ids (c ∷ cs) =
    (if contains c.credential_id ids then mark_revoked at reason c else c)
    ∷ revoke_rows at reason ids cs

-- the traces of the credentials in the set, where they have one
unfoldable pub traces_of : List String → List DelegationCredential → List String
unfolding contains
traces_of ids [] = []
traces_of ids (c ∷ cs) =
    let rest = traces_of ids cs in
    elim c.trace_id [
      | none ↦ rest
      | some t ↦ if contains c.credential_id ids && truthy (some t) then t ∷ rest else rest
    ]

-- One round of the loop for each id that was pushed, and one that finds the stack empty.
unfoldable pub revoke_fuel : List DelegationCredential → ℕ
revoke_fuel creds = length creds + 2

unfoldable pub revoke_with :
    Option (List String)
    → String
    → List DelegationCredential
    → World
    → Option ((ℕ × List String) × World)
unfolding revoke_rows traces_of set_of sorted
revoke_with none reason creds w = none
revoke_with (some ids) reason creds w = some (
  (length ids, sorted (set_of (traces_of ids creds))),
  record w { credentials = revoke_rows w.clock reason ids w.credentials },
)

unfoldable pub revoke_found :
    Option DelegationCredential → String → String → World → Option ((ℕ × List String) × World)
unfolding list_credentials revoke_fuel walk revoke_with
revoke_found none cid reason w = some ((0, []), w)
revoke_found (some target) cid reason w =
    let creds = list_credentials none (some target.root_credential_id) w in
    revoke_with (walk (revoke_fuel creds) creds (cid ∷ []) []) reason creds w

-- The number of credentials that it revokes and their traces; `none` is a loop that runs on.
unfoldable pub revoke_credential_tree : String → String → World → Option ((ℕ × List String) × World)
unfolding get_credential revoke_found
revoke_credential_tree cid reason w = revoke_found (get_credential cid w) cid reason w
