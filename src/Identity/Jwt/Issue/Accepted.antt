-- ===== src/Identity/Jwt/Issue/Accepted.antt =====
-- The token that `issue_token` (app/identity/jwt_service.py) issues, its row and its root credential.
use Prim.Native.String.{◌++◌}
use bu_iam.Prelude.{◌+◌, max, String, Bool, ◌≡◌, refl, sym, ◌∙◌, true, some, arith, eq_refl}
use bu_iam.Prelude.Sets.{sorted}
use bu_iam.Prelude.Result.{ok}
use bu_iam.Libs.{Libs}
use bu_iam.Protocol.{DelegationCredential}
use bu_iam.World.{World, StoredToken}
use bu_iam.Store.DidRegistry.{get_did_document}
use bu_iam.Store.Credentials.{get_credential, upsert_credential}
use bu_iam.Store.Credentials.Rows.{get_credential-upsert}
use bu_iam.Store.Tokens.{get_token, store_token, was_revoked}
use bu_iam.Store.Tokens.Rows.{get_token-store}
use bu_iam.Identity.Resolver.{resolve_verification_method}
use bu_iam.Identity.Crypto.{verify_with_kid}
use bu_iam.Identity.Crypto.RoundTrip.{HasRsaKey}
use bu_iam.Delegation.Credential.Build.{
  parent_id, root_id, bounded_exp, build_delegation_credential,
}
use bu_iam.Delegation.Credential.Build.Shape.{BuiltFrom, build_delegation_credential-BuiltFrom}
use bu_iam.Delegation.Credential.Check.{verify_credential_integrity}
use bu_iam.Delegation.Credential.Integrity.{method_of, build_delegation_credential-integrity}
use bu_iam.Delegation.Branch.{validate_credential_branch}
use bu_iam.Delegation.Branch.Valid.{ValidBranch, top, depth, ValidBranch-validate}
use bu_iam.Identity.Jwt.Issue.{
  Issue, IssuedToken, user_caps, token_input, sign_token, token_grant, token_row, token_exp,
  issue_with, issue_token,
}
use bu_iam.Identity.Jwt.Issue.Signed.{Signed, sign_token-ok, sign_token-Signed}

-- Neither write touches a DID document.
integrity-issue :
    (lib : Libs) (c d : DelegationCredential) (t : StoredToken) (w : World)
    → verify_credential_integrity lib d (store_token t (upsert_credential c w))
      ≡ verify_credential_integrity lib d w
unfolding verify_credential_integrity store_token upsert_credential get_did_document
integrity-issue lib c d t w = refl

verify-issue :
    (lib : Libs) (c : DelegationCredential) (t : StoredToken) (w : World)
    (alg input sig kid : String)
    → verify_with_kid lib alg input sig kid (store_token t (upsert_credential c w))
      ≡ verify_with_kid lib alg input sig kid w
unfolding verify_with_kid resolve_verification_method store_token upsert_credential get_did_document
verify-issue lib c t w alg input sig kid = refl

root-ValidBranch :
    (lib : Libs) (r : Issue) (jti : String) (c : DelegationCredential) (w w' : World)
    → BuiltFrom (token_grant r jti w) c
    → w'.clock ≡ w.clock
    → verify_credential_integrity lib c w' ≡ true
    → (v : ValidBranch lib w' c) × (depth v ≡ 0)
unfolding depth token_grant parent_id root_id bounded_exp
root-ValidBranch lib r jti c w w' b same intact = (
  top c (record { intact = intact; unrevoked = b.fresh; unexpired = omega (arith, same, b.exp) })
      b.parent b.root,
  refl,
)

-- The row of an issued token: the result's id, expiry and credential, the agent and the delegation
-- of the request.
pub record StoredFor (r : Issue) (out : IssuedToken) (t : StoredToken) : Type 0 where
  pub id : t.jti ≡ out.jti
  pub expires : t.exp ≡ out.exp
  pub credential : t.credential_id ≡ some out.credential_id
  pub agent : t.agent_id ≡ r.agent_id
  pub actor : t.actor_type ≡ r.actor_type
  pub user : t.delegated_user ≡ r.delegated_user
  pub capabilities : t.capabilities ≡ sorted r.capabilities
  pub user_capabilities : t.user_capabilities ≡ sorted (user_caps r)

row-StoredFor :
    (r : Issue) (out : IssuedToken) (w : World) (revoked : Bool)
    → out.exp ≡ token_exp r w
    → StoredFor r out (record (token_row r out.jti out.credential_id w) { revoked = revoked })
unfolding token_row
row-StoredFor r out w revoked expiry = record {
  id = refl;
  expires = sym expiry;
  credential = refl;
  agent = refl;
  actor = refl;
  user = refl;
  capabilities = refl;
  user_capabilities = refl;
}

-- What `issue_token` returns, and what it leaves in the tables.
pub record Issued (lib : Libs) (uuid : String) (r : Issue) (w : World) (out : IssuedToken)
    (w' : World) : Type 0 where
  pub returned : issue_token lib uuid r w ≡ (ok out, w')
  pub id : out.jti ≡ "tok_" ++ uuid
  pub expires : out.exp ≡ w.clock + max 1 r.ttl_seconds
  pub signed : Signed lib r out w'
  pub token : StoredToken
  pub token_stored : get_token out.jti w' ≡ some token
  pub token_live : token.revoked ≡ was_revoked (get_token out.jti w)
  pub token_row : StoredFor r out token
  pub credential : DelegationCredential
  pub credential_stored : get_credential out.credential_id w' ≡ some credential
  pub credential_grant : BuiltFrom (token_grant r out.jti w) credential
  pub credential_accepted : validate_credential_branch lib 1 true credential w' ≡ ok tt

-- The signature is verified under the same key after the writes.
Signed-issue :
    (lib : Libs) (r : Issue) (out : IssuedToken) (c : DelegationCredential) (t : StoredToken)
    (w : World)
    → Signed lib r out w
    → Signed lib r out (store_token t (upsert_credential c w))
Signed-issue lib r out c t w s = record {
  header = s.header;
  claims = s.claims;
  signature = s.signature;
  token = s.token;
  alg = s.alg;
  kid = s.kid;
  states = s.states;
  verifies = verify-issue lib c t w _ _ _ _ ∙ s.verifies;
}

issue_with-ok :
    (lib : Libs) (uuid : String) (r : Issue) (token : String) (c : DelegationCredential) (w : World)
    → sign_token lib r ("tok_" ++ uuid) w ≡ ok token
    → build_delegation_credential lib (token_grant r ("tok_" ++ uuid) w) w ≡ ok c
    → issue_token lib uuid r w ≡ issue_with r ("tok_" ++ uuid) (ok token) (ok c) w
unfolding issue_token
issue_with-ok lib uuid r token c w signed built = rw (signed, built) refl

-- What the two writes leave.
module _ (c : DelegationCredential) (t : StoredToken) (w : World) where
  clock-issue : (store_token t (upsert_credential c w)).clock ≡ w.clock
  unfolding store_token upsert_credential
  clock-issue = refl

  get_credential-issue :
      get_credential c.credential_id (store_token t (upsert_credential c w)) ≡ some c
  unfolding store_token get_credential
  get_credential-issue = get_credential-upsert c.credential_id c w ∙ rw (eq_refl c.credential_id)

  get_token-upsert : (jti : String) → get_token jti (upsert_credential c w) ≡ get_token jti w
  unfolding get_token upsert_credential
  get_token-upsert jti = refl

  get_token-issue :
      get_token t.jti (store_token t (upsert_credential c w))
      ≡ some (record t { revoked = was_revoked (get_token t.jti w) })
  get_token-issue =
      get_token-store t.jti t (upsert_credential c w) ∙ rw (eq_refl t.jti, get_token-upsert t.jti)

-- Under the RSA algorithm and with the agent's own key, `issue_token` returns a token: a header
-- and claims that name the agent's key, the returned id and expiry and the request's agent and
-- capabilities, with a signature that the check under that key accepts afterwards. The id is made
-- of the fresh uuid and the expiry is that of the request. The token's row is stored under that
-- id, with that expiry, the request's agent and capabilities and the flag of an earlier row of
-- that id, and names the root credential that is returned, which is stored, made of the request,
-- and accepted by `validate_credential_branch`.
pub issue_token-Issued :
    (lib : Libs) (uuid : String) (r : Issue) (w : World)
    → lib.signature_alg ≡ "BUIAM-RS256"
    → HasRsaKey lib (method_of r.agent_id) w
    → (out : IssuedToken) × (w' : World) × Issued lib uuid r w out w'
unfolding issue_with token_row
issue_token-Issued lib uuid r w rs256 key =
    let jti = "tok_" ++ uuid in
    let (sig, signed, verified) = sign_token-ok lib r jti w rs256 key in
    let (c, built, intact) =
      build_delegation_credential-integrity lib (token_grant r jti w) w rs256
        (unfold token_grant in tt) (unfold token_grant in key) in
    let b = build_delegation_credential-BuiltFrom lib (token_grant r jti w) w c built in
    let out : IssuedToken = record {
      access_token = token_input lib r jti w ++ "." ++ sig;
      token_type = "bearer";
      jti = jti;
      exp = token_exp r w;
      credential_id = c.credential_id;
    } in
    let row = token_row r jti c.credential_id w in
    let w' = store_token row (upsert_credential c w) in
    let (v, flat) =
      root-ValidBranch lib r jti c w w' b (clock-issue c row w)
        (integrity-issue lib c c row w ∙ intact) in
    (
      out,
      w',
      record {
        returned = issue_with-ok lib uuid r out.access_token c w signed built;
        id = refl;
        expires = refl;
        signed =
            Signed-issue lib r out c row w (sign_token-Signed lib r out w rs256 key refl signed);
        token = record row { revoked = was_revoked (get_token jti w) };
        token_stored = get_token-issue c row w;
        token_live = refl;
        token_row = row-StoredFor r out w (was_revoked (get_token jti w)) refl;
        credential = c;
        credential_stored = get_credential-issue c row w;
        credential_grant = b;
        credential_accepted = ValidBranch-validate lib w' 1 true v (omega (arith, flat));
      },
    )
