-- ===== src/Delegation/Service/Issue.antt =====
-- The credential that `build_child_auth_context` (app/delegation/service.py) issues is accepted.
use bu_iam.Prelude.{
  ℕ, suc, ◌<◌, String, ◌≡◌, refl, sym, ◌∙◌, ap, subst, inl, inr, true, none, some, arith, eq_iff,
  eq_refl, or_else, Bool-cases,
}
use bu_iam.Prelude.Sets.{
  subset, contains-sorted, same_set, subset→Within, Within→subset, Within-refl,
}
use bu_iam.Prelude.Result.{ok}
use bu_iam.Libs.{Libs}
use bu_iam.Protocol.{AuthContext, DelegationCredential}
use bu_iam.World.{World}
use bu_iam.Identity.Crypto.RoundTrip.{HasRsaKey}
use bu_iam.Store.DidRegistry.{get_did_document}
use bu_iam.Store.Credentials.{get_credential, upsert_credential}
use bu_iam.Store.Credentials.Rows.{get_credential-upsert}
use bu_iam.Delegation.Credential.Build.{
  parent_id, root_id, bounded_exp, build_delegation_credential,
}
use bu_iam.Delegation.Credential.Build.Shape.{BuiltFrom, build_delegation_credential-BuiltFrom}
use bu_iam.Identity.Did.{build_did}
use bu_iam.Delegation.Credential.Context.{auth_context_from_credential}
use bu_iam.Delegation.Credential.Check.{verify_credential_integrity}
use bu_iam.Delegation.Credential.Integrity.{
  NamesRoot, method_of, build_delegation_credential-integrity,
}
use bu_iam.Delegation.Branch.{validate_credential_branch}
use bu_iam.Delegation.Branch.Valid.{
  IsLive, Attenuates, ValidBranch, top, under, depth, validate-bounded, ValidBranch-validate,
}
use bu_iam.Delegation.Branch.Ancestors.{ValidBranch-IsLive}
use bu_iam.Delegation.Service.{
  did_matches, check_context, validate_credential_id, validate_auth_context_credential,
}
use bu_iam.Delegation.Service.Child.{ChildRequest, child_grant, child_credential}

-- Storing a credential changes no check of another one's integrity.
integrity-upsert :
    (lib : Libs) (c d : DelegationCredential) (w : World)
    → verify_credential_integrity lib d (upsert_credential c w)
      ≡ verify_credential_integrity lib d w
unfolding verify_credential_integrity upsert_credential get_did_document
integrity-upsert lib c d w = refl

IsLive-upsert :
    (lib : Libs) (c d : DelegationCredential) (w : World)
    → IsLive lib w d
    → IsLive lib (upsert_credential c w) d
unfolding upsert_credential
IsLive-upsert lib c d w live = record {
  intact = integrity-upsert lib c d w ∙ live.intact;
  unrevoked = live.unrevoked;
  unexpired = live.unexpired;
}

-- Nor does one with a new id hide a credential that is stored.
get_credential-upsert_fresh :
    (c p : DelegationCredential) (pid : String) (w : World)
    → get_credential c.credential_id w ≡ none
    → get_credential pid w ≡ some p
    → get_credential pid (upsert_credential c w) ≡ some p
get_credential-upsert_fresh c p pid w fresh found =
    get_credential-upsert pid c w ∙ ground (arith, eq_iff c.credential_id pid, fresh, found)

-- So a valid branch stays valid, with as many links.
ValidBranch-upsert :
    (lib : Libs) (c : DelegationCredential) (w : World) {d : DelegationCredential}
    → get_credential c.credential_id w ≡ none
    → (v : ValidBranch lib w d)
    → (v' : ValidBranch lib (upsert_credential c w) d) × (depth v' ≡ depth v)
unfolding depth
ValidBranch-upsert lib c w fresh (top d live no_parent named) =
    (top d (IsLive-upsert lib c d w live) no_parent named, refl)
ValidBranch-upsert lib c w fresh (under pid d p live has found narrow rest) =
    let (v, e) = ValidBranch-upsert lib c w fresh rest in
    (
      under pid d p (IsLive-upsert lib c d w live) has
          (get_credential-upsert_fresh c p pid w fresh found) narrow v,
      ap suc e,
    )

child-Attenuates :
    (p c : DelegationCredential) (r : ChildRequest)
    → BuiltFrom (child_grant p r) c
    → NamesRoot (some p)
    → subset r.capabilities p.capabilities ≡ true
    → Attenuates c p
unfolding child_grant root_id bounded_exp
child-Attenuates p c r b named inside = record {
  same_root = b.root ∙ rw named;
  ends = omega (arith, b.exp);
  narrows = λ x m.
      subset→Within r.capabilities p.capabilities inside x
        (sym (contains-sorted x r.capabilities) ∙ rw b.capabilities at m);
  narrows_user = λ x m. sym (contains-sorted x p.user_capabilities) ∙ rw b.user_capabilities at m;
}

child_credential-parts :
    (lib : Libs) (p c : DelegationCredential) (r : ChildRequest) (w : World)
    → child_credential lib p r w ≡ ok c
    → (subset r.capabilities p.capabilities ≡ true)
      × (build_delegation_credential lib (child_grant p r) w ≡ ok c)
unfolding child_credential
child_credential-parts lib p c r w h = elim (Bool-cases (subset r.capabilities p.capabilities)) [
  | inl inside ↦ (inside, rw inside at h)
  | inr outside ↦ absurd (cc (rw outside at h))
]

child-IsLive :
    (lib : Libs) (w : World) (p c : DelegationCredential) (r : ChildRequest)
    → lib.signature_alg ≡ "BUIAM-RS256"
    → HasRsaKey lib (method_of r.issuer_id) w
    → NamesRoot (some p)
    → build_delegation_credential lib (child_grant p r) w ≡ ok c
    → IsLive lib w p
    → IsLive lib w c
unfolding child_grant bounded_exp
child-IsLive lib w p c r rs256 key named built live =
    let b = build_delegation_credential-BuiltFrom lib (child_grant p r) w c built in
    let (d, again, good) =
      build_delegation_credential-integrity lib (child_grant p r) w rs256 named key in
    let same : d ≡ c = cc (built, again) in
    record {
      intact = subst (λ x. verify_credential_integrity lib x w ≡ true) same good;
      unrevoked = b.fresh;
      unexpired = omega (arith, b.exp, live.unexpired);
    }

-- Under the RSA algorithm and an issuer with its key, the credential that is issued to a child of a
-- valid parent, stored under a new id, has a valid branch, one link longer than the parent's.
child-ValidBranch :
    (lib : Libs) (w : World) (p c : DelegationCredential) (r : ChildRequest)
    → lib.signature_alg ≡ "BUIAM-RS256"
    → HasRsaKey lib (method_of r.issuer_id) w
    → NamesRoot (some p)
    → get_credential p.credential_id w ≡ some p
    → get_credential c.credential_id w ≡ none
    → child_credential lib p r w ≡ ok c
    → (v : ValidBranch lib w p)
    → (v' : ValidBranch lib (upsert_credential c w) c) × (depth v' ≡ suc (depth v))
unfolding depth
child-ValidBranch lib w p c r rs256 key named stored fresh issued v =
    let (inside, built) = child_credential-parts lib p c r w issued in
    let b = build_delegation_credential-BuiltFrom lib (child_grant p r) w c built in
    let (v', e) = ValidBranch-upsert lib c w fresh v in
    (
      under p.credential_id c p
          (IsLive-upsert lib c c w
            (child-IsLive lib w p c r rs256 key named built (ValidBranch-IsLive v)))
          (b.parent ∙ unfold parent_id child_grant in refl)
          (get_credential-upsert_fresh c p p.credential_id w fresh stored)
          (child-Attenuates p c r b named inside) v',
      ap suc e,
    )

-- The context of a credential, as it is checked.
check_context-own :
    (c : DelegationCredential) (did : String)
    → c.subject_did ≡ some did
    → check_context (auth_context_from_credential c none none) c ≡ ok tt
unfolding check_context auth_context_from_credential did_matches same_set
check_context-own c did has = ground (
  arith,
  has,
  eq_refl c.subject_id,
  eq_refl (or_else c.subject_did (build_did c.subject_id)),
  Within→subset c.capabilities c.capabilities (Within-refl c.capabilities),
)

-- A registered credential with a valid branch that fits the context is returned.
validate_credential_id-intro :
    (lib : Libs) (a : AuthContext) (cid : String) (c : DelegationCredential) (w : World)
    → get_credential cid w ≡ some c
    → validate_credential_branch lib lib.recursion_limit true c w ≡ ok tt
    → check_context a c ≡ ok tt
    → validate_credential_id lib a (some cid) w ≡ ok (some c)
unfolding validate_credential_id
validate_credential_id-intro lib a cid c w found branch fits = rw (found, branch, fits)

child_grant-did :
    (p c : DelegationCredential) (r : ChildRequest)
    → BuiltFrom (child_grant p r) c
    → c.subject_did ≡ some (build_did r.subject_id)
unfolding child_grant
child_grant-did p c r b = b.did

-- Under the RSA algorithm and an issuer that has its key, if the parent is stored under its own
-- id, names a root and is accepted with room for one more nested call, and the child's credential
-- is issued under it and its id is not stored yet, then once it is stored the context made of it
-- is accepted with that credential.
pub child_context-accepted :
    (lib : Libs) (w : World) (p c : DelegationCredential) (r : ChildRequest) (fuel : ℕ)
    → lib.signature_alg ≡ "BUIAM-RS256"
    → HasRsaKey lib (method_of r.issuer_id) w
    → NamesRoot (some p)
    → get_credential p.credential_id w ≡ some p
    → get_credential c.credential_id w ≡ none
    → validate_credential_branch lib fuel true p w ≡ ok tt
    → fuel < lib.recursion_limit
    → child_credential lib p r w ≡ ok c
    → validate_auth_context_credential lib
        (some (auth_context_from_credential c none none))
        (upsert_credential c w)
      ≡ ok (some c)
unfolding validate_auth_context_credential auth_context_from_credential
child_context-accepted lib w p c r fuel rs256 key named stored fresh accepted room issued =
    let (v, short) = validate-bounded lib w fuel true p accepted in
    let (v', e) = child-ValidBranch lib w p c r rs256 key named stored fresh issued v in
    let branch =
      ValidBranch-validate lib (upsert_credential c w) lib.recursion_limit true v'
        (omega (arith, e, short, room)) in
    let (inside, built) = child_credential-parts lib p c r w issued in
    let b = build_delegation_credential-BuiltFrom lib (child_grant p r) w c built in
    let found : get_credential c.credential_id (upsert_credential c w) ≡ some c =
      get_credential-upsert c.credential_id c w ∙ rw (eq_refl c.credential_id) in
    validate_credential_id-intro lib (auth_context_from_credential c none none) c.credential_id c
      (upsert_credential c w) found branch
      (check_context-own c (build_did r.subject_id) (child_grant-did p c r b))
