-- ===== src/Delegation/Credential/Build/Shape.antt =====
-- The fields of a credential that `build_delegation_credential`
-- (app/delegation/credential_crypto.py) returns.
use bu_iam.Prelude.{String, ◌≡◌, refl, subst, false, some, or_text}
use bu_iam.Prelude.Sets.{sorted}
use bu_iam.Prelude.Result.{ok, >>=-eq-ok}
use bu_iam.Libs.{Libs}
use bu_iam.Protocol.{DelegationCredential}
use bu_iam.World.{World}
use bu_iam.Identity.Did.{build_did, build_verification_method_id}
use bu_iam.Identity.Crypto.{sign_with_kid}
use bu_iam.Delegation.Credential.{signed_content}
use bu_iam.Delegation.Credential.Build.{
  Grant, parent_id, root_id, bounded_exp, unsigned_credential, with_signature, with_ids,
  sign_credential, build_delegation_credential,
}

pub record BuiltFrom (g : Grant) (c : DelegationCredential) : Type 0 where
  pub parent : c.parent_credential_id ≡ parent_id g.parent
  pub root : c.root_credential_id ≡ or_text (root_id g.parent) c.credential_id
  pub issuer : c.issuer_id ≡ g.issuer_id
  pub subject : c.subject_id ≡ g.subject_id
  pub did : c.subject_did ≡ some (build_did g.subject_id)
  pub user : c.delegated_user ≡ g.delegated_user
  pub capabilities : c.capabilities ≡ sorted g.capabilities
  pub user_capabilities : c.user_capabilities ≡ sorted g.user_capabilities
  pub exp : c.exp ≡ bounded_exp g.exp g.parent
  pub fresh : c.revoked ≡ false

BuiltFrom-sign :
    (lib : Libs) (g : Grant) (w : World) (sig : String)
    → BuiltFrom g (with_ids lib (with_signature lib (unsigned_credential lib g w) sig))
unfolding with_ids with_signature unsigned_credential
BuiltFrom-sign lib g w sig = record {
  parent = refl;
  root = refl;
  issuer = refl;
  subject = refl;
  did = refl;
  user = refl;
  capabilities = refl;
  user_capabilities = refl;
  exp = refl;
  fresh = refl;
}

-- If `build_delegation_credential` returns a credential, it has the grant's parent, root, issuer,
-- subject, DID and user, the grant's capabilities in order, an expiry of the grant's bounded by
-- the parent's, and is not revoked.
pub build_delegation_credential-BuiltFrom :
    (lib : Libs) (g : Grant) (w : World) (c : DelegationCredential)
    → build_delegation_credential lib g w ≡ ok c
    → BuiltFrom g c
unfolding build_delegation_credential sign_credential
build_delegation_credential-BuiltFrom lib g w c h =
    let u = unsigned_credential lib g w in
    let vm = build_verification_method_id (build_did g.issuer_id) in
    let (sig, signed, e) =
      >>=-eq-ok (sign_with_kid lib u.signature_alg (signed_content lib u) vm w)
        (λ x. ok (with_ids lib (with_signature lib u x))) h in
    let same : with_ids lib (with_signature lib (unsigned_credential lib g w) sig) ≡ c = cc e in
    subst (BuiltFrom g) same (BuiltFrom-sign lib g w sig)
