-- ===== src/Delegation/Branch/Valid.antt =====
-- What `validate_credential_branch` (app/delegation/service.py) accepts: a branch of live
-- credentials, each within its parent, up to a root that names itself.
use bu_iam.Prelude.{
  sym, ◌∙◌, ◌≢◌, ℕ, zero, suc, ◌≤◌, ◌<◌, String, ◌≡◌, refl, inl, inr, Bool, true, false, none, some,
  arith, eq_iff, Option-cases,
}
use bu_iam.Prelude.Sets.{Within, subset→Within, Within→subset}
use bu_iam.Prelude.Result.{ok, err, >>=-eq-ok, guard-eq-ok}
use bu_iam.Libs.{Libs}
use bu_iam.Protocol.{DelegationCredential}
use bu_iam.Protocol.Errors.{recursion}
use bu_iam.World.{World}
use bu_iam.Store.Credentials.{get_credential}
use bu_iam.Delegation.Credential.Check.{verify_credential_integrity}
use bu_iam.Delegation.Branch.{
  check_self, check_root, check_link, find_parent, validate_credential_branch,
}

-- A credential is as it was signed, not revoked and not expired.
pub record IsLive (lib : Libs) (w : World) (c : DelegationCredential) : Type 0 where
  pub intact : verify_credential_integrity lib c w ≡ true
  pub unrevoked : c.revoked ≡ false
  pub unexpired : w.clock < c.exp

-- A child carries its parent's root, ends no later, and may do no more.
pub record Attenuates (c parent : DelegationCredential) : Type 0 where
  pub same_root : c.root_credential_id ≡ parent.root_credential_id
  pub ends : c.exp ≤ parent.exp
  pub narrows : Within c.capabilities parent.capabilities
  pub narrows_user : Within c.user_capabilities parent.user_capabilities

pub data ValidBranch (lib : Libs) (w : World) : DelegationCredential → Type 0 where
  top :
      (c : DelegationCredential)
      → IsLive lib w c
      → c.parent_credential_id ≡ none
      → c.root_credential_id ≡ c.credential_id
      → ValidBranch lib w c
  under :
      (pid : String) (c parent : DelegationCredential)
      → IsLive lib w c
      → c.parent_credential_id ≡ some pid
      → get_credential pid w ≡ some parent
      → Attenuates c parent
      → ValidBranch lib w parent
      → ValidBranch lib w c

-- The number of links up to the root.
unfoldable pub depth : {lib : Libs} {w : World} {c : DelegationCredential} → ValidBranch lib w c → ℕ
depth (top c live no_parent named) = 0
depth (under pid c parent live link found narrow up) = suc (depth up)

module _ (lib : Libs) (w : World) where
  check_self-IsLive :
      (current : Bool) (c : DelegationCredential)
      → check_self lib current c w ≡ ok tt
      → IsLive lib w c
  unfolding check_self
  check_self-IsLive current c h = record {
    intact = ground (arith, h);
    unrevoked = ground (arith, h);
    unexpired = ground (arith, h);
  }

  IsLive-check_self :
      (current : Bool) (c : DelegationCredential)
      → IsLive lib w c
      → check_self lib current c w ≡ ok tt
  unfolding check_self
  IsLive-check_self current c live = ground (arith, live)

check_link-Attenuates :
    (c parent : DelegationCredential) → check_link c parent ≡ ok tt → Attenuates c parent
unfolding check_link
check_link-Attenuates c parent h = record {
  same_root = (eq_iff _ _).0 (ground (arith, h));
  ends = ground (arith, h);
  narrows = subset→Within _ _ (ground (arith, h));
  narrows_user = subset→Within _ _ (ground (arith, h));
}

Attenuates-check_link :
    (c parent : DelegationCredential) → Attenuates c parent → check_link c parent ≡ ok tt
unfolding check_link
Attenuates-check_link c parent a = ground (
  arith,
  eq_iff c.root_credential_id parent.root_credential_id,
  a.same_root,
  a.ends,
  Within→subset c.capabilities parent.capabilities a.narrows,
  Within→subset c.user_capabilities parent.user_capabilities a.narrows_user,
)

-- Where the branch starts a validation of at least one call.
module _ (lib : Libs) (w : World) (current : Bool) (fuel : ℕ) (c : DelegationCredential) where
  validate-none :
      c.parent_credential_id ≡ none
      → check_self lib current c w ≡ ok tt
      → validate_credential_branch lib (suc fuel) current c w ≡ check_root c
  unfolding validate_credential_branch
  validate-none no_parent self = simp (self, no_parent)

  validate-some :
      (pid : String) (parent : DelegationCredential)
      → c.parent_credential_id ≡ some pid
      → get_credential pid w ≡ some parent
      → check_self lib current c w ≡ ok tt
      → check_link c parent ≡ ok tt
      → validate_credential_branch lib (suc fuel) current c w
        ≡ validate_credential_branch lib fuel false parent w
  unfolding validate_credential_branch find_parent
  validate-some pid parent has_parent found self link = rw (self, has_parent, found, link)

  validate_self :
      validate_credential_branch lib (suc fuel) current c w ≡ ok tt
      → check_self lib current c w ≡ ok tt
  unfolding validate_credential_branch
  validate_self h = let (u, e, _) = >>=-eq-ok (check_self lib current c w) _ h in e

  validate-missing :
      (pid : String)
      → c.parent_credential_id ≡ some pid
      → get_credential pid w ≡ none
      → validate_credential_branch lib (suc fuel) current c w ≢ ok tt
  unfolding validate_credential_branch find_parent
  validate-missing pid has_parent missing h =
      let self = validate_self h in cc (rw (self, has_parent, missing) at h)

  validate-link :
      (pid : String) (parent : DelegationCredential)
      → c.parent_credential_id ≡ some pid
      → get_credential pid w ≡ some parent
      → validate_credential_branch lib (suc fuel) current c w ≡ ok tt
      → check_link c parent ≡ ok tt
  unfolding validate_credential_branch find_parent
  validate-link pid parent has_parent found h =
      let self = validate_self h in
      let (u, e, _) = >>=-eq-ok (check_link c parent) _ (rw (self, has_parent, found) at h) in e

validate-zero :
    (lib : Libs) (w : World) (current : Bool) (c : DelegationCredential)
    → validate_credential_branch lib zero current c w ≡ err recursion
unfolding validate_credential_branch
validate-zero lib w current c = refl

-- If `validate_credential_branch` accepts a credential, its branch is valid: live credentials,
-- each within its stored parent, up to a root that names itself, with fewer links than the calls
-- allowed.
pub validate-bounded :
    (lib : Libs) (w : World) (fuel : ℕ) (current : Bool) (c : DelegationCredential)
    → validate_credential_branch lib fuel current c w ≡ ok tt
    → (v : ValidBranch lib w c) × (depth v < fuel)
unfolding check_root depth
validate-bounded lib w zero current c h = cc (validate-zero lib w current c, h)
validate-bounded lib w (suc fuel) current c h =
    let self = validate_self lib w current fuel c h in
    let live = check_self-IsLive lib w current c self in
    elim (Option-cases c.parent_credential_id) [
      | inl no_parent ↦ (
        top c live no_parent (
            (eq_iff _ _).0
              (guard-eq-ok _ _ (sym (validate-none lib w current fuel c no_parent self) ∙ h))),
        omega arith,
      )
      | inr (pid, has_parent) ↦ elim (Option-cases (get_credential pid w)) [
        | inl missing ↦ absurd (validate-missing lib w current fuel c pid has_parent missing h)
        | inr (parent, found) ↦
            let link = validate-link lib w current fuel c pid parent has_parent found h in
            let (v, short) = validate-bounded lib w fuel false parent (
              sym (validate-some lib w current fuel c pid parent has_parent found self link) ∙ h) in
            (
              under pid c parent live has_parent found (check_link-Attenuates c parent link) v,
              omega (arith, short),
            )
      ]
    ]

-- A branch that the code accepts is valid.
pub validate-ValidBranch :
    (lib : Libs) (w : World) (fuel : ℕ) (current : Bool) (c : DelegationCredential)
    → validate_credential_branch lib fuel current c w ≡ ok tt
    → ValidBranch lib w c
validate-ValidBranch lib w fuel current c h = (validate-bounded lib w fuel current c h).0

-- On a valid branch with fewer links than the calls that Python allows,
-- `validate_credential_branch` returns without an error.
pub ValidBranch-validate :
    (lib : Libs) (w : World) (fuel : ℕ) (current : Bool) {c : DelegationCredential}
    (v : ValidBranch lib w c)
    → depth v < fuel
    → validate_credential_branch lib fuel current c w ≡ ok tt
unfolding depth
ValidBranch-validate lib w zero current v h = absurd (omega arith)
ValidBranch-validate lib w (suc fuel) current (top c live no_parent named) h =
    validate-none lib w current fuel c no_parent (IsLive-check_self lib w current c live)
    ∙ unfold check_root in rw ((eq_iff _ _).1 named)
ValidBranch-validate lib w (suc fuel) current (under pid c parent live has_parent found narrow up)
      h =
    validate-some lib w current fuel c pid parent has_parent found
      (IsLive-check_self lib w current c live) (Attenuates-check_link c parent narrow)
    ∙ ValidBranch-validate lib w fuel false up (omega arith)
