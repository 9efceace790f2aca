-- ===== src/Delegation/Branch/Ancestors.antt =====
-- What an accepted branch (app/delegation/service.py) says of every credential on it.
use bu_iam.Prelude.{ℕ, ◌≤◌, String, ◌≡◌, refl, sym, ◌∙◌, Bool, none, some, subst, arith}
use bu_iam.Prelude.Sets.{Within, Within-refl, Within-trans}
use bu_iam.Prelude.Result.{ok}
use bu_iam.Libs.{Libs}
use bu_iam.Protocol.{DelegationCredential}
use bu_iam.World.{World}
use bu_iam.Store.Credentials.{get_credential}
use bu_iam.Delegation.Branch.{validate_credential_branch}
use bu_iam.Delegation.Branch.Valid.{
  IsLive, Attenuates, ValidBranch, top, under, validate-ValidBranch,
}

-- `a` is reached from `c` along stored parents.
pub data Above (w : World) (a : DelegationCredential) : DelegationCredential → Type 0 where
  self : Above w a a
  up :
      (pid : String) (c parent : DelegationCredential)
      → c.parent_credential_id ≡ some pid
      → get_credential pid w ≡ some parent
      → Above w a parent
      → Above w a c

-- What a credential keeps of one above it.
pub record Bounded (c a : DelegationCredential) : Type 0 where
  pub same_root : c.root_credential_id ≡ a.root_credential_id
  pub ends : c.exp ≤ a.exp
  pub narrows : Within c.capabilities a.capabilities
  pub narrows_user : Within c.user_capabilities a.user_capabilities

Bounded-refl : (c : DelegationCredential) → Bounded c c
Bounded-refl c = record {
  same_root = refl;
  ends = omega arith;
  narrows = Within-refl _;
  narrows_user = Within-refl _;
}

Bounded-step : (c p a : DelegationCredential) → Attenuates c p → Bounded p a → Bounded c a
Bounded-step c p a n b = record {
  same_root = n.same_root ∙ b.same_root;
  ends = omega (arith, n.ends, b.ends);
  narrows = Within-trans c.capabilities p.capabilities a.capabilities n.narrows b.narrows;
  narrows_user =
      Within-trans c.user_capabilities p.user_capabilities a.user_capabilities n.narrows_user
        b.narrows_user;
}

pub ValidBranch-IsLive :
    {lib : Libs} {w : World} {c : DelegationCredential} → ValidBranch lib w c → IsLive lib w c
ValidBranch-IsLive (top c live no_parent named) = live
ValidBranch-IsLive (under pid c parent live link found narrow rest) = live

ValidBranch-parent :
    {lib : Libs} {w : World} {c : DelegationCredential} (pid : String) (p : DelegationCredential)
    → c.parent_credential_id ≡ some pid
    → get_credential pid w ≡ some p
    → ValidBranch lib w c
    → Attenuates c p × ValidBranch lib w p
ValidBranch-parent pid p has found (top c live no_parent named) = absurd (cc)
ValidBranch-parent {lib} {w} pid p has found (under qid c q live link stored narrow rest) =
    let same : q ≡ p = cc in
    (subst (λ x. Attenuates c x) same narrow, subst (λ x. ValidBranch lib w x) same rest)

ValidBranch-Above :
    {lib : Libs} {w : World} {a c : DelegationCredential}
    → Above w a c
    → ValidBranch lib w c
    → IsLive lib w a × Bounded c a
ValidBranch-Above {a} self v = (ValidBranch-IsLive v, Bounded-refl a)
ValidBranch-Above {a} (up pid c parent has found above) v =
    let (narrow, valid) = ValidBranch-parent pid parent has found v in
    let (live, bounded) = ValidBranch-Above above valid in
    (live, Bounded-step c parent a narrow bounded)

-- If `validate_credential_branch` accepts a credential, every credential reached from it along
-- stored parents, itself included, passes the integrity check, is not revoked and not expired, has
-- the same root, ends no earlier and holds all its capabilities and user capabilities.
pub validate-Above :
    (lib : Libs) (w : World) (fuel : ℕ) (current : Bool) (c a : DelegationCredential)
    → validate_credential_branch lib fuel current c w ≡ ok tt
    → Above w a c
    → IsLive lib w a × Bounded c a
validate-Above lib w fuel current c a accepted above =
    ValidBranch-Above above (validate-ValidBranch lib w fuel current c accepted)

ValidBranch-root :
    {lib : Libs} {w : World} {c : DelegationCredential}
    → ValidBranch lib w c
    → (r : DelegationCredential) × Above w r c
      × (r.parent_credential_id ≡ none)
      × (r.credential_id ≡ c.root_credential_id)
ValidBranch-root (top c live no_parent named) = (c, self, no_parent, sym named)
ValidBranch-root (under pid c p live link found narrow above) =
    let (r, reach, no_parent, named) = ValidBranch-root above in
    (r, up pid c p link found reach, no_parent, named ∙ sym narrow.same_root)

-- If `validate_credential_branch` accepts a credential, a credential without a parent is reached
-- from it along stored parents, and its id is the root id that the accepted credential carries.
pub validate-root :
    (lib : Libs) (w : World) (fuel : ℕ) (current : Bool) (c : DelegationCredential)
    → validate_credential_branch lib fuel current c w ≡ ok tt
    → (r : DelegationCredential) × Above w r c
      × (r.parent_credential_id ≡ none)
      × (r.credential_id ≡ c.root_credential_id)
validate-root lib w fuel current c accepted =
    ValidBranch-root (validate-ValidBranch lib w fuel current c accepted)
