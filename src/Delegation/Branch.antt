-- ===== src/Delegation/Branch.antt =====
-- app/delegation/service.py: `validate_credential_branch`, from a credential up to its root. The
-- fuel is the number of nested calls that Python allows; past it the code raises RecursionError.
pub mod Valid
pub mod Ancestors
pub mod Revoked
use bu_iam.Prelude.{
  ℕ, zero, suc, String, Bool, true, false, not, Option, none, some, leb, ◌==◌, if◌then◌else◌,
}
use bu_iam.Prelude.Sets.{subset}
use bu_iam.Prelude.Result.{Result, ok, err, guard, or_raise, ◌>>=◌, ◌>>◌}
use bu_iam.Libs.{Libs}
use bu_iam.Protocol.{DelegationCredential}
use bu_iam.Protocol.Errors.{Exception, credential_error, recursion, Read}
use bu_iam.World.{World}
use bu_iam.Store.Credentials.{get_credential}
use bu_iam.Delegation.Credential.Check.{verify_credential_integrity}

abbrev pub invalid : String → Exception
invalid message = credential_error "AUTH_CREDENTIAL_INVALID" message

abbrev pub revoked_code : Bool → String
revoked_code true = "AUTH_CREDENTIAL_REVOKED"
revoked_code false = "AUTH_PARENT_CREDENTIAL_REVOKED"

abbrev pub expired_code : Bool → String
expired_code true = "AUTH_CREDENTIAL_EXPIRED"
expired_code false = "AUTH_PARENT_CREDENTIAL_EXPIRED"

-- the tests on one credential
unfoldable pub check_self : Libs → Bool → DelegationCredential → World → Read (Unit {0})
check_self lib current c w = do
  guard (verify_credential_integrity lib c w)
      (invalid "delegation credential integrity verification failed")
  guard (not c.revoked)
      (credential_error (revoked_code current) "delegation credential has been revoked")
  guard (not (leb c.exp w.clock))
      (credential_error (expired_code current) "delegation credential has expired")

-- the test on a credential without a parent
unfoldable pub check_root : DelegationCredential → Read (Unit {0})
check_root c =
    guard (c.root_credential_id == c.credential_id)
      (invalid "root delegation credential id mismatch")

-- the tests on a credential and its parent
unfoldable pub check_link : DelegationCredential → DelegationCredential → Read (Unit {0})
unfolding subset
check_link c parent = do
  guard (c.root_credential_id == parent.root_credential_id)
      (invalid "delegation credential root does not match parent")
  guard (leb c.exp parent.exp) (invalid "delegation credential expires after parent")
  guard (subset c.capabilities parent.capabilities)
      (invalid "delegation credential capabilities exceed parent")
  guard (subset c.user_capabilities parent.user_capabilities)
      (invalid "delegation credential user capabilities exceed parent")

unfoldable pub find_parent : String → World → Read DelegationCredential
find_parent pid w =
    or_raise (get_credential pid w) (invalid "parent delegation credential is not registered")

unfoldable pub validate_credential_branch :
    Libs → ℕ → Bool → DelegationCredential → World → Read (Unit {0})
unfolding find_parent
validate_credential_branch lib zero current c w = err recursion
validate_credential_branch lib (suc fuel) current c w = do
  check_self lib current c w
  elim c.parent_credential_id [
    | none ↦ check_root c
    | some pid ↦ do
      parent ← find_parent pid w
      check_link c parent
      validate_credential_branch lib fuel false parent w
  ]
