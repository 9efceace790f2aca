-- ===== src/Delegation/Credential/Check.antt =====
-- app/delegation/credential_crypto.py: `verify_credential_integrity`.
use bu_iam.Prelude.{String, Bool, false, not, ◌&&◌, ◌||◌, none, some, ◌==◌, or_else, if◌then◌else◌}
use bu_iam.Prelude.Result.{ok, recover}
use bu_iam.Libs.{Libs}
use bu_iam.Protocol.{DelegationCredential}
use bu_iam.Protocol.Errors.{Read}
use bu_iam.World.{World}
use bu_iam.Identity.Did.{build_did, build_verification_method_id}
use bu_iam.Identity.Crypto.{verify_with_kid}
use bu_iam.Delegation.Credential.{signed_content, content_hash, compute_credential_id}

-- an id of the two algorithms that the program accepts
unfoldable pub known_alg : String → Bool
known_alg alg = alg == "BUIAM-RS256" || alg == "BUIAM-MLDSA-65"

-- `proof_signature and signature and proof_signature != signature`
unfoldable pub signatures_differ : DelegationCredential → Bool
signatures_differ c = elim c.proof_signature [
  | none ↦ false
  | some p ↦ not (p == "") && (not (c.signature == "") && not (p == c.signature))
]

module _ (lib : Libs) where
  unfoldable pub integrity_checks : DelegationCredential → World → Read Bool
  unfolding known_alg signatures_differ content_hash compute_credential_id build_did
      build_verification_method_id verify_with_kid
  integrity_checks c w =
      if not (known_alg c.signature_alg)
      then ok false
      else if signatures_differ c
      then ok false
      else if not (content_hash lib c == c.content_hash)
      then ok false
      else if not (compute_credential_id lib c == c.credential_id)
      then ok false
      else verify_with_kid lib c.signature_alg (signed_content lib c)
          (or_else c.proof_signature c.signature)
          (or_else c.proof_verification_method
            (build_verification_method_id (build_did c.issuer_id)))
          w

  -- `except Exception: return False`
  unfoldable pub verify_credential_integrity : DelegationCredential → World → Bool
  unfolding integrity_checks
  verify_credential_integrity c w = recover (integrity_checks c w) (λ _. false)
