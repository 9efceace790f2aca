-- ===== src/Identity/Crypto.antt =====
-- app/identity/crypto.py: RSA over the digest of a text, ML-DSA by liboqs, and the two checks that
-- resolve a verification method first.
pub mod RoundTrip
pub mod Internal
use text.Mathlib.Text.{starts_with}
use bu_iam.Prelude.{
  ℕ, zero, suc, ◌+◌, ◌*◌, ◌/◌, ◌%◌, ◌^◌, String, Bool, true, false, Option, none, some, same_code,
  ◌==◌, if◌then◌else◌,
}
use bu_iam.Prelude.Result.{Result, ok, err, guard, or_raise, ◌>>=◌, ◌>>◌}
use bu_iam.Libs.{Libs, RsaKey}
use bu_iam.Protocol.Errors.{Exception, other, Read}
use bu_iam.World.{World}
use bu_iam.Identity.Resolver.{
  PublicJwk, mldsa_jwk, rsa_jwk, ResolvedVerificationMethod, kty_of, resolve_verification_method,
}

-- int.bit_length, on fuel: a number has at most its own value of bits.
unfoldable pub bit_length_fuel : ℕ → ℕ → ℕ
bit_length_fuel zero n = 0
bit_length_fuel (suc f) n = elim (same_code n 0) [
  | true ↦ 0
  | false ↦ suc (bit_length_fuel f (n / 2))
]

unfoldable pub bit_length : ℕ → ℕ
unfolding bit_length_fuel
bit_length n = bit_length_fuel n n

-- pow(base, exponent, modulus)
unfoldable pub pow_mod : ℕ → ℕ → ℕ → Read ℕ
pow_mod base exponent modulus =
    if same_code modulus 0 then err (other "ValueError") else ok (base ^ exponent % modulus)

-- alg.startswith("BUIAM-MLDSA")
abbrev pub starts_with_mldsa : String → Bool
starts_with_mldsa alg = starts_with alg "BUIAM-MLDSA"

module _ (lib : Libs) where
  unfoldable pub rsa_sign_with_private_key : String → RsaKey → Read String
  unfolding bit_length pow_mod
  rsa_sign_with_private_key signing_input key = do
    signature_int ← pow_mod (lib.sha256_int signing_input) key.d key.n
    ok (lib.encode_int ((bit_length key.n + 7) / 8) signature_int)

  unfoldable pub rsa_verify_with_public_key : String → String → ℕ → ℕ → Read Bool
  unfolding pow_mod
  rsa_verify_with_public_key signing_input signature n e = do
    signature_int ← or_raise (lib.decode_int signature) (other "binascii.Error")
    verified ← pow_mod signature_int e n
    ok (same_code verified (lib.sha256_int signing_input))

  unfoldable pub rsa_sign_with_kid : String → String → World → Read String
  unfolding rsa_sign_with_private_key resolve_verification_method
  rsa_sign_with_kid signing_input verification_method_id w = do
    resolved ← resolve_verification_method lib verification_method_id w
    key ← or_raise (lib.private_key resolved.subject_id) (other "OSError")
    rsa_sign_with_private_key signing_input key

  unfoldable pub rsa_verify : String → String → String → Read Bool
  unfolding rsa_verify_with_public_key
  rsa_verify signing_input signature key_id = do
    key ← or_raise (lib.public_key key_id) (other "OSError")
    rsa_verify_with_public_key signing_input signature key.n key.e

  unfoldable pub mldsa_sign_with_kid : String → String → World → Read String
  unfolding resolve_verification_method
  mldsa_sign_with_kid signing_input verification_method_id w = do
    resolved ← resolve_verification_method lib verification_method_id w
    key ← or_raise (lib.mldsa_private_key resolved.subject_id) (other "OSError")
    or_raise (lib.oqs_sign key.0 key.1 signing_input) (other "MechanismNotSupportedError")

  -- jwk.get("pk", ""), jwk.get("alg", "ML-DSA-65"): an RSA key has neither.
  unfoldable pub verify_with_mldsa_jwk : String → String → PublicJwk → Bool
  verify_with_mldsa_jwk signing_input signature (mldsa_jwk pk alg) =
      lib.oqs_verify alg pk signing_input signature
  verify_with_mldsa_jwk signing_input signature (rsa_jwk kty n e) =
      lib.oqs_verify "ML-DSA-65" "" signing_input signature

  unfoldable pub mldsa_verify_with_kid : String → String → String → World → Read Bool
  unfolding verify_with_mldsa_jwk resolve_verification_method
  mldsa_verify_with_kid signing_input signature verification_method_id w = do
    resolved ← resolve_verification_method lib verification_method_id w
    ok (verify_with_mldsa_jwk signing_input signature resolved.public_key_jwk)

  -- the two cases of `rsa_verify_with_kid` on the key's type
  unfoldable pub verify_with_jwk : String → String → PublicJwk → Read Bool
  unfolding verify_with_mldsa_jwk rsa_verify_with_public_key
  verify_with_jwk signing_input signature (mldsa_jwk pk alg) =
      ok (verify_with_mldsa_jwk signing_input signature (mldsa_jwk pk alg))
  verify_with_jwk signing_input signature (rsa_jwk kty n e) = do
    n_int ← or_raise (lib.decode_int n) (other "binascii.Error")
    e_int ← or_raise (lib.decode_int e) (other "binascii.Error")
    rsa_verify_with_public_key signing_input signature n_int e_int

  unfoldable pub rsa_verify_with_kid : String → String → String → World → Read Bool
  unfolding verify_with_jwk resolve_verification_method
  rsa_verify_with_kid signing_input signature verification_method_id w = do
    resolved ← resolve_verification_method lib verification_method_id w
    verify_with_jwk signing_input signature resolved.public_key_jwk

  -- The choice by the algorithm's name, as the callers write it before signing …
  unfoldable pub sign_with_kid : String → String → String → World → Read String
  unfolding mldsa_sign_with_kid rsa_sign_with_kid
  sign_with_kid alg signing_input vm w =
      if starts_with_mldsa alg
      then mldsa_sign_with_kid signing_input vm w
      else rsa_sign_with_kid signing_input vm w

  -- … and before checking.
  unfoldable pub verify_with_kid : String → String → String → String → World → Read Bool
  unfolding mldsa_verify_with_kid rsa_verify_with_kid
  verify_with_kid alg signing_input signature vm w =
      if starts_with_mldsa alg
      then mldsa_verify_with_kid signing_input signature vm w
      else rsa_verify_with_kid signing_input signature vm w
