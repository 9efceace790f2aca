-- ===== src/Identity/Crypto/RoundTrip.antt =====
-- A signature of app/identity/crypto.py is accepted by the check under the matching key.
use native.Mathlib.Nat.{mod-lt}
use bu_iam.Prelude.{ℕ, ◌+◌, ◌/◌, ◌%◌, ◌^◌, ◌<◌, String, ◌≡◌, true, some, arith}
use bu_iam.Prelude.Result.{ok}
use bu_iam.Libs.{Libs, RsaKey}
use bu_iam.World.{World}
use bu_iam.Identity.Resolver.{rsa_jwk, ResolvedVerificationMethod, resolve_verification_method}
use bu_iam.Identity.Crypto.{
  bit_length, rsa_sign_with_private_key, rsa_verify_with_public_key, rsa_sign_with_kid,
  rsa_verify_with_kid, verify_with_jwk, sign_with_kid, verify_with_kid,
}

-- The key pair's exponents undo one another, and the modulus is above every digest.
pub record IsRsaPair (lib : Libs) (key : RsaKey) : Type 0 where
  pub inverse : (x : ℕ) → x < key.n → (x ^ key.d % key.n) ^ key.e % key.n ≡ x
  pub wide : (text : String) → lib.sha256_int text < key.n

-- base64 and `to_bytes` give back a number that fits the modulus.
pub record Decodes (lib : Libs) (key : RsaKey) : Type 0 where
  pub back :
      (x : ℕ) → x < key.n → lib.decode_int (lib.encode_int ((bit_length key.n + 7) / 8) x) ≡ some x

module _ (lib : Libs) (key : RsaKey) (pair : IsRsaPair lib key) (codec : Decodes lib key) where
  abbrev signature_int : String → ℕ
  signature_int input = lib.sha256_int input ^ key.d % key.n

  abbrev signature : String → String
  signature input = lib.encode_int ((bit_length key.n + 7) / 8) (signature_int input)

  signature_int_lt : (input : String) → signature_int input < key.n
  signature_int_lt input = mod-lt _ (omega (arith, pair.wide input))

  sign_lem : (input : String) → rsa_sign_with_private_key lib input key ≡ ok (signature input)
  unfolding rsa_sign_with_private_key
  sign_lem input = ground (arith, pair.wide input)

  verify_lem :
      (input : String)
      → rsa_verify_with_public_key lib input (signature input) key.n key.e ≡ ok true
  unfolding rsa_verify_with_public_key
  verify_lem input =
      rw (codec.back (signature_int input) (signature_int_lt input))
        (ground (arith, pair.wide input, pair.inverse (lib.sha256_int input) (pair.wide input)))

-- With a pair whose exponents undo one another below the modulus, a modulus above every digest and
-- a decoder that gives back what was encoded, every text is signed and the check under the pair's
-- public numbers accepts the signature.
pub rsa_verify-sign :
    (lib : Libs) (key : RsaKey) (input : String)
    → IsRsaPair lib key
    → Decodes lib key
    → (sig : String) × (rsa_sign_with_private_key lib input key ≡ ok sig)
      × (rsa_verify_with_public_key lib input sig key.n key.e ≡ ok true)
rsa_verify-sign lib key input pair codec = (
  signature lib key pair codec input,
  sign_lem lib key pair codec input,
  verify_lem lib key pair codec input,
)

-- A method id resolves to an RSA key in its DID document, and the subject's key file holds the
-- private key of the pair.
pub record HasRsaKey (lib : Libs) (vm : String) (w : World) : Type 0 where
  pub key : RsaKey
  pub pair : IsRsaPair lib key
  pub codec : Decodes lib key
  pub resolved : ResolvedVerificationMethod
  pub kty : String
  pub n : String
  pub e : String
  pub found : resolve_verification_method lib vm w ≡ ok resolved
  pub is_rsa : resolved.public_key_jwk ≡ rsa_jwk kty n e
  pub modulus : lib.decode_int n ≡ some key.n
  pub exponent : lib.decode_int e ≡ some key.e
  pub file : lib.private_key resolved.subject_id ≡ some key

-- Where a method id resolves to an RSA key whose private half is in the subject's key file, every
-- text is signed under the id and the check under the same id accepts the signature.
pub rsa_verify_with_kid-sign :
    (lib : Libs) (vm : String) (w : World) (input : String)
    → HasRsaKey lib vm w
    → (sig : String) × (rsa_sign_with_kid lib input vm w ≡ ok sig)
      × (rsa_verify_with_kid lib input sig vm w ≡ ok true)
unfolding rsa_sign_with_kid rsa_verify_with_kid verify_with_jwk
rsa_verify_with_kid-sign lib vm w input k =
    let (sig, signed, accepted) = rsa_verify-sign lib k.key input k.pair k.codec in
    (
      sig,
      rw (k.found, k.file) signed,
      rw (k.found, k.is_rsa, verify_with_jwk, k.modulus, k.exponent) accepted,
    )

-- The same behind the choice by the algorithm's name.
pub sign_with_kid-rsa :
    (lib : Libs) (input vm alg : String) (w : World)
    → alg ≡ "BUIAM-RS256"
    → HasRsaKey lib vm w
    → (sig : String) × (sign_with_kid lib alg input vm w ≡ ok sig)
      × (verify_with_kid lib alg input sig vm w ≡ ok true)
unfolding sign_with_kid verify_with_kid
sign_with_kid-rsa lib input vm alg w e k =
    let (sig, signed, accepted) = rsa_verify_with_kid-sign lib vm w input k in
    (sig, rw e signed, rw e accepted)
