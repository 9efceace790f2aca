-- ===== src/Identity/Jwt/Checks.antt =====
-- app/identity/jwt_service.py: the `try` block of `inspect_token`, from the parts of a token to the
-- tests on its claims.
use Prim.Native.String.{◌++◌}
use bu_iam.Prelude.{
  ℕ, String, Bool, true, false, not, ◌&&◌, ◌||◌, Option, none, some, leb, ◌==◌, if◌then◌else◌,
}
use bu_iam.Prelude.Text.{partition}
use bu_iam.Prelude.Result.{ok, err, or_raise, ◌>>=◌}
use bu_iam.Json.{Json, text, obj, Fields, get, truth}
use bu_iam.Libs.{Libs, ℤ, pos, negsuc, str}
use bu_iam.Protocol.Errors.{did_error, other, Read}
use bu_iam.World.{World}
use bu_iam.Identity.Resolver.{
  ResolvedVerificationMethod, kty_of, str_or, resolve_verification_method,
}
use bu_iam.Identity.Crypto.{starts_with_mldsa, rsa_verify, verify_with_kid}
use bu_iam.Delegation.Credential.Check.{known_alg}

abbrev pub issuer : String
issuer = "buiam.local"

abbrev pub audience : String
audience = "buiam.a2a"

-- the arguments of `failed_token_result` that the returns differ in
pub record Failure : Type 0 where
  pub error_code : String
  pub message : String
  pub signature_valid : Option Bool
  pub issuer_valid : Option Bool
  pub audience_valid : Option Bool
  pub is_expired : Option Bool
  pub is_revoked : Option Bool
  pub is_jti_registered : Option Bool

abbrev pub failure : String → String → Failure
failure code message = record {
  error_code = code;
  message = message;
  signature_valid = none;
  issuer_valid = none;
  audience_valid = none;
  is_expired = none;
  is_revoked = none;
  is_jti_registered = none;
}

abbrev pub signed_failure : Bool → String → String → Failure
signed_failure valid code message = record (failure code message) { signature_valid = some valid }

abbrev pub malformed : Failure
malformed = failure "AUTH_TOKEN_MALFORMED" "token verification failed"

-- The parts of a token, the first two as read.
pub record Token : Type 0 where
  pub header_part : String
  pub claims_part : String
  pub signature : String
  pub header : Json
  pub claims : Json

-- token.split("."), which must have three parts
unfoldable pub split_token : String → Option (String × String × String)
unfolding partition
split_token token =
    let one = partition b'.' token in
    let two = partition b'.' one.after in
    if one.found && (two.found && not (partition b'.' two.after).found)
    then some (one.before, two.before, two.after)
    else none

-- the parts and `json.loads`; `none` where the code raises
unfoldable pub read_token : Libs → String → Option Token
unfolding split_token
read_token lib token = elim (split_token token) [
  | none ↦ none
  | some (h, c, s) ↦ elim (lib.loads_text h) [
    | none ↦ none
    | some header ↦ elim (lib.loads_text c) [
      | none ↦ none
      | some claims ↦ some (record {
        header_part = h;
        claims_part = c;
        signature = s;
        header = header;
        claims = claims;
      })
    ]
  ]
]

-- a value on which `get` is called
unfoldable pub dict_of : Json → Read Fields
dict_of (obj fs) = ok fs
dict_of v = err (other "AttributeError")

abbrev pub signing_input : Token → String
signing_input t = t.header_part ++ "." ++ t.claims_part

-- an early return of the block, or none
abbrev pub Return : Type 0
Return = Option Failure

abbrev pub passed : Return
passed = none

-- `claims.get(key) or default`, as a text
unfoldable pub claim_or : Libs → Option Json → String → String
unfolding truth
claim_or lib none default = default
claim_or lib (some v) default = if truth v then str lib v else default

-- str(claims.get("sub_did") or claims.get("agent_did") or "")
unfoldable pub subject_claim : Libs → Fields → String
unfolding get claim_or
subject_claim lib claims =
    claim_or lib (get "sub_did" claims) (claim_or lib (get "agent_did" claims) "")

abbrev pub kid_invalid : String → Failure
kid_invalid message = signed_failure false "AUTH_TOKEN_KID_INVALID" message

abbrev pub signature_invalid : Failure
signature_invalid =
    signed_failure false "AUTH_TOKEN_SIGNATURE_INVALID" "token signature verification failed"

-- the tests on the key that a method id resolves to
unfoldable pub check_key : Libs → Json → String → ResolvedVerificationMethod → Read Return
check_key lib claims alg resolved =
    if starts_with_mldsa alg && not (kty_of resolved.public_key_jwk == "ML-DSA")
    then ok (some (kid_invalid "token kid key type mismatch for ML-DSA"))
    else if not (starts_with_mldsa alg) && kty_of resolved.public_key_jwk == "ML-DSA"
    then ok (some (kid_invalid "token kid key type mismatch for RSA"))
    else do
      fields ← dict_of claims
      let subject = subject_claim lib fields
      if subject == "" || not (resolved.did == subject)
          then ok (
              some (
                signed_failure true "AUTH_TOKEN_SUBJECT_MISMATCH"
                  "token kid DID does not match claims subject DID"))
          else ok passed

-- a method id: the signature under its key, then the key
unfoldable pub check_method : Libs → Token → String → String → World → Read Return
check_method lib t alg kid w = do
  valid ← verify_with_kid lib alg (signing_input t) t.signature kid w
  if valid
      then resolve_verification_method lib kid w >>= check_key lib t.claims alg
      else ok (some signature_invalid)

-- `except DidResolutionError`
unfoldable pub catch_did : Read Return → Read Return
catch_did (ok r) = ok r
catch_did (err (did_error message)) = ok (some (kid_invalid "token kid cannot be resolved"))
catch_did (err e) = err e

-- a key id that is no method id names a key file
unfoldable pub check_file_key : Libs → Token → String → Read Return
check_file_key lib t kid = do
  valid ← rsa_verify lib (signing_input t) t.signature kid
  ok (if valid then passed else some signature_invalid)

unfoldable pub check_signature : Libs → Token → String → String → World → Read Return
unfolding partition
check_signature lib t alg kid w =
    if (partition b'#' kid).found
    then catch_did (check_method lib t alg kid w)
    else check_file_key lib t kid

-- a claim that is this very text
unfoldable pub is_claim : Option Json → String → Bool
is_claim (some (text t)) expected = t == expected
is_claim v expected = false

-- int(claims.get("exp", 0))
unfoldable pub exp_claim : Libs → Fields → Read ℤ
unfolding get
exp_claim lib claims = elim (get "exp" claims) [
  | none ↦ ok (pos 0)
  | some v ↦ or_raise (lib.int_of v) (other "ValueError")
]

abbrev pub int_le : ℤ → ℕ → Bool
int_le (pos n) now = leb n now
int_le (negsuc n) now = true

unfoldable pub check_claims : Libs → Fields → World → Read Return
check_claims lib claims w =
    if not (is_claim (get "iss" claims) issuer)
    then ok (
        some (record (signed_failure true "AUTH_TOKEN_ISSUER_MISMATCH" "token issuer mismatch") {
          issuer_valid = some false;
        }))
    else if not (is_claim (get "aud" claims) audience)
    then ok (
        some
          (record (signed_failure true "AUTH_TOKEN_AUDIENCE_MISMATCH" "token audience mismatch") {
            issuer_valid = some true;
            audience_valid = some false;
          }))
    else do
      exp ← exp_claim lib claims
      ok (
          if int_le exp w.clock
          then some (record (signed_failure true "AUTH_TOKEN_EXPIRED" "token has expired") {
            issuer_valid = some true;
            audience_valid = some true;
            is_expired = some true;
          })
          else passed)

unfoldable pub check_rest : Libs → Token → Return → World → Read Return
check_rest lib t (some f) w = ok (some f)
check_rest lib t none w = do claims ← dict_of t.claims; check_claims lib claims w

-- the block, once the parts are read
unfoldable pub check_token : Libs → Token → World → Read Return
check_token lib t w = do
  header ← dict_of t.header
  let kid = str_or lib "kid" "" header
  let alg = str_or lib "alg" "" header
  if not (known_alg alg) || kid == ""
      then ok (some (failure "AUTH_TOKEN_INVALID" "invalid token header"))
      else check_signature lib t alg kid w >>= λ early. check_rest lib t early w
