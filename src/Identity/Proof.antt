-- ===== src/Identity/Proof.antt =====
-- app/identity/did_proof.py: `create_did_proof` and `verify_did_proof`, the proof that the sender of a DID document holds
-- a key that the document names.
use bu_iam.Prelude.{
  ℕ, String, Bool, true, false, ◌||◌, Option, none, some, ◌==◌, same_code, if◌then◌else◌,
}
use bu_iam.Prelude.Result.{ok, err, recover, or_raise, ◌>>=◌}
use bu_iam.Json.{
  field, Json, null, bool, num, text, arr, obj, Items, nil, cons, Fields, end, get, truth, without,
}
use bu_iam.Libs.{Libs, str}
use bu_iam.Protocol.Errors.{other, Read}
use bu_iam.World.{World}
use bu_iam.Identity.Resolver.{str_or}
use bu_iam.Identity.Crypto.{rsa_sign_with_private_key, rsa_verify_with_public_key}

-- the number of a bool, which Python compares as one
abbrev pub as_num : Bool → ℕ
as_num false = 0
as_num true = 1

-- `a == b` of two values; lists, dicts and fractions by their canonical text
unfoldable pub same_value : Libs → Json → Json → Bool
same_value lib (text a) (text b) = a == b
same_value lib (text a) b = false
same_value lib a (text b) = false
same_value lib null null = true
same_value lib null b = false
same_value lib a null = false
same_value lib (bool a) (bool b) = same_code (as_num a) (as_num b)
same_value lib (bool a) (num n) = same_code (as_num a) n
same_value lib (num n) (bool b) = same_code n (as_num b)
same_value lib (num n) (num m) = same_code n m
same_value lib a b = lib.dumps a == lib.dumps b

-- d.get(key) and d.get(key, default)
abbrev pub get_or : String → Json → Fields → Json
unfolding get
get_or key default fs = elim (get key fs) [ none ↦ default | some v ↦ v ]

-- The key of the first method that has the id and a dict for its key. An item that is no dict has
-- no `get`.
unfoldable pub find_jwk : Libs → Json → Items → Read (Option Fields)
unfolding get same_value
find_jwk lib vm_id nil = ok none
find_jwk lib vm_id (cons (obj vm) rest) =
    let others = find_jwk lib vm_id rest in
    elim (get "publicKeyJwk" vm) [
      | some (obj jwk) ↦
          if same_value lib (get_or "id" null vm) vm_id then ok (some jwk) else others
      | _ ↦ others
    ]
find_jwk lib vm_id (cons v rest) = err (other "AttributeError")

-- the iteration over did_document.get("verificationMethod", [])
unfoldable pub extract_jwk : Libs → Json → Fields → Read (Option Fields)
unfolding get find_jwk
extract_jwk lib vm_id document = elim (get "verificationMethod" document) [
  | none ↦ ok none
  | some (arr vms) ↦ find_jwk lib vm_id vms
  | some (obj end) ↦ ok none
  | some (text t) ↦ if t == "" then ok none else err (other "AttributeError")
  | some (obj fs) ↦ err (other "AttributeError")
  | some v ↦ err (other "TypeError")
]

-- canonical_json(_did_document_without_proof(did_document))
unfoldable pub proof_input : Libs → Fields → String
unfolding without
proof_input lib document = lib.dumps (obj (without "proof" document))

-- `_base64url_jwk_param_to_int`, of a value that is no text but is true it raises
unfoldable pub jwk_int : Libs → Json → Read ℕ
unfolding truth
jwk_int lib (text t) =
    if t == "" then ok 0 else or_raise (lib.decode_int t) (other "binascii.Error")
jwk_int lib v = if truth v then err (other "TypeError") else ok 0

unfoldable pub rsa_verify_with_jwk : Libs → String → Json → Fields → Read Bool
unfolding get jwk_int
rsa_verify_with_jwk lib signing_input signature jwk = do
  n ← jwk_int lib (get_or "n" (text "") jwk)
  e ← jwk_int lib (get_or "e" (text "") jwk)
  if same_code n 0 || same_code e 0 then ok false else elim signature [
    | text sig ↦ rsa_verify_with_public_key lib signing_input sig n e
    | _ ↦ err (other "TypeError")
  ]

-- `_mldsa_verify_with_public` on the key's values; what is no text raises inside, and is refused
unfoldable pub mldsa_verify_with_jwk : Libs → String → Json → Fields → Bool
unfolding get str_or
mldsa_verify_with_jwk lib signing_input signature jwk = elim signature [
  | text sig ↦ elim (get_or "pk" (text "") jwk) [
    | text pk ↦ lib.oqs_verify (str_or lib "alg" "ML-DSA-65" jwk) pk signing_input sig
    | _ ↦ false
  ]
  | _ ↦ false
]

-- `except Exception: return False`
unfoldable pub verify_with_key : Libs → String → Json → Fields → Bool
unfolding str_or mldsa_verify_with_jwk rsa_verify_with_jwk
verify_with_key lib signing_input signature jwk =
    if str_or lib "kty" "" jwk == "ML-DSA"
    then mldsa_verify_with_jwk lib signing_input signature jwk
    else recover (rsa_verify_with_jwk lib signing_input signature jwk) (λ _. false)

unfoldable pub check_proof : Libs → Fields → Json → Option Fields → Bool
unfolding truth proof_input verify_with_key
check_proof lib document signature none = false
check_proof lib document signature (some jwk) =
    if truth signature then verify_with_key lib (proof_input lib document) signature jwk else false

unfoldable pub verify_did_proof : Libs → Fields → Fields → Read Bool
unfolding get extract_jwk check_proof
verify_did_proof lib document proof = do
  jwk ← extract_jwk lib (get_or "verificationMethod" (text "") proof) document
  ok (check_proof lib document (get_or "signatureValue" (text "") proof) jwk)

pub record DidProof : Type 0 where
  pub type : String
  pub verification_method : String
  pub created : String
  pub signature_value : String

-- `_extract_first_verification_method`
unfoldable pub first_method_id : Libs → Option Json → Read String
unfolding get truth
first_method_id lib (some (arr (cons (obj vm) rest))) = ok (str lib (get_or "id" (text "") vm))
first_method_id lib (some v) = if truth v then err (other "AttributeError") else ok ""
first_method_id lib none = ok ""

-- mldsa_sign(canonical, subject_id) or rsa_sign(canonical, subject_id)
unfoldable pub sign_with_file : Libs → String → String → Read String
unfolding rsa_sign_with_private_key
sign_with_file lib canonical subject_id =
    if lib.use_mldsa
    then (do
      key ← or_raise (lib.mldsa_private_key subject_id) (other "OSError")
      or_raise (lib.oqs_sign key.0 key.1 canonical) (other "MechanismNotSupportedError"))
    else (do
      key ← or_raise (lib.private_key subject_id) (other "OSError")
      rsa_sign_with_private_key lib canonical key)

unfoldable pub create_did_proof : Libs → Fields → String → World → Read DidProof
unfolding get first_method_id sign_with_file
create_did_proof lib document subject_id w = do
  vm ← first_method_id lib (get "verificationMethod" document)
  signature ← sign_with_file lib (lib.dumps (obj document)) subject_id
  ok (record {
    type = if lib.use_mldsa then "BUIAM-MLDSA-65" else "BUIAM-RS256";
    verification_method = vm;
    created = lib.utc_text w.clock;
    signature_value = signature;
  })

-- the dict that it returns
unfoldable pub proof_json : DidProof → Fields
proof_json p = field "type" (text p.type) (
    field "verificationMethod" (text p.verification_method)
      (field "created" (text p.created) (field "signatureValue" (text p.signature_value) end)))
