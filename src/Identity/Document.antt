-- ===== src/Identity/Document.antt =====
-- app/identity/did.py: `build_did_document`, with the public half of the subject's key file.
use Prim.Native.String.{◌++◌}
use bu_iam.Prelude.{ℕ, ◌+◌, ◌/◌, String, Option, none, some, [], ◌∷◌, max, truthy, if◌then◌else◌}
use bu_iam.Prelude.Result.{ok, or_raise, ◌>>=◌}
use bu_iam.Json.{text, arr, obj, Items, nil, cons, Fields, end, field, texts, texts_items}
use bu_iam.Libs.{Libs}
use bu_iam.Protocol.Errors.{other, Read}
use bu_iam.Identity.Did.{build_did, build_verification_method_id}
use bu_iam.Identity.Crypto.{bit_length}

-- `_int_str_to_base64url`
unfoldable pub int_text : Libs → ℕ → String
unfolding bit_length
int_text lib number = lib.encode_int (max 1 ((bit_length number + 7) / 8)) number

-- The key of a document, with its keys in the order that `sorted` gives them.
pub data DocumentKey : Type 0 where
  mldsa_key : String → String → DocumentKey
  rsa_key : String → String → DocumentKey

unfoldable pub document_key : Libs → String → Read DocumentKey
unfolding int_text
document_key lib subject_id =
    if lib.use_mldsa
    then (do
      key ← or_raise (lib.mldsa_public_key subject_id) (other "OSError")
      ok (mldsa_key key.0 key.1))
    else (do
      key ← or_raise (lib.public_key subject_id) (other "OSError")
      ok (rsa_key (int_text lib key.n) (int_text lib key.e)))

unfoldable pub key_json : DocumentKey → Fields
key_json (mldsa_key alg pk) =
    field "kty" (text "ML-DSA") (field "alg" (text alg) (field "pk" (text pk) end))
key_json (rsa_key n e) = field "kty" (text "RSA") (field "n" (text n) (field "e" (text e) end))

-- `_jwk_fingerprint`
unfoldable pub jwk_fingerprint : Libs → DocumentKey → String
jwk_fingerprint lib (mldsa_key alg pk) = lib.sha256_hex ("alg:" ++ alg ++ "|kty:ML-DSA|pk:" ++ pk)
jwk_fingerprint lib (rsa_key n e) = lib.sha256_hex ("e:" ++ e ++ "|kty:RSA|n:" ++ n)

unfoldable pub service_items : String → Option String → Items
service_items did endpoint =
    if truthy endpoint
    then cons
        (obj (
          field "id" (text (did ++ "#a2a-service")) (
            field "type" (text "A2A-Service") (
              field "serviceEndpoint" (elim endpoint [ none ↦ text "" | some url ↦ text url ])
                end))))
        nil
    else nil

unfoldable pub method_json : String → String → DocumentKey → Fields
unfolding key_json
method_json did vm_id key = field "id" (text vm_id) (
    field "type" (text "JsonWebKey2020")
      (field "controller" (text did) (field "publicKeyJwk" (obj (key_json key)) end)))

unfoldable pub document_json : Libs → String → Option String → DocumentKey → Fields
unfolding build_did build_verification_method_id method_json service_items jwk_fingerprint
    texts_items
document_json lib subject_id endpoint key =
    let did = build_did subject_id in
    let vm_id = build_verification_method_id did in
    field "@context" (texts ("https://www.w3.org/ns/did/v1" ∷ [])) (
      field "id" (text did) (
        field "verificationMethod" (arr (cons (obj (method_json did vm_id key)) nil)) (
          field "authentication" (texts (vm_id ∷ [])) (
            field "assertionMethod" (texts (vm_id ∷ [])) (
              field "capabilityDelegation" (texts (vm_id ∷ [])) (
                field "keyAgreement" (arr nil) (
                  field "service" (arr (service_items did endpoint)) (
                    field "metadata"
                      (obj (
                        field "subject_id" (text subject_id)
                          (field "fingerprint" (text (jwk_fingerprint lib key)) end)))
                      end))))))))

unfoldable pub build_did_document : Libs → String → Option String → Read Fields
unfolding document_key document_json
build_did_document lib subject_id endpoint = do
  key ← document_key lib subject_id
  ok (document_json lib subject_id endpoint key)
