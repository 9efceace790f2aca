-- ===== src/Identity/Routes/Built.antt =====
-- `register_did` (app/identity/routes.py) lets in a document that `build_did_document` has made,
-- with the proof that `create_did_proof` has made of it.
use bu_iam.Prelude.{
  ℕ, zero, suc, max, ◌<◌, ◌+◌, ◌/◌, String, ◌≡◌, refl, sym, ap, ◌∙◌, true, false, Option, none,
  some, ◌==◌, eq_refl, eq_iff, same_code, arith, subst, inl, inr, Bool-cases,
}
use bu_iam.Prelude.Result.{ok, >>=-eq-ok, ok-injective}
use bu_iam.Json.{text, obj, Fields}
use bu_iam.Libs.{Libs, RsaKey}
use bu_iam.World.{World}
use bu_iam.Store.DidRegistry.{get_did_document, upsert_did_document}
use bu_iam.Identity.Did.{build_did, build_verification_method_id}
use bu_iam.Identity.Crypto.{
  bit_length, pow_mod, rsa_sign_with_private_key, rsa_verify_with_public_key,
}
use bu_iam.Identity.Crypto.RoundTrip.{IsRsaPair, Decodes, rsa_verify-sign}
use bu_iam.Delegation.Credential.Integrity.{method_id-ne-empty}
use bu_iam.Identity.Document.{
  DocumentKey, rsa_key, key_json, int_text, document_key, document_json, build_did_document,
}
use bu_iam.Identity.Proof.{
  DidProof, extract_jwk, jwk_int, rsa_verify_with_jwk, verify_with_key, check_proof,
  verify_did_proof, sign_with_file, create_did_proof, proof_json,
}
use bu_iam.Identity.Routes.{
  is_did, text_or_fail, first_method, dict_or_fail, check_jwk, subject_of, column_text,
  check_registration, store_registration, register_did,
}

-- A subject with its RSA key file, and base64 on that key's numbers: what is encoded is not empty
-- and is decoded again.
pub record HasKeyFile (lib : Libs) (id : String) : Type 0 where
  pub key : RsaKey
  pub rsa : lib.use_mldsa ≡ false
  pub private : lib.private_key id ≡ some key
  pub public : lib.public_key id ≡ some key
  pub pair : IsRsaPair lib key
  pub codec : Decodes lib key
  pub full : (len x : ℕ) → 0 < len → (lib.encode_int len x == "") ≡ false
  pub modulus : lib.decode_int (int_text lib key.n) ≡ some key.n
  pub exponent : lib.decode_int (int_text lib key.e) ≡ some key.e
  pub modulus_positive : same_code key.n 0 ≡ false
  pub exponent_positive : same_code key.e 0 ≡ false

module _ (lib : Libs) (id : String) (k : HasKeyFile lib id) where
  abbrev own_key : DocumentKey
  own_key = rsa_key (int_text lib k.key.n) (int_text lib k.key.e)

  abbrev own_document : Option String → Fields
  own_document endpoint = document_json lib id endpoint own_key

  document-built :
      (endpoint : Option String) → build_did_document lib id endpoint ≡ ok (own_document endpoint)
  unfolding build_did_document document_key
  document-built endpoint = rw (k.rsa, k.public) refl

  number_full : (x : ℕ) → (int_text lib x == "") ≡ false
  unfolding int_text
  number_full x = k.full (max 1 ((bit_length x + 7) / 8)) x (omega arith)

  bit_length_pos : (n : ℕ) → same_code n 0 ≡ false → 0 < (bit_length n + 7) / 8
  unfolding bit_length
  bit_length_pos zero h = absurd (cc h)
  bit_length_pos (suc m) h = ground arith

  signature_full :
      (input sig : String)
      → rsa_sign_with_private_key lib input k.key ≡ ok sig
      → (sig == "") ≡ false
  unfolding rsa_sign_with_private_key
  signature_full input sig h =
      let (s, powered, h₁) =
        >>=-eq-ok (pow_mod (lib.sha256_int input) k.key.d k.key.n)
          (λ x. ok (lib.encode_int ((bit_length k.key.n + 7) / 8) x)) h in
      ap (λ t. t == "") (sym (ok-injective h₁))
      ∙ k.full ((bit_length k.key.n + 7) / 8) s (bit_length_pos k.key.n k.modulus_positive)

  -- the proof of the document, under the document's own method
  proof-made :
      (endpoint : Option String) (sig : String) (w : World)
      → rsa_sign_with_private_key lib (lib.dumps (obj (own_document endpoint))) k.key ≡ ok sig
      → create_did_proof lib (own_document endpoint) id w
        ≡ ok (record {
          type = "BUIAM-RS256";
          verification_method = build_verification_method_id (build_did id);
          created = lib.utc_text w.clock;
          signature_value = sig;
        })
  unfolding create_did_proof sign_with_file document_json int_text
  proof-made endpoint sig w signed = rw (k.rsa, k.private, signed) refl

  abbrev own_method : String
  own_method = build_verification_method_id (build_did id)

  jwk-found :
      (endpoint : Option String)
      → extract_jwk lib (text own_method) (own_document endpoint) ≡ ok (some (key_json own_key))
  unfolding extract_jwk document_json
  jwk-found endpoint = rw (eq_refl own_method) refl

  number-read :
      (t : String) (n : ℕ)
      → (t == "") ≡ false
      → lib.decode_int t ≡ some n
      → jwk_int lib (text t) ≡ ok n
  unfolding jwk_int
  number-read t n full decoded = rw (full, decoded) refl

  key-accepts :
      (input sig : String)
      → rsa_verify_with_public_key lib input sig k.key.n k.key.e ≡ ok true
      → verify_with_key lib input (text sig) (key_json own_key) ≡ true
  unfolding verify_with_key key_json rsa_verify_with_jwk
  key-accepts input sig verified =
      rw
        (
          number-read (int_text lib k.key.n) k.key.n (number_full k.key.n) k.modulus,
          number-read (int_text lib k.key.e) k.key.e (number_full k.key.e) k.exponent,
          k.modulus_positive,
          k.exponent_positive,
          verified,
        )
        refl

  abbrev own_proof : String → World → Fields
  own_proof sig w = proof_json (record {
    type = "BUIAM-RS256";
    verification_method = own_method;
    created = lib.utc_text w.clock;
    signature_value = sig;
  })

  proof-accepted :
      (endpoint : Option String) (sig : String) (w : World)
      → rsa_sign_with_private_key lib (lib.dumps (obj (own_document endpoint))) k.key ≡ ok sig
      → rsa_verify_with_public_key lib (lib.dumps (obj (own_document endpoint))) sig k.key.n k.key.e
        ≡ ok true
      → verify_did_proof lib (own_document endpoint) (own_proof sig w) ≡ ok true
  unfolding verify_did_proof check_proof proof_json document_json
  proof-accepted endpoint sig w signed verified =
      rw (jwk-found endpoint, signature_full _ sig signed, key-accepts _ sig verified) refl

  registration-checked :
      (endpoint : Option String) (sig : String) (w : World)
      → verify_did_proof lib (own_document endpoint) (own_proof sig w) ≡ ok true
      → is_did (build_did id) ≡ true
      → (build_did id == "") ≡ false
      → (own_method == "") ≡ false
      → get_did_document (build_did id) w ≡ none
      → check_registration lib
          (record { did_document = own_document endpoint; proof = own_proof sig w })
          w
        ≡ ok (build_did id, id)
  unfolding check_registration check_jwk document_json key_json first_method dict_or_fail
      text_or_fail subject_of column_text
  registration-checked endpoint sig w proved formed full full_method fresh =
      rw (full, formed, full_method, number_full k.key.n, number_full k.key.e, proved, fresh) refl

is_did-ne-empty : (did : String) → is_did did ≡ true → (did == "") ≡ false
is_did-ne-empty did formed = elim (Bool-cases (did == "")) [
  | inr full ↦ full
  | inl empty ↦
      absurd (unfold is_did in cc (subst (λ t. is_did t ≡ true) ((eq_iff did "").0 empty) formed))
]

-- Under the RSA algorithm, for a subject with a key file of a valid key, base64 that reads back
-- that key's numbers and encodes to no empty text, and a well-formed DID that is not stored,
-- `register_did` stores the document that `build_did_document` makes, with the proof that
-- `create_did_proof` makes of it.
pub register_did-built :
    (lib : Libs) (id : String) (endpoint : Option String) (w : World)
    → HasKeyFile lib id
    → is_did (build_did id) ≡ true
    → get_did_document (build_did id) w ≡ none
    → (document : Fields) × (p : DidProof) × (build_did_document lib id endpoint ≡ ok document)
      × (create_did_proof lib document id w ≡ ok p)
      × (register_did lib (record { did_document = document; proof = proof_json p }) w
          ≡ (ok (build_did id, id), upsert_did_document (build_did id) id document w))
unfolding register_did store_registration
register_did-built lib id endpoint w k formed fresh =
    let (sig, signed, verified) =
      rsa_verify-sign lib k.key (lib.dumps (obj (own_document lib id k endpoint))) k.pair k.codec in
    let proved = proof-accepted lib id k endpoint sig w signed verified in
    let checked =
      registration-checked lib id k endpoint sig w proved formed
        (is_did-ne-empty (build_did id) formed) (method_id-ne-empty (build_did id)) fresh in
    (
      own_document lib id k endpoint,
      record {
        type = "BUIAM-RS256";
        verification_method = own_method lib id k;
        created = lib.utc_text w.clock;
        signature_value = sig;
      },
      document-built lib id k endpoint,
      proof-made lib id k endpoint sig w signed,
      rw checked refl,
    )
