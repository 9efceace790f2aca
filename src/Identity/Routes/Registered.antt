-- ===== src/Identity/Routes/Registered.antt =====
-- The DID documents that `register_did` (app/identity/routes.py) lets in.
use bu_iam.Prelude.{
  String, ◌≡◌, refl, sym, ap, ◌∙◌, subst, inl, inr, true, Option, none, some, arith, ◌==◌, eq_iff,
  is_none, Bool-cases, if◌then◌else◌,
}
use bu_iam.Prelude.Result.{ok-injective, ok, err, guard, guard-eq-ok, >>=-eq-ok}
use bu_iam.Json.{Json, text, Fields, get}
use bu_iam.Libs.{Libs}
use bu_iam.Protocol.Errors.{Read}
use bu_iam.World.{World}
use bu_iam.Store.DidRegistry.{get_did_document, upsert_did_document, get_did_document-upsert}
use bu_iam.Identity.Proof.{
  get_or, verify_with_key, proof_input, check_proof, extract_jwk, verify_did_proof,
}
use bu_iam.Identity.Routes.{
  fails, is_did, text_or_fail, first_method, dict_or_fail, check_jwk, subject_of, column_text,
  DidRegisterRequest, check_registration, store_registration, register_did,
}

-- A document signed with a key that it names itself.
pub record Proved (lib : Libs) (r : DidRegisterRequest) : Type 0 where
  pub jwk : Fields
  pub named :
      extract_jwk lib (get_or "verificationMethod" (text "") r.proof) r.did_document ≡ ok (some jwk)
  pub signed :
      verify_with_key lib
        (proof_input lib r.did_document)
        (get_or "signatureValue" (text "") r.proof)
        jwk
      ≡ true

check_proof-true :
    (lib : Libs) (document : Fields) (signature : Json) (o : Option Fields)
    → check_proof lib document signature o ≡ true
    → (jwk : Fields) × (o ≡ some jwk)
      × (verify_with_key lib (proof_input lib document) signature jwk ≡ true)
unfolding check_proof
check_proof-true lib document signature none h = absurd (cc h)
check_proof-true lib document signature (some jwk) h = (jwk, refl, ground (arith, h))

proof-Proved :
    (lib : Libs) (r : DidRegisterRequest)
    → verify_did_proof lib r.did_document r.proof ≡ ok true
    → Proved lib r
unfolding verify_did_proof
proof-Proved lib r h =
    let (o, found, h₁) = >>=-eq-ok _ _ h in
    let (jwk, is_some, signed) =
      check_proof-true lib r.did_document (get_or "signatureValue" (text "") r.proof) o (cc h₁) in
    record { jwk = jwk; named = found ∙ ap ok is_some; signed = signed }

-- A DID that may be stored: well formed, named by the document, new, and proved.
pub record Admitted (lib : Libs) (r : DidRegisterRequest) (w : World) (did : String) : Type 0 where
  pub named : get_or "id" (text "") r.did_document ≡ text did
  pub formed : is_did did ≡ true
  pub complete :
      (vm : Fields) × (jwk : Fields) × (first_method (get "verificationMethod" r.did_document)
        ≡ ok vm)
      × (get "publicKeyJwk" vm ≡ some (Json.obj jwk))
      × (check_jwk jwk ≡ ok tt)
  pub proved : Proved lib r
  pub fresh : get_did_document did w ≡ none

text_or_fail-ok : (code : String) (v : Json) (t : String) → text_or_fail code v ≡ ok t → v ≡ text t
unfolding text_or_fail
text_or_fail-ok code (text s) t h = elim (Bool-cases (s == "")) [
  | inl empty ↦ absurd (cc (rw empty at h))
  | inr full ↦ ground (arith, rw full at h)
]
text_or_fail-ok code v t h = absurd (cc h)

dict_or_fail-ok : (o : Option Json) (fs : Fields) → dict_or_fail o ≡ ok fs → o ≡ some (Json.obj fs)
unfolding dict_or_fail
dict_or_fail-ok (some (Json.obj (Fields.field k v fs))) gs h = ground (arith, h)
dict_or_fail-ok o gs h = absurd (cc h)

is_none-true : {A : Type 0} (o : Option A) → is_none o ≡ true → o ≡ none
is_none-true none h = refl
is_none-true (some a) h = cc

check_registration-Admitted :
    (lib : Libs) (r : DidRegisterRequest) (w : World) (found : String × String)
    → check_registration lib r w ≡ ok found
    → Admitted lib r w found.0
unfolding check_registration
check_registration-Admitted lib r w found h =
    let (did, named, h₁) =
      >>=-eq-ok (text_or_fail "DID_MISSING_ID" (get_or "id" (text "") r.did_document)) _ h in
    let (u, formed, h₂) = >>=-eq-ok (guard (is_did did) (fails 400 "DID_INVALID_FORMAT")) _ h₁ in
    let (vm, first, h₃) = >>=-eq-ok (first_method (get "verificationMethod" r.did_document)) _ h₂ in
    let (vm_id, has_id, h₄) =
      >>=-eq-ok (text_or_fail "DID_MISSING_VM_ID" (get_or "id" (text "") vm)) _ h₃ in
    let (jwk, has_jwk, h₅) = >>=-eq-ok (dict_or_fail (get "publicKeyJwk" vm)) _ h₄ in
    let (v, complete, h₆) = >>=-eq-ok (check_jwk jwk) _ h₅ in
    let (proved, verified, h₇) = >>=-eq-ok (verify_did_proof lib r.did_document r.proof) _ h₆ in
    let (x, accepted, h₈) = >>=-eq-ok (guard proved (fails 400 "DID_PROOF_INVALID")) _ h₇ in
    let (subject, has_subject, h₉) = >>=-eq-ok (subject_of r.did_document) _ h₈ in
    let (y, fresh, hₐ) =
      >>=-eq-ok (guard (is_none (get_did_document did w)) (fails 409 "DID_ALREADY_REGISTERED")) _
        h₉ in
    let (stored, as_text, same) = >>=-eq-ok (column_text lib subject) _ hₐ in
    subst (Admitted lib r w) (ap (λ (q : String × String). q.0) (ok-injective same)) (record {
      named = text_or_fail-ok "DID_MISSING_ID" _ did named;
      formed = guard-eq-ok _ _ formed;
      complete = (vm, jwk, first, dict_or_fail-ok _ jwk has_jwk, complete);
      proved = proof-Proved lib r (verified ∙ ap ok (guard-eq-ok _ _ accepted));
      fresh = is_none-true _ (guard-eq-ok _ _ fresh);
    })

store_registration-ok :
    (r : DidRegisterRequest) (out : Read (String × String)) (w w' : World) (found : String × String)
    → store_registration r out w ≡ (ok found, w')
    → (out ≡ ok found) × (w' ≡ upsert_did_document found.0 found.1 r.did_document w)
unfolding store_registration
store_registration-ok r (err x) w w' found h = absurd (cc (ap (λ q. q.0) h))
store_registration-ok r (ok f) w w' found h =
    let same = ok-injective (ap (λ q. q.0) h) in
    (
      ap ok same,
      sym (ap (λ q. q.1) h)
          ∙ ap (λ (q : String × String). upsert_did_document q.0 q.1 r.did_document w) same,
    )

-- If `register_did` returns, the DID is well formed and named by the document, the first
-- verification method has a complete key, the document is signed with a key that it names under
-- the proof's method, the DID was not stored before, and afterwards the document is read back
-- under that DID and every other DID as before.
pub register_did-Admitted :
    (lib : Libs) (r : DidRegisterRequest) (w w' : World) (found : String × String)
    → register_did lib r w ≡ (ok found, w')
    → Admitted lib r w found.0
      × ((d : String)
          → get_did_document d w'
            ≡ (if found.0 == d then some r.did_document else get_did_document d w))
unfolding register_did
register_did-Admitted lib r w w' found h =
    let (checked, written) = store_registration-ok r (check_registration lib r w) w w' found h in
    (
      check_registration-Admitted lib r w found checked,
      λ d.
          ap (get_did_document d) written
          ∙ get_did_document-upsert d found.0 found.1 r.did_document w,
    )

store_registration-keeps :
    (lib : Libs) (r : DidRegisterRequest) (out : Read (String × String)) (w : World) (d : String)
    (document : Fields)
    → check_registration lib r w ≡ out
    → get_did_document d w ≡ some document
    → get_did_document d (store_registration r out w).1 ≡ some document
unfolding store_registration
store_registration-keeps lib r (err x) w d document checked there = there
store_registration-keeps lib r (ok found) w d document checked there =
    elim (Bool-cases (found.0 == d)) [
      | inr other ↦ get_did_document-upsert d found.0 found.1 r.did_document w ∙ rw other there
      | inl same ↦
          let fresh = (check_registration-Admitted lib r w found checked).fresh in
          absurd
            (cc (sym fresh ∙ ap (λ x. get_did_document x w) ((eq_iff found.0 d).0 same) ∙ there))
    ]

-- Whatever is asked of `register_did`, a document that is stored stays stored as it is.
pub register_did-keeps :
    (lib : Libs) (r : DidRegisterRequest) (w : World) (d : String) (document : Fields)
    → get_did_document d w ≡ some document
    → get_did_document d (register_did lib r w).1 ≡ some document
unfolding register_did
register_did-keeps lib r w d document there =
    store_registration-keeps lib r (check_registration lib r w) w d document refl there
