-- ===== src/Identity/Jwt/Passed.antt =====
-- What the `try` block of `inspect_token` (app/identity/jwt_service.py) lets pass.
use bu_iam.Prelude.{
  String, ◌≡◌, refl, ◌∙◌, ap, inl, inr, true, false, not, none, some, arith, ◌==◌, ◌||◌, eq_iff,
  Bool-cases,
}
use bu_iam.Prelude.Text.{partition}
use bu_iam.Prelude.Result.{ok, err, Result-cases, >>=-eq-ok}
use bu_iam.Json.{Json, Fields, get}
use bu_iam.Libs.{Libs, ℤ}
use bu_iam.Protocol.Errors.{did_error, Read}
use bu_iam.World.{World}
use bu_iam.Identity.Resolver.{ResolvedVerificationMethod, str_or, resolve_verification_method}
use bu_iam.Identity.Crypto.{rsa_verify, verify_with_kid}
use bu_iam.Delegation.Credential.Check.{known_alg}
use bu_iam.Identity.Jwt.Checks.{
  Return, Token, issuer, audience, dict_of, signing_input, subject_claim, check_key, check_method,
  catch_did, check_file_key, check_signature, is_claim, exp_claim, int_le, check_claims, check_rest,
  check_token,
}

-- The signature was made with the key that the header names: that of the claims' own DID, or a
-- key file.
pub data SignedBy (lib : Libs) (t : Token) (alg kid : String) (w : World) : Type 0 where
  by_method :
      (resolved : ResolvedVerificationMethod) (claims : Fields)
      → verify_with_kid lib alg (signing_input t) t.signature kid w ≡ ok true
      → resolve_verification_method lib kid w ≡ ok resolved
      → dict_of t.claims ≡ ok claims
      → resolved.did ≡ subject_claim lib claims
      → SignedBy lib t alg kid w
  by_file : rsa_verify lib (signing_input t) t.signature kid ≡ ok true → SignedBy lib t alg kid w

-- The claims are for this program and have not expired.
pub record Current (lib : Libs) (claims : Fields) (w : World) : Type 0 where
  pub issued : is_claim (get "iss" claims) issuer ≡ true
  pub for_us : is_claim (get "aud" claims) audience ≡ true
  pub exp : ℤ
  pub is_exp : exp_claim lib claims ≡ ok exp
  pub later : int_le exp w.clock ≡ false

check_key-passed :
    (lib : Libs) (claims : Json) (alg : String) (v : ResolvedVerificationMethod)
    → check_key lib claims alg v ≡ ok none
    → (fields : Fields) × (dict_of claims ≡ ok fields) × (v.did ≡ subject_claim lib fields)
unfolding check_key
check_key-passed lib claims alg v h = elim (Result-cases (dict_of claims)) [
  | inl (e, failed) ↦ absurd (ground (arith, failed, h))
  | inr (fields, read) ↦ (fields, read, (eq_iff _ _).0 (ground (arith, read, h)))
]

check_method-passed :
    (lib : Libs) (t : Token) (alg kid : String) (w : World)
    → check_method lib t alg kid w ≡ ok none
    → SignedBy lib t alg kid w
unfolding check_method
check_method-passed lib t alg kid w h =
    let (valid, verified, h₁) =
      >>=-eq-ok (verify_with_kid lib alg (signing_input t) t.signature kid w) _ h in
    elim (Bool-cases valid) [
      | inr refused ↦ absurd (cc (rw refused at h₁))
      | inl accepted ↦
          let (resolved, is_resolved, h₂) =
            >>=-eq-ok (resolve_verification_method lib kid w) _ (rw accepted at h₁) in
          let (claims, are_claims, same) = check_key-passed lib t.claims alg resolved h₂ in
          by_method resolved claims (verified ∙ ap ok accepted) is_resolved are_claims same
    ]

catch_did-passed : (r : Read Return) → catch_did r ≡ ok none → r ≡ ok none
unfolding catch_did
catch_did-passed (ok r) h = h
catch_did-passed (err (did_error m)) h = absurd (cc)
catch_did-passed (err _) h = absurd (cc)

check_file_key-passed :
    (lib : Libs) (t : Token) (kid : String)
    → check_file_key lib t kid ≡ ok none
    → rsa_verify lib (signing_input t) t.signature kid ≡ ok true
unfolding check_file_key
check_file_key-passed lib t kid h =
    let (valid, verified, h₁) = >>=-eq-ok (rsa_verify lib (signing_input t) t.signature kid) _ h in
    elim (Bool-cases valid) [
      | inl accepted ↦ verified ∙ ap ok accepted
      | inr refused ↦ absurd (cc (rw refused at h₁))
    ]

check_signature-passed :
    (lib : Libs) (t : Token) (alg kid : String) (w : World) (early : Return)
    → check_signature lib t alg kid w ≡ ok early
    → early ≡ none
    → SignedBy lib t alg kid w
unfolding check_signature
check_signature-passed lib t alg kid w early h e = elim (Bool-cases (partition b'#' kid).found) [
  | inl is_method ↦
      check_method-passed lib t alg kid w (catch_did-passed _ (rw (is_method, e) at h))
  | inr is_file ↦ by_file (check_file_key-passed lib t kid (rw (is_file, e) at h))
]

check_claims-passed :
    (lib : Libs) (claims : Fields) (w : World)
    → check_claims lib claims w ≡ ok none
    → Current lib claims w
unfolding check_claims
check_claims-passed lib claims w h = elim (Result-cases (exp_claim lib claims)) [
  | inl (e, failed) ↦ absurd (ground (arith, failed, h))
  | inr (exp, is_exp) ↦ record {
    issued = ground (arith, h);
    for_us = ground (arith, h);
    exp = exp;
    is_exp = is_exp;
    later = ground (arith, is_exp, h);
  }
]

check_rest-passed :
    (lib : Libs) (t : Token) (early : Return) (w : World)
    → check_rest lib t early w ≡ ok none
    → (early ≡ none) × ((claims : Fields) × (dict_of t.claims ≡ ok claims) × Current lib claims w)
unfolding check_rest
check_rest-passed lib t (some f) w h = absurd (cc)
check_rest-passed lib t none w h =
    let (claims, are_claims, h₁) = >>=-eq-ok (dict_of t.claims) (λ c. check_claims lib c w) h in
    (refl, (claims, are_claims, check_claims-passed lib claims w h₁))

-- What every token that passes the block has.
pub record Passed (lib : Libs) (t : Token) (w : World) : Type 0 where
  pub header : Fields
  pub is_header : dict_of t.header ≡ ok header
  pub known : known_alg (str_or lib "alg" "" header) ≡ true
  pub signed : SignedBy lib t (str_or lib "alg" "" header) (str_or lib "kid" "" header) w
  pub claims : Fields
  pub are_claims : dict_of t.claims ≡ ok claims
  pub current : Current lib claims w

-- A token that the checks of `inspect_token` let pass is signed under an accepted algorithm, with
-- the key of the DID in its claims or with a key file, and its claims name this issuer and
-- audience and an expiry that lies ahead.
pub check_token-Passed :
    (lib : Libs) (t : Token) (w : World) → check_token lib t w ≡ ok none → Passed lib t w
unfolding check_token
check_token-Passed lib t w h =
    let (header, is_header, h₁) = >>=-eq-ok (dict_of t.header) _ h in
    let kid = str_or lib "kid" "" header in
    let alg = str_or lib "alg" "" header in
    elim (Bool-cases (not (known_alg alg) || kid == "")) [
      | inl refused ↦ absurd (cc (rw refused at h₁))
      | inr accepted ↦
          let (early, signature, h₂) =
            >>=-eq-ok (check_signature lib t alg kid w) (λ early. check_rest lib t early w)
              (rw accepted at h₁) in
          let (none_early, (claims, are_claims, current)) = check_rest-passed lib t early w h₂ in
          record {
            header = header;
            is_header = is_header;
            known = ground (arith, accepted);
            signed = check_signature-passed lib t alg kid w early signature none_early;
            claims = claims;
            are_claims = are_claims;
            current = current;
          }
    ]
