-- ===== src/Identity/Jwt/Accept.antt =====
-- The tokens that `inspect_token` (app/identity/jwt_service.py) accepts.
use bu_iam.Prelude.{
  ℕ, String, ◌≡◌, ◌≢◌, refl, sym, ◌∙◌, ap, subst, inl, inr, true, false, Option, none, some,
  or_else, truthy, Bool-cases, Option-cases,
}
use bu_iam.Prelude.Result.{ok, err, Result-cases, >>=-eq-ok}
use bu_iam.Json.{Json, obj, Fields, end, get}
use bu_iam.Libs.{Libs}
use bu_iam.Protocol.{AuthContext, DelegationCredential}
use bu_iam.Protocol.Errors.{Read}
use bu_iam.World.{World, StoredToken}
use bu_iam.Store.DidRegistry.{get_did_document}
use bu_iam.Store.Credentials.{get_credential}
use bu_iam.Store.Tokens.{get_token, mark_jti_seen, jti_known}
use bu_iam.Identity.Resolver.{str_or}
use bu_iam.Identity.Jwt.Checks.{Failure, Token, dict_of, read_token, check_token}
use bu_iam.Identity.Jwt.{
  TokenVerificationResult, claim_int, failed_token_result, fail, verified_result, stored_context,
  check_credential, check_stored, inspect_stored, inspect_claims, inspect_checked, inspect_read,
  inspect_token,
}
use bu_iam.Delegation.Credential.Check.{verify_credential_integrity}
use bu_iam.Delegation.Credential.Context.{auth_context_from_credential}

-- Where a context comes from: the token's row, or the intact credential that the row names.
pub data Source (lib : Libs) (w : World) (s : StoredToken) : AuthContext → Type 0 where
  from_row : truthy s.credential_id ≡ false → Source lib w s (stored_context s)
  from_credential :
      (c : DelegationCredential)
      → get_credential (or_else s.credential_id "") w ≡ some c
      → verify_credential_integrity lib c w ≡ true
      → c.revoked ≡ false
      → Source lib w s (auth_context_from_credential c (some s.jti) (some s.actor_type))

-- An accepted token: it has passed the checks, its id is that of a stored token that is not
-- revoked, and the context is the stored token's.
pub record Trusted (lib : Libs) (token : String) (w : World) (a : AuthContext) : Type 0 where
  pub parts : Token
  pub is_read : read_token lib token ≡ some parts
  pub passed : check_token lib parts w ≡ ok none
  pub claims : Fields
  pub are_claims : dict_of parts.claims ≡ ok claims
  pub stored : StoredToken
  pub found : get_token (str_or lib "jti" "" claims) w ≡ some stored
  pub unrevoked : stored.revoked ≡ false
  pub source : Source lib w stored a

failed-no_context :
    (lib : Libs) (token : String) (claims : Json) (now : ℕ) (f : Failure)
    (r : TokenVerificationResult) (a : AuthContext)
    → failed_token_result lib token claims now f ≡ ok r
    → r.auth_context ≢ some a
unfolding failed_token_result
failed-no_context lib token claims now f r a h has =
    let (fields, _, h₁) = >>=-eq-ok (dict_of claims) _ h in
    let (issued, _, h₂) = >>=-eq-ok (claim_int lib (get "iat" fields)) _ h₁ in
    let (expires, _, h₃) = >>=-eq-ok (claim_int lib (get "exp" fields)) _ h₂ in
    absurd (cc (h₃, has))

-- The writes of `mark_jti_seen` reach no other table.
integrity-mark :
    (lib : Libs) (c : DelegationCredential) (jti : String) (w : World)
    → verify_credential_integrity lib c (mark_jti_seen jti w) ≡ verify_credential_integrity lib c w
unfolding verify_credential_integrity mark_jti_seen get_did_document
integrity-mark lib c jti w = elim (Bool-cases (jti_known jti w.jti_seen)) [
  | inl known ↦ rw known refl
  | inr fresh ↦ rw fresh refl
]

get_credential-mark :
    (cid jti : String) (w : World) → get_credential cid (mark_jti_seen jti w) ≡ get_credential cid w
unfolding get_credential mark_jti_seen
get_credential-mark cid jti w = elim (Bool-cases (jti_known jti w.jti_seen)) [
  | inl known ↦ rw known refl
  | inr fresh ↦ rw fresh refl
]

verified-context :
    (lib : Libs) (token : String) (claims : Fields) (s : StoredToken) (x : AuthContext) (w : World)
    (r : TokenVerificationResult) (a : AuthContext)
    → verified_result lib token claims s x w ≡ ok r
    → r.auth_context ≡ some a
    → x ≡ a
unfolding verified_result
verified-context lib token claims s x w r a h has =
    let (issued, _, h₁) = >>=-eq-ok (claim_int lib (get "iat" claims)) _ h in cc (h₁, has)

check_credential-Source :
    (lib : Libs) (token : String) (claims : Fields) (s : StoredToken)
    (found : Option DelegationCredential) (w : World) (r : TokenVerificationResult)
    (a : AuthContext)
    → get_credential (or_else s.credential_id "") w ≡ found
    → check_credential lib token claims s found w ≡ ok r
    → r.auth_context ≡ some a
    → Source lib w s a
unfolding check_credential fail
check_credential-Source lib token claims s none w r a e h has =
    absurd (failed-no_context lib token (obj claims) w.clock _ r a h has)
check_credential-Source lib token claims s (some c) w r a e h has =
    elim (Bool-cases (verify_credential_integrity lib c w)) [
      | inr broken ↦
          absurd (failed-no_context lib token (obj claims) w.clock _ r a (rw broken at h) has)
      | inl intact ↦ elim (Bool-cases c.revoked) [
        | inl revoked ↦ absurd (
            failed-no_context lib token (obj claims) w.clock _ r a (simp (intact, revoked) at h)
              has)
        | inr live ↦
            let x = auth_context_from_credential c (some s.jti) (some s.actor_type) in
            subst (Source lib w s)
              (verified-context lib token claims s x w r a (simp (intact, live) at h) has)
              (from_credential c e intact live)
      ]
    ]

check_stored-Source :
    (lib : Libs) (token : String) (claims : Fields) (s : StoredToken) (w : World)
    (r : TokenVerificationResult) (a : AuthContext)
    → check_stored lib token claims s w ≡ ok r
    → r.auth_context ≡ some a
    → Source lib w s a
unfolding check_stored
check_stored-Source lib token claims s w r a h has = elim (Bool-cases (truthy s.credential_id)) [
  | inl named ↦
      check_credential-Source lib token claims s (get_credential (or_else s.credential_id "") w) w r
        a refl (rw named at h) has
  | inr plain ↦
      subst (Source lib w s)
        (verified-context lib token claims s (stored_context s) w r a (rw plain at h) has)
        (from_row plain)
]

Source-mark :
    (lib : Libs) (jti : String) (w : World) (s : StoredToken) (a : AuthContext)
    → Source lib (mark_jti_seen jti w) s a
    → Source lib w s a
Source-mark lib jti w s _ (from_row plain) = from_row plain
Source-mark lib jti w s _ (from_credential c found intact live) =
    from_credential c (sym (get_credential-mark (or_else s.credential_id "") jti w) ∙ found)
      (sym (integrity-mark lib c jti w) ∙ intact) live

inspect_stored-Source :
    (lib : Libs) (token : String) (claims : Fields) (o : Option StoredToken) (w w' : World)
    (r : TokenVerificationResult) (a : AuthContext)
    → inspect_stored lib token claims o w ≡ (ok r, w')
    → r.auth_context ≡ some a
    → (s : StoredToken) × (o ≡ some s) × (s.revoked ≡ false) × Source lib w s a
unfolding inspect_stored fail
inspect_stored-Source lib token claims none w w' r a h has =
    absurd (failed-no_context lib token (obj claims) w.clock _ r a (ap (λ q. q.0) h) has)
inspect_stored-Source lib token claims (some s) w w' r a h has = elim (Bool-cases s.revoked) [
  | inl revoked ↦ absurd (
      failed-no_context lib token (obj claims) w.clock _ r a (ap (λ q. q.0) (simp revoked at h))
        has)
  | inr live ↦
      let checked : check_stored lib token claims s (mark_jti_seen s.jti w) ≡ ok r =
        ap (λ q. q.0) (simp live at h) in
      (
        s,
        refl,
        live,
        Source-mark lib s.jti w s a
            (check_stored-Source lib token claims s (mark_jti_seen s.jti w) r a checked has),
      )
]

checked-Trusted :
    (lib : Libs) (token : String) (t : Token) (early : Read (Option Failure)) (w w' : World)
    (r : TokenVerificationResult) (a : AuthContext)
    → read_token lib token ≡ some t
    → check_token lib t w ≡ early
    → inspect_checked lib token t early w ≡ (ok r, w')
    → r.auth_context ≡ some a
    → Trusted lib token w a
unfolding inspect_checked inspect_claims
checked-Trusted lib token t (err e) w w' r a is_read e' h has =
    absurd (failed-no_context lib token t.claims w.clock _ r a (ap (λ q. q.0) h) has)
checked-Trusted lib token t (ok (some f)) w w' r a is_read e' h has =
    absurd (failed-no_context lib token t.claims w.clock _ r a (ap (λ q. q.0) h) has)
checked-Trusted lib token t (ok none) w w' r a is_read passed h has =
    elim (Result-cases (dict_of t.claims)) [
      | inl (e, no_dict) ↦ absurd (cc (ap (λ q. q.0) (rw no_dict at h)))
      | inr (claims, are_claims) ↦
          let (s, found, unrevoked, source) =
            inspect_stored-Source lib token claims (get_token (str_or lib "jti" "" claims) w) w w' r
              a (rw are_claims at h) has in
          record {
            parts = t;
            is_read = is_read;
            passed = passed;
            claims = claims;
            are_claims = are_claims;
            stored = s;
            found = found;
            unrevoked = unrevoked;
            source = source;
          }
    ]

-- If `inspect_token` returns a result with a context, the token's parts pass the checks, the id in
-- its claims is that of a stored token that is not revoked, and the context is the stored token's,
-- or that of the credential that its row names, which is stored, intact and not revoked.
pub inspect_token-Trusted :
    (lib : Libs) (token : String) (w w' : World) (r : TokenVerificationResult) (a : AuthContext)
    → inspect_token lib token w ≡ (ok r, w')
    → r.auth_context ≡ some a
    → Trusted lib token w a
unfolding inspect_token inspect_read
inspect_token-Trusted lib token w w' r a h has = elim (Option-cases (read_token lib token)) [
  | inl unread ↦
      absurd
        (failed-no_context lib token (obj end) w.clock _ r a (ap (λ q. q.0) (rw unread at h)) has)
  | inr (t, is_read) ↦
      checked-Trusted lib token t (check_token lib t w) w w' r a is_read refl (rw is_read at h) has
]
