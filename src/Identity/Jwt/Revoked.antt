-- ===== src/Identity/Jwt/Revoked.antt =====
-- A token that was revoked (app/store/tokens.py) is refused by `inspect_token`
-- (app/identity/jwt_service.py).
use bu_iam.Prelude.{
  String, ◌≡◌, ap, subst, inl, inr, Bool, true, false, none, some, List, Option-cases,
}
use bu_iam.Prelude.Result.{ok}
use bu_iam.Json.{Fields}
use bu_iam.Libs.{Libs}
use bu_iam.Protocol.{AuthContext}
use bu_iam.World.{World, StoredToken}
use bu_iam.Store.Tokens.{get_token, revoke_token_and_credentials}
use bu_iam.Store.Tokens.Revoke.{get_token-revoke}
use bu_iam.Identity.Resolver.{str_or}
use bu_iam.Identity.Jwt.Checks.{Token, dict_of, read_token}
use bu_iam.Identity.Jwt.{TokenVerificationResult, inspect_token}
use bu_iam.Identity.Jwt.Accept.{Trusted, inspect_token-Trusted}

Trusted-jti :
    (lib : Libs) (token : String) (w : World) (a : AuthContext) (parts : Token) (claims : Fields)
    → Trusted lib token w a
    → read_token lib token ≡ some parts
    → dict_of parts.claims ≡ ok claims
    → (s : StoredToken) × (get_token (str_or lib "jti" "" claims) w ≡ some s) × (s.revoked ≡ false)
Trusted-jti lib token w a parts claims t is_read are_claims =
    let same : t.parts ≡ parts = cc (t.is_read, is_read) in
    let same_claims : t.claims ≡ claims =
      cc (ap (λ (p : Token). dict_of p.claims) same, t.are_claims, are_claims) in
    (
      t.stored,
      subst (λ c. get_token (str_or lib "jti" "" c) w ≡ some t.stored) same_claims t.found,
      t.unrevoked,
    )

-- After a stored token has been revoked, if `inspect_token` returns on a token whose claims carry
-- its id, the result has no context.
pub inspect_token-revoke :
    (lib : Libs) (token jti reason : String) (w w' w'' : World) (stored : StoredToken)
    (out : Bool × List String) (parts : Token) (claims : Fields) (r : TokenVerificationResult)
    → get_token jti w ≡ some stored
    → revoke_token_and_credentials jti reason w ≡ some (out, w')
    → read_token lib token ≡ some parts
    → dict_of parts.claims ≡ ok claims
    → str_or lib "jti" "" claims ≡ jti
    → inspect_token lib token w' ≡ (ok r, w'')
    → r.auth_context ≡ none
inspect_token-revoke lib token jti reason w w' w'' stored out parts claims r found ran is_read
      are_claims id h =
    elim (Option-cases r.auth_context) [
      | inl nobody ↦ nobody
      | inr (a, has) ↦
          let (s, again, live) =
            Trusted-jti lib token w' a parts claims
              (inspect_token-Trusted lib token w' w'' r a h has) is_read are_claims in
          let (_, marked) = get_token-revoke jti reason w w' stored out found ran in
          let flagged : record stored { revoked = true } ≡ s = cc (marked, rw id at again) in
          absurd (cc (ap (λ (x : StoredToken). x.revoked) flagged, live))
    ]
