-- ===== src/Identity/Jwt/Internal.antt =====
-- `inspect_token` (app/identity/jwt_service.py) raises no `HTTPException`.
use bu_iam.Prelude.{ℕ, String, Option, none, some}
use bu_iam.Prelude.Result.{ok, err}
use bu_iam.Json.{Json, null, obj, Fields}
use bu_iam.Libs.{Libs}
use bu_iam.Protocol.{AuthContext, DelegationCredential}
use bu_iam.Protocol.Errors.{Read}
use bu_iam.Protocol.Errors.Internal.{IsInternal, if_first-IsInternal, internal}
use bu_iam.World.{World, StoredToken}
use bu_iam.Identity.Jwt.Checks.{Failure, Token, dict_of, read_token, check_token, malformed}
use bu_iam.Identity.Jwt.{
  claim_int, failed_token_result, fail, verified_result, check_credential, check_stored,
  inspect_stored, inspect_claims, inspect_checked, inspect_read, inspect_token,
}

dict_of-IsInternal : (v : Json) → IsInternal (dict_of v)
unfolding dict_of
dict_of-IsInternal (obj fs) = search internal
dict_of-IsInternal v = search internal

claim_int-IsInternal : (lib : Libs) (o : Option Json) → IsInternal (claim_int lib o)
unfolding claim_int
claim_int-IsInternal lib none = search internal
claim_int-IsInternal lib (some null) = search internal
claim_int-IsInternal lib (some v) = search internal

failed-IsInternal :
    (lib : Libs) (token : String) (claims : Json) (now : ℕ) (f : Failure)
    → IsInternal (failed_token_result lib token claims now f)
unfolding failed_token_result
failed-IsInternal lib token claims now f =
    search (internal, dict_of-IsInternal, claim_int-IsInternal) depth 14

module _ (lib : Libs) (token : String) (claims : Fields) where
  verified-IsInternal :
      (t : StoredToken) (a : AuthContext) (w : World)
      → IsInternal (verified_result lib token claims t a w)
  unfolding verified_result
  verified-IsInternal t a w = search (internal, claim_int-IsInternal)

  fail-IsInternal : (f : Failure) (w : World) → IsInternal (fail lib token claims f w)
  unfolding fail
  fail-IsInternal f w = failed-IsInternal lib token (obj claims) w.clock f

  credential-IsInternal :
      (t : StoredToken) (o : Option DelegationCredential) (w : World)
      → IsInternal (check_credential lib token claims t o w)
  unfolding check_credential
  credential-IsInternal t none w = search fail-IsInternal
  credential-IsInternal t (some c) w = search (internal, fail-IsInternal, verified-IsInternal)

  stored-IsInternal : (t : StoredToken) (w : World) → IsInternal (check_stored lib token claims t w)
  unfolding check_stored
  stored-IsInternal t w = search (internal, credential-IsInternal, verified-IsInternal)

  inspect_stored-IsInternal :
      (o : Option StoredToken) (w : World) → IsInternal (inspect_stored lib token claims o w).0
  unfolding inspect_stored
  inspect_stored-IsInternal none w = search fail-IsInternal
  inspect_stored-IsInternal (some t) w =
      if_first-IsInternal t.revoked _ _ (fail-IsInternal _ w) (stored-IsInternal t _)

inspect_claims-IsInternal :
    (lib : Libs) (token : String) (v : Json) (w : World)
    → IsInternal (inspect_claims lib token (dict_of v) w).0
unfolding inspect_claims dict_of
inspect_claims-IsInternal lib token (obj fs) w = inspect_stored-IsInternal lib token fs _ w
inspect_claims-IsInternal lib token v w = search internal

inspect_checked-IsInternal :
    (lib : Libs) (token : String) (t : Token) (r : Read (Option Failure)) (w : World)
    → IsInternal (inspect_checked lib token t r w).0
unfolding inspect_checked
inspect_checked-IsInternal lib token t (err x) w =
    failed-IsInternal lib token t.claims w.clock malformed
inspect_checked-IsInternal lib token t (ok (some f)) w =
    failed-IsInternal lib token t.claims w.clock f
inspect_checked-IsInternal lib token t (ok none) w = inspect_claims-IsInternal lib token t.claims w

inspect_read-IsInternal :
    (lib : Libs) (token : String) (o : Option Token) (w : World)
    → IsInternal (inspect_read lib token o w).0
unfolding inspect_read
inspect_read-IsInternal lib token none w = search failed-IsInternal
inspect_read-IsInternal lib token (some t) w =
    inspect_checked-IsInternal lib token t (check_token lib t w) w

pub inspect_token-IsInternal :
    (lib : Libs) (token : String) (w : World) → IsInternal (inspect_token lib token w).0
unfolding inspect_token
inspect_token-IsInternal lib token w = inspect_read-IsInternal lib token (read_token lib token) w
