-- ===== src/Identity/Jwt/Issue/Signed.antt =====
-- The text of a token that `issue_token` (app/identity/jwt_service.py) signs.
use Prim.Native.String.{◌++◌}
use bu_iam.Prelude.{ℕ, String, ◌≡◌, refl, sym, ◌∙◌, subst, true, some}
use bu_iam.Prelude.Sets.{sorted}
use bu_iam.Prelude.Result.{ok, ok-injective}
use bu_iam.Json.{text, num, obj, Fields, get, texts}
use bu_iam.Libs.{Libs}
use bu_iam.Protocol.{actor_type_text}
use bu_iam.World.{World}
use bu_iam.Identity.Did.{build_did}
use bu_iam.Identity.Crypto.{verify_with_kid}
use bu_iam.Identity.Crypto.RoundTrip.{HasRsaKey, sign_with_kid-rsa}
use bu_iam.Delegation.Credential.Integrity.{method_of}
use bu_iam.Identity.Jwt.Checks.{issuer, audience}
use bu_iam.Identity.Jwt.Issue.{
  Issue, IssuedToken, user_caps, token_exp, signing_kid, token_header, issued_claims, json_b64,
  token_input, sign_token,
}

pub sign_token-ok :
    (lib : Libs) (r : Issue) (jti : String) (w : World)
    → lib.signature_alg ≡ "BUIAM-RS256"
    → HasRsaKey lib (method_of r.agent_id) w
    → (sig : String) × (sign_token lib r jti w ≡ ok (token_input lib r jti w ++ "." ++ sig))
      × (verify_with_kid lib lib.signature_alg (token_input lib r jti w) sig (signing_kid r) w
          ≡ ok true)
unfolding sign_token signing_kid
sign_token-ok lib r jti w rs256 key =
    let (sig, signed, verified) =
      sign_with_kid-rsa lib (token_input lib r jti w) (method_of r.agent_id) lib.signature_alg w
        rs256 key in
    (sig, rw signed, verified)

-- The claims that a token is made of: its id, its agent and actor type, the agent's DID, what is
-- delegated, and its expiry.
pub record Claims (r : Issue) (jti : String) (exp : ℕ) (claims : Fields) : Type 0 where
  pub id : get "jti" claims ≡ some (text jti)
  pub issued_by : get "iss" claims ≡ some (text issuer)
  pub issued_for : get "aud" claims ≡ some (text audience)
  pub agent : get "agent_id" claims ≡ some (text r.agent_id)
  pub actor : get "actor_type" claims ≡ some (text (actor_type_text r.actor_type))
  pub user : get "delegated_user" claims ≡ some (text r.delegated_user)
  pub capabilities : get "capabilities" claims ≡ some (texts (sorted r.capabilities))
  pub user_capabilities : get "user_capabilities" claims ≡ some (texts (sorted (user_caps r)))
  pub did : get "sub_did" claims ≡ some (text (build_did r.agent_id))
  pub expires : get "exp" claims ≡ some (num exp)

issued-Claims :
    (r : Issue) (jti : String) (w : World)
    → (claims : Fields) × (issued_claims r jti w ≡ obj claims) × Claims r jti (token_exp r w) claims
unfolding issued_claims get
issued-Claims r jti w = (
  _,
  refl,
  record {
    id = refl;
    issued_by = refl;
    issued_for = refl;
    agent = refl;
    actor = refl;
    user = refl;
    capabilities = refl;
    user_capabilities = refl;
    did = refl;
    expires = refl;
  },
)

-- A signed text of a header, which names the agent's key, and of the token's claims.
pub record Signed (lib : Libs) (r : Issue) (out : IssuedToken) (w : World) : Type 0 where
  pub header : Fields
  pub claims : Fields
  pub signature : String
  pub token :
      out.access_token
      ≡ (json_b64 lib (obj header) ++ "." ++ json_b64 lib (obj claims)) ++ "." ++ signature
  pub alg : get "alg" header ≡ some (text lib.signature_alg)
  pub kid : get "kid" header ≡ some (text (method_of r.agent_id))
  pub states : Claims r out.jti out.exp claims
  pub verifies :
      verify_with_kid lib lib.signature_alg
        (json_b64 lib (obj header) ++ "." ++ json_b64 lib (obj claims))
        signature
        (method_of r.agent_id)
        w
      ≡ ok true

-- What `sign_token` returns is such a text, where the result has its id and expiry.
pub sign_token-Signed :
    (lib : Libs) (r : Issue) (out : IssuedToken) (w : World)
    → lib.signature_alg ≡ "BUIAM-RS256"
    → HasRsaKey lib (method_of r.agent_id) w
    → out.exp ≡ token_exp r w
    → sign_token lib r out.jti w ≡ ok out.access_token
    → Signed lib r out w
unfolding token_input token_header signing_kid get
sign_token-Signed lib r out w rs256 key expiry h =
    let (sig, signed, verified) = sign_token-ok lib r out.jti w rs256 key in
    let (claims, made, states) = issued-Claims r out.jti w in
    record {
      header = _;
      claims = claims;
      signature = sig;
      token = ok-injective (sym h ∙ signed) ∙ rw made refl;
      alg = refl;
      kid = refl;
      states = subst (λ n. Claims r out.jti n claims) (sym expiry) states;
      verifies = rw made at verified;
    }
