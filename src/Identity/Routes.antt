-- ===== src/Identity/Routes.antt =====
-- app/identity/routes.py: the handlers for tokens and DID documents.
pub mod Registered
pub mod Built
pub mod Revoked
use Prim.Native.Char.{code}
use bu_iam.Prelude.{
  ℕ, String, Bool, true, false, not, ◌||◌, ◌&&◌, Option, none, some, List, [], ◌∷◌, ◌==◌, leb,
  same_code, is_none, or_text, or_list, if◌then◌else◌,
}
use bu_iam.Prelude.Text.{after_prefix}
use bu_iam.Prelude.Result.{Result, ok, err, guard, or_raise, ◌>>=◌, ◌>>◌}
use bu_iam.Prelude.Exec.{pure, raise, reads, modify}
use bu_iam.Json.{
  Json, null, bool, num, neg, real, text, arr, obj, Items, nil, cons, Fields, end, get, truth,
  get_truth,
}
use bu_iam.Libs.{Libs}
use bu_iam.Protocol.{ActorType, user, agent, AuthContext, TokenIssueRequest}
use bu_iam.Protocol.Errors.{Exception, http_exception, token_error, other, Read}
use bu_iam.World.{World, Agent, Action}
use bu_iam.Store.Agents.{get_agent}
use bu_iam.Store.DidRegistry.{get_did_document, upsert_did_document}
use bu_iam.Store.Tokens.{revoke_token_and_credentials}
use bu_iam.Identity.Did.{build_did}
use bu_iam.Identity.Proof.{as_num, get_or, verify_did_proof}
use bu_iam.Identity.Jwt.{verify_token}
use bu_iam.Identity.Jwt.Issue.{Issue, IssuedToken, issue_token}
use bu_iam.Runtime.Tasks.{Tasks, cancel_traces}

-- the detail {"error_code": code}
abbrev pub fails : ℕ → String → Exception
fails status error_code = http_exception status error_code ""

unfoldable pub check_issuer : TokenIssueRequest → ActorType → Option Agent → Read (Unit {0})
check_issuer r user found = ok tt
check_issuer r agent none = err (fails 404 "AGENT_NOT_REGISTERED")
check_issuer r agent (some a) = guard (a.status == "active") (fails 403 "AGENT_INACTIVE")

-- the arguments for `issue_token`; the environment names the user of a request that names none
unfoldable pub issue_of : String → TokenIssueRequest → Issue
issue_of user_id r = record {
  agent_id = r.agent_id;
  delegated_user = or_text r.delegated_user user_id;
  capabilities = r.capabilities;
  user_capabilities = some (or_list r.user_capabilities r.capabilities);
  actor_type = r.actor_type;
  ttl_seconds = r.ttl_seconds;
}

unfoldable pub check_token_request : TokenIssueRequest → World → Read (Unit {0})
unfolding check_issuer get_agent get_did_document build_did
check_token_request r w = do
  check_issuer r r.actor_type (get_agent r.agent_id w)
  document ←
      or_raise (get_did_document (build_did r.agent_id) w) (fails 400 "AGENT_DID_NOT_REGISTERED")
  ok tt

unfoldable pub create_token : Libs → String → String → TokenIssueRequest → Action IssuedToken
unfolding check_token_request issue_of issue_token
create_token lib user_id uuid r w = elim (check_token_request r w) [
  | err x ↦ (err x, w)
  | ok u ↦ issue_token lib uuid (issue_of user_id r) w
]

-- [a-zA-Z0-9._\-]
unfoldable pub is_did_char : ℕ → Bool
is_did_char c =
    (leb b'a' c && leb c b'z')
    || (leb b'A' c && leb c b'Z')
    || (leb b'0' c && leb c b'9')
    || same_code c b'.'
    || same_code c b'_'
    || same_code c b'-'

-- the rest of `+$`: `$` also matches before a newline that ends the text
unfoldable pub did_tail : String → Bool
unfolding is_did_char
did_tail String.[] = true
did_tail (String.◌∷◌ c String.[]) = is_did_char (code c) || same_code (code c) 10
did_tail (String.◌∷◌ c (String.◌∷◌ d s)) = is_did_char (code c) && did_tail (String.◌∷◌ d s)

abbrev pub did_body : Option String → Bool
unfolding is_did_char did_tail
did_body none = false
did_body (some String.[]) = false
did_body (some (String.◌∷◌ c s)) = is_did_char (code c) && did_tail s

-- _DID_RE.match(did)
unfoldable pub is_did : String → Bool
unfolding after_prefix did_tail is_did_char
is_did did = did_body (after_prefix "did:buiam:" did)

-- a text that is not empty, or the refusal
unfoldable pub text_or_fail : String → Json → Read String
text_or_fail error_code (text t) = if t == "" then err (fails 400 error_code) else ok t
text_or_fail error_code v = err (fails 400 error_code)

unfoldable pub first_method : Option Json → Read Fields
first_method (some (arr (cons (obj vm) rest))) = ok vm
first_method (some (arr (cons v rest))) = err (fails 400 "DID_INVALID_VERIFICATION_METHOD")
first_method v = err (fails 400 "DID_MISSING_VERIFICATION_METHOD")

unfoldable pub dict_or_fail : Option Json → Read Fields
dict_or_fail (some (obj (Fields.field k v fs))) = ok (Fields.field k v fs)
dict_or_fail v = err (fails 400 "DID_MISSING_JWK")

-- `kty == "ML-DSA"`, of a value of any kind
abbrev pub is_kind : String → Json → Bool
is_kind name (text t) = t == name
is_kind name v = false

unfoldable pub check_jwk : Fields → Read (Unit {0})
unfolding get_truth get
check_jwk jwk =
    if is_kind "ML-DSA" (get_or "kty" (text "") jwk)
    then guard (get_truth "pk" jwk && get_truth "alg" jwk) (fails 400 "DID_INCOMPLETE_MLDSA_JWK")
    else if is_kind "RSA" (get_or "kty" (text "") jwk)
    then guard (get_truth "n" jwk && get_truth "e" jwk) (fails 400 "DID_INCOMPLETE_RSA_JWK")
    else err (fails 400 "DID_UNSUPPORTED_KEY_TYPE")

-- did_document.get("metadata", {}).get("subject_id", "")
unfoldable pub subject_of : Fields → Read Json
unfolding get
subject_of document = elim (get "metadata" document) [
  | none ↦ ok (text "")
  | some (obj metadata) ↦ ok (get_or "subject_id" (text "") metadata)
  | some v ↦ err (other "AttributeError")
]

-- the value in a TEXT column that is NOT NULL: a number becomes its text
unfoldable pub column_text : Libs → Json → Read String
column_text lib null = err (other "sqlite3.IntegrityError")
column_text lib (bool b) = ok (lib.repr (num (as_num b)))
column_text lib (num n) = ok (lib.repr (num n))
column_text lib (neg n) = ok (lib.repr (neg n))
column_text lib (real t) = ok (lib.repr (real t))
column_text lib (text t) = ok t
column_text lib v = err (other "sqlite3.Error")

pub record DidRegisterRequest : Type 0 where
  pub did_document : Fields
  pub proof : Fields

-- the DID and the subject of a document that may be stored
unfoldable pub check_registration : Libs → DidRegisterRequest → World → Read (String × String)
unfolding get text_or_fail is_did first_method dict_or_fail check_jwk verify_did_proof subject_of
    column_text get_did_document
check_registration lib r w = do
  did ← text_or_fail "DID_MISSING_ID" (get_or "id" (text "") r.did_document)
  guard (is_did did) (fails 400 "DID_INVALID_FORMAT")
  vm ← first_method (get "verificationMethod" r.did_document)
  vm_id ← text_or_fail "DID_MISSING_VM_ID" (get_or "id" (text "") vm)
  jwk ← dict_or_fail (get "publicKeyJwk" vm)
  check_jwk jwk
  proved ← verify_did_proof lib r.did_document r.proof
  guard proved (fails 400 "DID_PROOF_INVALID")
  subject ← subject_of r.did_document
  guard (is_none (get_did_document did w)) (fails 409 "DID_ALREADY_REGISTERED")
  stored ← column_text lib subject
  ok (did, stored)

unfoldable pub store_registration :
    DidRegisterRequest → Read (String × String) → Action (String × String)
unfolding upsert_did_document
store_registration r (err x) w = (err x, w)
store_registration r (ok found) w = (ok found, upsert_did_document found.0 found.1 r.did_document w)

unfoldable pub register_did : Libs → DidRegisterRequest → Action (String × String)
unfolding check_registration store_registration
register_did lib r w = store_registration r (check_registration lib r w) w

pub data Introspection : Type 0 where
  active : AuthContext → Introspection
  inactive : String → String → Introspection

-- `except TokenError`
unfoldable pub introspect_token : Libs → String → World → Read Introspection × World
unfolding verify_token
introspect_token lib token w =
    let out = verify_token lib token w in
    (
      elim out.0 [
        | ok a ↦ ok (active a)
        | err (token_error error_code message) ↦ ok (inactive error_code message)
        | err x ↦ err x
      ],
      out.1,
    )

pub record Revocation : Type 0 where
  pub jti : String
  pub trace_ids : List String
  pub cancelled_tasks : ℕ

unfoldable pub cancel_revoked :
    String → (Bool × List String) → World → Tasks → Read Revocation × (World × Tasks)
unfolding cancel_traces
cancel_revoked jti (revoked, trace_ids) w s =
    if revoked
    then (
      ok (record {
        jti = jti;
        trace_ids = trace_ids;
        cancelled_tasks = (cancel_traces trace_ids "token_revoked" s).0;
      }),
      (w, (cancel_traces trace_ids "token_revoked" s).1),
    )
    else (err (fails 404 "AUTH_TOKEN_INVALID"), (w, s))

abbrev pub reason_of : Option String → String
reason_of none = "manual_revoke"
reason_of (some reason) = reason

unfoldable pub cancel_after :
    String
    → Option ((Bool × List String) × World)
    → Tasks
    → Option (Read Revocation × (World × Tasks))
unfolding cancel_revoked
cancel_after jti none s = none
cancel_after jti (some (out, w)) s = some (cancel_revoked jti out w s)

-- `revoke`; without a body the reason is the default one. The walk over the credentials ends
-- (Store.Tokens.Revoke), so there is a result.
unfoldable pub revoke :
    String → Option String → World → Tasks → Option (Read Revocation × (World × Tasks))
unfolding revoke_token_and_credentials cancel_after
revoke jti reason w s = cancel_after jti (revoke_token_and_credentials jti (reason_of reason) w) s
