-- ===== src/Delegation/Service/Context.antt =====
-- What `validate_auth_context_credential` (app/delegation/service.py) accepts.
use bu_iam.Prelude.{subst, String, ◌≡◌, inl, inr, true, some, arith, ◌==◌, eq_iff, Option-cases}
use bu_iam.Prelude.Sets.{Within, subset, subset→Within}
use bu_iam.Prelude.Result.{ok, >>=-eq-ok, ◌>>=◌}
use bu_iam.Libs.{Libs}
use bu_iam.Protocol.{AuthContext, DelegationCredential}
use bu_iam.World.{World}
use bu_iam.Store.Credentials.{get_credential}
use bu_iam.Delegation.Branch.{validate_credential_branch}
use bu_iam.Delegation.Branch.Valid.{ValidBranch, validate-ValidBranch}
use bu_iam.Delegation.Service.{
  did_matches, check_context, validate_credential_id, validate_auth_context_credential,
}

-- A context speaks for a stored credential with a valid branch: the same subject, the same set of
-- capabilities, and the credential's DID where the context has one.
pub record SpeaksFor (lib : Libs) (w : World) (a : AuthContext) (c : DelegationCredential)
    : Type 0 where
  pub stored : (cid : String) × (a.credential_id ≡ some cid) × (get_credential cid w ≡ some c)
  pub branch : ValidBranch lib w c
  pub agent : c.subject_id ≡ a.agent_id
  pub sub : c.subject_id ≡ a.sub
  pub did : did_matches a.subject_did c ≡ true
  pub no_more : Within a.capabilities c.capabilities
  pub no_less : Within c.capabilities a.capabilities

record Matches (a : AuthContext) (c : DelegationCredential) : Type 0 where
  agent : (c.subject_id == a.agent_id) ≡ true
  sub : (c.subject_id == a.sub) ≡ true
  did : did_matches a.subject_did c ≡ true
  no_more : subset a.capabilities c.capabilities ≡ true
  no_less : subset c.capabilities a.capabilities ≡ true

check_context-Matches :
    (a : AuthContext) (c : DelegationCredential) → check_context a c ≡ ok tt → Matches a c
unfolding check_context
check_context-Matches a c h = record {
  agent = ground (arith, h);
  sub = ground (arith, h);
  did = ground (arith, h);
  no_more = ground (arith, h);
  no_less = ground (arith, h);
}

-- The three parts of the check of a context with a credential id.
validate_credential_id-parts :
    (lib : Libs) (a : AuthContext) (cid : String) (w : World) (c d : DelegationCredential)
    → get_credential cid w ≡ some d
    → validate_credential_id lib a (some cid) w ≡ ok (some c)
    → (validate_credential_branch lib lib.recursion_limit true d w ≡ ok tt)
      × (check_context a d ≡ ok tt)
      × (d ≡ c)
unfolding validate_credential_id
validate_credential_id-parts lib a cid w c d found h =
    let (u, branch, h₁) =
      >>=-eq-ok (validate_credential_branch lib lib.recursion_limit true d w)
        (λ _. check_context a d >>= λ _. ok (some d)) (rw found at h) in
    let (v, context, h₂) = >>=-eq-ok (check_context a d) (λ _. ok (some d)) h₁ in
    (branch, context, cc h₂)

-- If a context is accepted with a credential, the credential is stored under the context's id, has
-- a valid branch, has the context's subject in both fields and its DID if it has one, and holds
-- the same set of capabilities.
pub validate_auth_context_credential-SpeaksFor :
    (lib : Libs) (w : World) (a : AuthContext) (c : DelegationCredential)
    → validate_auth_context_credential lib (some a) w ≡ ok (some c)
    → SpeaksFor lib w a c
unfolding validate_auth_context_credential
validate_auth_context_credential-SpeaksFor lib w a c h = elim (Option-cases a.credential_id) [
  | inl missing ↦ absurd (cc (rw missing at h))
  | inr (cid, has) ↦ elim (Option-cases (get_credential cid w)) [
    | inl missing ↦ absurd (cc (rw (has, validate_credential_id, missing) at h))
    | inr (d, found) ↦
        let (branch, context, same) =
          validate_credential_id-parts lib a cid w c d found (rw has at h) in
        let m = check_context-Matches a d context in
        subst (SpeaksFor lib w a) same (record {
          stored = (cid, has, found);
          branch = validate-ValidBranch lib w lib.recursion_limit true d branch;
          agent = (eq_iff _ _).0 m.agent;
          sub = (eq_iff _ _).0 m.sub;
          did = m.did;
          no_more = subset→Within _ _ m.no_more;
          no_less = subset→Within _ _ m.no_less;
        })
  ]
]
