-- ===== src/Delegation/Service/Child/Granted.antt =====
-- What `build_child_auth_context` (app/delegation/service.py) hands on lies within its parent.
use bu_iam.Prelude.{
  String, ◌≡◌, refl, ap, ◌∙◌, subst, inl, inr, ◌≢◌, true, Option, none, some, Bool-cases,
  Option-cases,
}
use bu_iam.Prelude.Sets.{Within, contains, contains-sorted, subset, subset→Within}
use bu_iam.Prelude.Result.{ok, err, or_raise, >>=-eq-ok, ◌>>=◌}
use bu_iam.Prelude.Exec.{pure-ok}
use bu_iam.Libs.{Libs}
use bu_iam.Protocol.{AuthContext, DelegationCredential}
use bu_iam.Protocol.Errors.{Read}
use bu_iam.World.{World}
use bu_iam.Store.Credentials.{get_credential, upsert_credential}
use bu_iam.Delegation.Credential.Build.Shape.{BuiltFrom, build_delegation_credential-BuiltFrom}
use bu_iam.Delegation.Credential.Context.{auth_context_from_credential}
use bu_iam.Delegation.Branch.{invalid, validate_credential_branch}
use bu_iam.Delegation.Service.{
  check_context, validate_auth_context_credential, validate_credential_id,
}
use bu_iam.Delegation.Service.Context.{SpeaksFor, validate_auth_context_credential-SpeaksFor}
use bu_iam.Delegation.Service.Child.{
  ChildRequest, plain_child, child_grant, child_credential, issue_child, child_of,
  build_child_auth_context,
}

-- Where the child's context comes from: a parent without a credential, or a new credential, built
-- under the one that the parent speaks for with no capability beyond it, and stored.
pub data Origin (lib : Libs) (w : World) (a : AuthContext) (r : ChildRequest)
    : AuthContext → World → Type 0 where
  plain : a.credential_id ≡ none → Origin lib w a r (plain_child a r) w
  issued :
      (parent c : DelegationCredential)
      → SpeaksFor lib w a parent
      → Within r.capabilities parent.capabilities
      → BuiltFrom (child_grant parent r) c
      → Origin lib w a r (auth_context_from_credential c none none) (upsert_credential c w)

-- The child's context: the requested agent's, with the requested capabilities.
pub record Granted (lib : Libs) (w : World) (a : AuthContext) (r : ChildRequest)
    (next : AuthContext) (w' : World) : Type 0 where
  pub origin : Origin lib w a r next w'
  pub subject : next.agent_id ≡ r.subject_id
  pub holds : (x : String) → contains x next.capabilities ≡ contains x r.capabilities
  pub logs : w'.audit_logs ≡ w.audit_logs

plain-Granted :
    (lib : Libs) (a : AuthContext) (r : ChildRequest) (w : World)
    → a.credential_id ≡ none
    → Granted lib w a r (plain_child a r) w
unfolding plain_child
plain-Granted lib a r w missing = record {
  origin = plain missing;
  subject = refl;
  holds = λ x. refl;
  logs = refl;
}

issued-Granted :
    (lib : Libs) (a : AuthContext) (r : ChildRequest) (parent c : DelegationCredential) (w : World)
    → SpeaksFor lib w a parent
    → Within r.capabilities parent.capabilities
    → BuiltFrom (child_grant parent r) c
    → Granted lib w a r (auth_context_from_credential c none none) (upsert_credential c w)
unfolding auth_context_from_credential child_grant upsert_credential
issued-Granted lib a r parent c w speaks inside b = record {
  origin = issued parent c speaks inside b;
  subject = b.subject;
  holds = λ x. ap (contains x) b.capabilities ∙ contains-sorted x r.capabilities;
  logs = refl;
}

child_credential-ok :
    (lib : Libs) (parent c : DelegationCredential) (r : ChildRequest) (w : World)
    → child_credential lib parent r w ≡ ok c
    → Within r.capabilities parent.capabilities × BuiltFrom (child_grant parent r) c
unfolding child_credential
child_credential-ok lib parent c r w h =
    elim (Bool-cases (subset r.capabilities parent.capabilities)) [
      | inl within ↦ (
        subset→Within _ _ within,
        build_delegation_credential-BuiltFrom lib (child_grant parent r) w c (rw within at h),
      )
      | inr beyond ↦ absurd (cc (rw beyond at h))
    ]

issue_child-ok :
    (out : Read DelegationCredential) (w w' : World) (next : AuthContext)
    → issue_child out w ≡ (ok next, w')
    → (c : DelegationCredential) × (out ≡ ok c)
      × (auth_context_from_credential c none none ≡ next)
      × (upsert_credential c w ≡ w')
unfolding issue_child
issue_child-ok (err e) w w' next h = absurd (cc (ap (λ q. q.0) h))
issue_child-ok (ok c) w w' next h = let (same, last) = pure-ok h in (c, refl, same, last)

-- A context with a credential id is accepted with a credential.
validate_credential_id-some :
    (lib : Libs) (a : AuthContext) (cid : String) (w : World) (o : Option DelegationCredential)
    → validate_credential_id lib a (some cid) w ≡ ok o
    → o ≢ none
unfolding validate_credential_id
validate_credential_id-some lib a cid w o h nothing =
    let (d, found, h₁) =
      >>=-eq-ok
        (or_raise (get_credential cid w) (invalid "delegation credential is not registered"))
        (λ c. validate_credential_branch lib lib.recursion_limit true c w >>= λ _.
          check_context a c >>= λ _. ok (some c))
        h in
    let (u, branch, h₂) =
      >>=-eq-ok (validate_credential_branch lib lib.recursion_limit true d w)
        (λ _. check_context a d >>= λ _. ok (some d)) h₁ in
    let (v, context, h₃) = >>=-eq-ok (check_context a d) (λ _. ok (some d)) h₂ in cc (h₃, nothing)

no_credential :
    (lib : Libs) (a : AuthContext) (w : World)
    → validate_auth_context_credential lib (some a) w ≡ ok none
    → a.credential_id ≡ none
unfolding validate_auth_context_credential validate_credential_id
no_credential lib a w h = elim (Option-cases a.credential_id) [
  | inl missing ↦ missing
  | inr (cid, has) ↦ absurd (validate_credential_id-some lib a cid w none (rw has at h) refl)
]

moved :
    (lib : Libs) (a : AuthContext) (r : ChildRequest) {w v v' : World} {x y : AuthContext}
    → x ≡ y
    → v ≡ v'
    → Granted lib w a r x v
    → Granted lib w a r y v'
moved lib a r {w} {v' = v'} {x = x} same last g =
    subst (λ y. Granted lib w a r y v') same (subst (λ v. Granted lib w a r x v) last g)

child_of-Granted :
    (lib : Libs) (a next : AuthContext) (r : ChildRequest)
    (out : Read (Option DelegationCredential)) (w w' : World)
    → validate_auth_context_credential lib (some a) w ≡ out
    → child_of lib a r out w ≡ (ok next, w')
    → Granted lib w a r next w'
unfolding child_of
child_of-Granted lib a next r (err e) w w' valid h = absurd (cc (ap (λ q. q.0) h))
child_of-Granted lib a next r (ok none) w w' valid h =
    let (same, last) = pure-ok h in
    moved lib a r same last (plain-Granted lib a r w (no_credential lib a w valid))
child_of-Granted lib a next r (ok (some parent)) w w' valid h =
    let (c, built, same, last) = issue_child-ok (child_credential lib parent r w) w w' next h in
    let (inside, b) = child_credential-ok lib parent c r w built in
    moved lib a r same last (
      issued-Granted lib a r parent c w
        (validate_auth_context_credential-SpeaksFor lib w a parent valid) inside b)

-- If `build_child_auth_context` returns a context, it is the requested agent's with the requested
-- capabilities; the parent has no credential, or the context is that of a new credential, stored,
-- built under the one that the parent speaks for, with no capability beyond it.
pub build_child-Granted :
    (lib : Libs) (a next : AuthContext) (r : ChildRequest) (w w' : World)
    → build_child_auth_context lib a r w ≡ (ok next, w')
    → Granted lib w a r next w'
unfolding build_child_auth_context
build_child-Granted lib a next r w w' h =
    child_of-Granted lib a next r (validate_auth_context_credential lib (some a) w) w w' refl h
