-- ===== src/Gateway/Context.antt =====
-- app/gateway/routes.py: the context that a task runs under, the bearer token's or the envelope's.
use bu_iam.Prelude.{
  String, Bool, ◌≡◌, refl, ap, subst, inl, inr, ◌⊎◌, true, Option, none, some, arith, ◌==◌, ◌∙◌,
  eq_iff, Option-cases,
}
use bu_iam.Prelude.Result.{ok, err, guard, ◌>>◌}
use bu_iam.Libs.{Libs}
use bu_iam.Protocol.{AuthContext, DelegationEnvelope, DelegationCredential}
use bu_iam.Protocol.Errors.{Exception, http_exception, credential_error, Read}
use bu_iam.World.{World}
use bu_iam.Delegation.Service.{validate_auth_context_credential}
use bu_iam.Delegation.Service.Context.{SpeaksFor, validate_auth_context_credential-SpeaksFor}

-- a credential that names a trace is for that trace only
unfoldable pub in_trace : Option String → String → Bool
in_trace none trace_id = true
in_trace (some t) trace_id = t == trace_id

abbrev pub other_trace : Exception
other_trace =
    http_exception 403 "AUTH_CREDENTIAL_INVALID"
      "delegation credential belongs to a different trace"

abbrev pub other_subject : Exception
other_subject =
    http_exception 403 "AUTH_CREDENTIAL_SUBJECT_MISMATCH"
      "delegation credential subject does not match bearer token"

-- the envelope's context and what the check of its credential returns
unfoldable pub context_of_credential :
    DelegationEnvelope
    → AuthContext
    → AuthContext
    → Read (Option DelegationCredential)
    → Read AuthContext
unfolding in_trace
context_of_credential e current bearer (err (credential_error error_code message)) =
    err (http_exception 403 error_code message)
context_of_credential e current bearer (err x) = err x
context_of_credential e current bearer (ok none) = err other_subject
context_of_credential e current bearer (ok (some c)) = do
  guard (in_trace c.trace_id e.trace_id) other_trace
  guard (c.subject_id == bearer.agent_id) other_subject
  ok current

unfoldable pub trusted_context :
    Libs → DelegationEnvelope → AuthContext → Option String → AuthContext → World → Read AuthContext
unfolding context_of_credential validate_auth_context_credential
trusted_context lib e current none bearer w = ok bearer
trusted_context lib e current (some cid) bearer w =
    context_of_credential e current bearer (validate_auth_context_credential lib (some current) w)

unfoldable pub trusted_from :
    Libs → DelegationEnvelope → Option AuthContext → AuthContext → World → Read AuthContext
unfolding trusted_context
trusted_from lib e none bearer w = ok bearer
trusted_from lib e (some current) bearer w =
    trusted_context lib e current current.credential_id bearer w

unfoldable pub trusted_auth_context_for_envelope :
    Libs → DelegationEnvelope → AuthContext → World → Read AuthContext
unfolding trusted_from
trusted_auth_context_for_envelope lib e bearer w = trusted_from lib e e.auth_context bearer w

-- the credential that the envelope's context names
unfoldable pub named_credential : Option AuthContext → Option String
named_credential none = none
named_credential (some a) = a.credential_id

-- A context that speaks for a credential of the bearer's agent that is not for another trace.
pub record Held (lib : Libs) (w : World) (e : DelegationEnvelope) (bearer a : AuthContext)
    : Type 0 where
  pub credential : DelegationCredential
  pub speaks : SpeaksFor lib w a credential
  pub trace : in_trace credential.trace_id e.trace_id ≡ true
  pub agent : a.agent_id ≡ bearer.agent_id

context_of_credential-ok :
    (e : DelegationEnvelope) (current bearer a : AuthContext)
    (found : Read (Option DelegationCredential))
    → context_of_credential e current bearer found ≡ ok a
    → (c : DelegationCredential) × (found ≡ ok (some c))
      × (in_trace c.trace_id e.trace_id ≡ true)
      × ((c.subject_id == bearer.agent_id) ≡ true)
      × (current ≡ a)
unfolding context_of_credential
context_of_credential-ok e current bearer a (err (credential_error _ _)) h = absurd (cc h)
context_of_credential-ok e current bearer a (err _) h = absurd (cc h)
context_of_credential-ok e current bearer a (ok none) h = absurd (cc h)
context_of_credential-ok e current bearer a (ok (some c)) h =
    (c, refl, ground (arith, h), ground (arith, h), ground (arith, h))

trusted_context-ok :
    (lib : Libs) (e : DelegationEnvelope) (current bearer a : AuthContext) (named : Option String)
    (w : World)
    → trusted_context lib e current named bearer w ≡ ok a
    → ((named ≡ none) × (a ≡ bearer)) ⊎ ((current ≡ a) × Held lib w e bearer a)
unfolding trusted_context
trusted_context-ok lib e current bearer a none w h = inl (refl, cc h)
trusted_context-ok lib e current bearer a (some cid) w h =
    let (c, valid, trace, subject, same) =
      context_of_credential-ok e current bearer a
        (validate_auth_context_credential lib (some current) w) h in
    let speaks = validate_auth_context_credential-SpeaksFor lib w current c valid in
    inr (
      same,
      subst (Held lib w e bearer) same (record {
        credential = c;
        speaks = speaks;
        trace = trace;
        agent = cc ((eq_iff _ _).0 subject, speaks.agent);
      }),
    )

-- If `trusted_auth_context_for_envelope` returns a context, the envelope names no credential and
-- it is the bearer token's context, or it is the envelope's, of the bearer's agent, and speaks for
-- a stored credential with a valid branch that names no other trace than the envelope's.
pub trusted_auth_context-Held :
    (lib : Libs) (e : DelegationEnvelope) (bearer a : AuthContext) (w : World)
    → trusted_auth_context_for_envelope lib e bearer w ≡ ok a
    → ((named_credential e.auth_context ≡ none) × (a ≡ bearer))
      ⊎ ((e.auth_context ≡ some a) × Held lib w e bearer a)
unfolding trusted_auth_context_for_envelope trusted_from named_credential
trusted_auth_context-Held lib e bearer a w h = elim (Option-cases e.auth_context) [
  | inl missing ↦ inl (ap named_credential missing, cc (rw missing at h))
  | inr (current, has) ↦
      elim (trusted_context-ok lib e current bearer a current.credential_id w (rw has at h)) [
        | inl (unnamed, same) ↦ inl (ap named_credential has ∙ unnamed, same)
        | inr (same, held) ↦ inr (has ∙ ap some same, held)
      ]
]
