-- ===== src/Delegation/Service/Child.antt =====
-- app/delegation/service.py: the hop, the credential and the context of the next agent.
pub mod Granted
use Prim.Native.String.{◌++◌}
use bu_iam.Prelude.{String, Option, none, some, List, [], ◌∷◌, ◌++◌ as append, if◌then◌else◌}
use bu_iam.Prelude.Sets.{subset}
use bu_iam.Prelude.Result.{ok, err}
use bu_iam.Prelude.Exec.{pure, raise, reads, modify, ◌>>=◌, ◌>>◌}
use bu_iam.Libs.{Libs}
use bu_iam.Protocol.{
  Verdict, allow, DelegationHop, AuthContext, DelegationCredential, DelegationEnvelope,
}
use bu_iam.Protocol.Decision.{DelegationDecision}
use bu_iam.Protocol.Errors.{Exception, Read}
use bu_iam.World.{World, Action}
use bu_iam.Identity.Did.{build_did, build_verification_method_id}
use bu_iam.Store.Audit.{record_decision, is_allow}
use bu_iam.Store.Credentials.{upsert_credential}
use bu_iam.Delegation.Credential.Build.{Grant, build_delegation_credential}
use bu_iam.Delegation.Credential.Context.{auth_context_from_credential}
use bu_iam.Delegation.Branch.{invalid}
use bu_iam.Delegation.Service.{validate_auth_context_credential, authorize}

unfoldable pub build_decision_hop :
    DelegationEnvelope → List String → List String → Verdict → DelegationHop
build_decision_hop e effective missing verdict = record {
  from_actor = e.caller_agent_id;
  to_agent_id = e.target_agent_id;
  task_type = e.task_type;
  delegated_capabilities = if is_allow verdict then effective else [];
  missing_capabilities = missing;
  decision = verdict;
}

-- The arguments of `build_child_auth_context`, behind the parent's context.
pub record ChildRequest : Type 0 where
  pub issuer_id : String
  pub subject_id : String
  pub capabilities : List String
  pub trace_id : String
  pub request_id : String

-- the context of a parent that has no credential
unfoldable pub plain_child : AuthContext → ChildRequest → AuthContext
unfolding build_did build_verification_method_id
plain_child parent r = record parent {
  jti = parent.jti ++ (":" ++ r.request_id);
  sub = r.subject_id;
  agent_id = r.subject_id;
  subject_did = some (build_did r.subject_id);
  agent_did = some (build_did r.subject_id);
  signing_kid = some (build_verification_method_id (build_did r.issuer_id));
  capabilities = r.capabilities;
  sig = none;
}

unfoldable pub child_grant : DelegationCredential → ChildRequest → Grant
child_grant parent r = record {
  issuer_id = r.issuer_id;
  subject_id = r.subject_id;
  delegated_user = parent.delegated_user;
  capabilities = r.capabilities;
  user_capabilities = parent.user_capabilities;
  exp = parent.exp;
  parent = some parent;
  trace_id = some r.trace_id;
  request_id = some r.request_id;
  iat = none;
}

-- the credential of the child, before it is stored
unfoldable pub child_credential :
    Libs → DelegationCredential → ChildRequest → World → Read DelegationCredential
unfolding subset child_grant build_delegation_credential
child_credential lib parent r w =
    if subset r.capabilities parent.capabilities
    then build_delegation_credential lib (child_grant parent r) w
    else err (invalid "child delegation capabilities exceed parent")

unfoldable pub issue_child : Read DelegationCredential → Action AuthContext
unfolding upsert_credential auth_context_from_credential
issue_child (err e) w = (err e, w)
issue_child (ok c) w = (ok (auth_context_from_credential c none none), upsert_credential c w)

unfoldable pub child_of :
    Libs → AuthContext → ChildRequest → Read (Option DelegationCredential) → Action AuthContext
unfolding plain_child child_credential issue_child
child_of lib a r (err e) w = (err e, w)
child_of lib a r (ok none) w = (ok (plain_child a r), w)
child_of lib a r (ok (some parent)) w = issue_child (child_credential lib parent r w) w

unfoldable pub build_child_auth_context : Libs → AuthContext → ChildRequest → Action AuthContext
unfolding validate_auth_context_credential child_of
build_child_auth_context lib a r w =
    child_of lib a r (validate_auth_context_credential lib (some a) w) w

unfoldable pub hop_request : DelegationEnvelope → List String → ChildRequest
hop_request e effective = record {
  issuer_id = e.caller_agent_id;
  subject_id = e.target_agent_id;
  capabilities = effective;
  trace_id = e.trace_id;
  request_id = e.request_id;
}

-- `auth_context` is not `None` here; on `None` the code raises AttributeError.
unfoldable pub append_hop_with :
    Libs → DelegationEnvelope → List String → Option AuthContext → Action DelegationEnvelope
unfolding build_decision_hop hop_request build_child_auth_context
append_hop_with lib e effective none = raise (Exception.other "AttributeError")
append_hop_with lib e effective (some a) = do
  next ← build_child_auth_context lib a (hop_request e effective)
  pure (record e {
    delegation_chain = append e.delegation_chain (build_decision_hop e effective [] allow ∷ []);
    auth_context = some next;
  })

unfoldable pub append_hop : Libs → DelegationEnvelope → List String → Action DelegationEnvelope
unfolding append_hop_with
append_hop lib e effective = append_hop_with lib e effective e.auth_context

unfoldable pub authorize_and_record : Libs → DelegationEnvelope → Action DelegationDecision
unfolding authorize record_decision
authorize_and_record lib e = do
  decision ← reads (authorize lib e)
  modify (record_decision e decision)
  pure decision
