-- ===== src/Tests/Delegation.antt =====
-- The theorems on app/delegation/service.py, at a root credential and one below it.
use bu_iam.Prelude.{◌<◌, String, ◌≡◌, ◌≢◌, refl, true, none, some, List, [], ◌∷◌, arith}
use bu_iam.Prelude.Sets.{set_of, contains, subset, subset→Within}
use bu_iam.Prelude.Result.{ok}
use bu_iam.Protocol.{allow, AuthContext}
use bu_iam.Protocol.Decision.{DelegationDecision, plain}
use bu_iam.World.{World, Agent}
use bu_iam.Store.Agents.{get_agent}
use bu_iam.Store.DidRegistry.{get_did_document}
use bu_iam.Store.Credentials.{
  get_credential, upsert_credential, mark_revoked, revoke_credential_tree,
}
use bu_iam.Store.Credentials.Walk.{here}
use bu_iam.Delegation.Capabilities.{known_capabilities}
use bu_iam.Delegation.Credential.Context.{auth_context_from_credential}
use bu_iam.Delegation.Credential.Check.{verify_credential_integrity}
use bu_iam.Delegation.Branch.{check_self, check_link, check_root, validate_credential_branch}
use bu_iam.Delegation.Branch.Valid.{
  IsLive, ValidBranch, depth, validate-bounded, ValidBranch-validate,
}
use bu_iam.Delegation.Branch.Ancestors.{Above, self, up, Bounded, validate-Above}
use bu_iam.Delegation.Branch.Revoked.{validate-revoke_tree}
use bu_iam.Delegation.Service.{
  get_agent_vc, target_capabilities, is_chain_continuous, validate_auth_context_credential,
  parse_sets, decide, decide_parsed, decide_validated, authorize_context, authorize_target,
  authorize,
}
use bu_iam.Delegation.Service.Authorize.{MayDelegate, authorize-allow, MayDelegate-authorize}
use bu_iam.Delegation.Service.Context.{SpeaksFor, validate_auth_context_credential-SpeaksFor}
use bu_iam.Delegation.Service.Issue.{child_context-accepted}
use bu_iam.Tests.Fixtures.{
  toy, root_vc, child_vc, with_root, with_child, task, child_request, child_vc-issued, data_agent,
  root_context, doc_agent_key,
}

abbrev allowed : DelegationDecision
allowed =
    record (plain allow
      "requested capabilities are covered by token, target, request, and user intersection") {
        effective_capabilities = "report:read" ∷ [];
        requested_capabilities = "report:read" ∷ [];
        caller_token_capabilities = "report:read" ∷ "report:write" ∷ [];
        target_agent_capabilities = "report:read" ∷ [];
        user_capabilities = "report:read" ∷ "report:write" ∷ [];
        missing_by = ("caller_token", []) ∷ ("target_agent", []) ∷ ("user", []) ∷ [];
        recoverable = true;
      }

-- the task is allowed
task-allowed : authorize toy task with_root ≡ ok allowed
unfolding authorize authorize_target get_agent authorize_context auth_context_from_credential
    is_chain_continuous decide_validated validate_auth_context_credential validate_credential_branch
    check_self check_link check_root verify_credential_integrity get_did_document get_credential
    decide_parsed parse_sets decide target_capabilities get_agent_vc
task-allowed = refl

authorize-allow_example :
    (target : Agent) × (a : AuthContext) × MayDelegate toy with_root task target a
authorize-allow_example = authorize-allow toy with_root task allowed task-allowed refl

root_context-accepted :
    validate_auth_context_credential toy (some root_context) with_root ≡ ok (some root_vc)
unfolding validate_auth_context_credential auth_context_from_credential validate_credential_branch
    check_self check_link check_root verify_credential_integrity get_did_document get_credential
root_context-accepted = refl

abbrev read_only : List String
read_only = "report:read" ∷ []

abbrev read_write : List String
read_write = "report:read" ∷ "report:write" ∷ []

task-MayDelegate : MayDelegate toy with_root task data_agent root_context
unfolding auth_context_from_credential get_agent is_chain_continuous known_capabilities subset
    set_of target_capabilities get_agent_vc
task-MayDelegate = record {
  registered = refl;
  trusted = refl;
  sub = refl;
  agent = refl;
  continuous = refl;
  checked = (some root_vc, root_context-accepted);
  known_request = subset→Within read_only read_write refl;
  known_token = subset→Within read_write read_write refl;
  known_user = subset→Within read_write read_write refl;
  covered = record {
    by_token = subset→Within read_only read_write refl;
    by_target = subset→Within read_only read_only refl;
    by_user = subset→Within read_only read_write refl;
  };
}

MayDelegate-authorize_example :
    (d : DelegationDecision) × (authorize toy task with_root ≡ ok d)
    × (d.decision ≡ allow)
    × ((c : String) → contains c d.effective_capabilities ≡ contains c ("report:read" ∷ []))
MayDelegate-authorize_example =
    MayDelegate-authorize toy with_root task data_agent root_context task-MayDelegate

-- both credentials are accepted
child_vc-accepted : validate_credential_branch toy 2 true child_vc with_child ≡ ok tt
unfolding validate_credential_branch check_self check_link check_root verify_credential_integrity
    get_did_document get_credential
child_vc-accepted = refl

root_vc-accepted : validate_credential_branch toy 1 true root_vc with_root ≡ ok tt
unfolding validate_credential_branch check_self check_link check_root verify_credential_integrity
    get_did_document get_credential
root_vc-accepted = refl

root-Above : (w : World) → get_credential "ROOT{}" w ≡ some root_vc → Above w root_vc child_vc
root-Above w found = up "ROOT{}" child_vc root_vc refl found self

validate-Above_example : IsLive toy with_child root_vc × Bounded child_vc root_vc
validate-Above_example =
    validate-Above toy with_child 2 true child_vc root_vc child_vc-accepted
      (root-Above with_child (unfold get_credential in refl))

validate-bounded_example : (v : ValidBranch toy with_child child_vc) × (depth v < 2)
validate-bounded_example = validate-bounded toy with_child 2 true child_vc child_vc-accepted

child_vc-branch : (v : ValidBranch toy with_child child_vc) × (depth v < 2)
child_vc-branch = validate-bounded toy with_child 2 true child_vc child_vc-accepted

ValidBranch-validate_example : validate_credential_branch toy 9 true child_vc with_child ≡ ok tt
ValidBranch-validate_example =
    ValidBranch-validate toy with_child 9 true child_vc-branch.0 (omega (arith, child_vc-branch.1))

abbrev both_revoked : World
both_revoked = record with_child {
  credentials = mark_revoked 10 "lost" root_vc ∷ mark_revoked 10 "lost" child_vc ∷ [];
}

tree-revoked :
    revoke_credential_tree "ROOT{}" "lost" with_child ≡ some ((2, "trace" ∷ []), both_revoked)
unfolding revoke_credential_tree
tree-revoked = refl

validate-revoke_tree_example :
    validate_credential_branch toy 2 true (mark_revoked 10 "lost" child_vc) both_revoked ≢ ok tt
unfolding mark_revoked get_credential
validate-revoke_tree_example =
    validate-revoke_tree toy "ROOT{}" "lost" "ROOT{}" with_child both_revoked root_vc root_vc
      (mark_revoked 10 "lost" root_vc) (mark_revoked 10 "lost" child_vc) (2, "trace" ∷ []) 2 true
      refl tree-revoked here refl refl
      (up "ROOT{}" (mark_revoked 10 "lost" child_vc) (mark_revoked 10 "lost" root_vc) refl refl
        self)

validate_auth_context_credential-SpeaksFor_example : SpeaksFor toy with_root root_context root_vc
validate_auth_context_credential-SpeaksFor_example =
    validate_auth_context_credential-SpeaksFor toy with_root root_context root_vc
      root_context-accepted

child_context-accepted_example :
    validate_auth_context_credential toy
      (some (auth_context_from_credential child_vc none none))
      (upsert_credential child_vc with_root)
    ≡ ok (some child_vc)
child_context-accepted_example =
    child_context-accepted toy with_root root_vc child_vc child_request 1 refl doc_agent_key refl
      (unfold get_credential in refl) (unfold get_credential in refl) root_vc-accepted (omega arith)
      child_vc-issued
