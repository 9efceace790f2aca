-- ===== src/Tests/Gateway/Agent.antt =====
-- `agent_task` (app/gateway/routes.py) on the small system: doc_agent hands a report to data_agent.
use bu_iam.Prelude.{◌≡◌, refl, false, none, some, [], ◌∷◌}
use bu_iam.Prelude.Result.{ok, err}
use bu_iam.Protocol.Errors.{generation_error}
use bu_iam.Prelude.Exec.{continue, handle, pair-eta}
use bu_iam.Json.{end}
use bu_iam.Protocol.{DelegationEnvelope}
use bu_iam.World.{World}
use bu_iam.Store.Agents.{get_agent}
use bu_iam.Store.Credentials.{get_credential}
use bu_iam.Store.DidRegistry.{get_did_document}
use bu_iam.Store.IntentTree.{get_intent_node}
use bu_iam.Identity.Resolver.{resolve_verification_method, kty_of}
use bu_iam.Identity.Crypto.{verify_with_kid}
use bu_iam.Identity.Jwt.Checks.{
  check_key, check_method, check_signature, is_claim, exp_claim, catch_did, subject_claim,
  check_claims, check_rest, check_token,
}
use bu_iam.Identity.Jwt.{
  inspect_read, inspect_checked, inspect_claims, inspect_stored, check_stored, check_credential,
  verified_result, inspect_token,
}
use bu_iam.Intent.Branch.{parent_row, climb, branch_from}
use bu_iam.Intent.Service.{validate_and_record_intent_node}
use bu_iam.Delegation.Credential.Check.{verify_credential_integrity}
use bu_iam.Delegation.Credential.Context.{auth_context_from_credential}
use bu_iam.Delegation.Branch.{validate_credential_branch, check_self, check_link, check_root}
use bu_iam.Delegation.Service.{
  authorize, authorize_target, authorize_context, is_chain_continuous, decide_validated,
  validate_auth_context_credential, decide_parsed, parse_sets, decide, target_capabilities,
  get_agent_vc,
}
use bu_iam.Delegation.Service.Denied.{raise_for_denied}
use bu_iam.Delegation.Service.Child.{
  append_hop, build_child_auth_context, child_of, child_credential,
}
use bu_iam.Gateway.Bearer.{get_active_agent, verify_bearer, verify_bearer_for_envelope}
use bu_iam.Gateway.Context.{trusted_auth_context_for_envelope}
use bu_iam.Gateway.Server.{Outside, Server, Posted}
use bu_iam.Gateway.Checks.{with_node, record_intent, task_context}
use bu_iam.Gateway.Agent.{Prepared, prepare_trusted, prepare_task, decide_task, next_envelope}
use bu_iam.Gateway.Agent.Cleared.{Cleared, prepare_task-Cleared}
use bu_iam.Json.{put}
use bu_iam.Protocol.{user, RootTaskRequest}
use bu_iam.Identity.Crypto.{sign_with_kid}
use bu_iam.Intent.Crypto.{
  build_signed_intent_node, sign_intent_node, unsigned_intent_node, signed_intent_node,
}
use bu_iam.Runtime.Tasks.{no_tasks}
use bu_iam.Runtime.Tasks.Steps.{runs_in}
use bu_iam.Gateway.Forward.{forward_to_agent}
use bu_iam.Gateway.Forward.Finished.{forward_to_agent-gone}
use bu_iam.Gateway.Root.{
  Uuids, RootPrepared, provisional, task_payload, require_user, generate_root_intent, root_envelope,
  root_hop, root_child, check_root_node, prepare_root_node, prepare_generated, prepare_root,
}
use bu_iam.Gateway.Root.Cleared.{RootCleared, prepare_root-Cleared}
use bu_iam.Tests.Fixtures.{row, toy, with_root, root_token, task}
use bu_iam.Tests.Intent.{root_intent, child_intent, stored_row, consistent, report}

abbrev pub outside : Outside
outside = record {
  generator = λ g. err (generation_error "no model");
  judge = consistent;
  post = λ endpoint e s. (Posted.unreachable "down", s);
  new_task = λ s. 7;
}

-- a token of doc_agent for its root credential
abbrev pub office : World
office = record with_root {
  tokens = record root_token { credential_id = some "ROOT{}" } ∷ [];
  intent_tree = stored_row root_intent ∷ [];
}

abbrev pub call : DelegationEnvelope
call = record task { auth_context = none; intent_node = some child_intent }

task-ready :
    (p : Prepared) × ((prepare_task toy outside "data_agent" call (some "Bearer h.c.2") office).0
      ≡ ok p)
unfolding prepare_task get_active_agent verify_bearer_for_envelope verify_bearer inspect_token
    inspect_read check_token check_signature check_method check_key verify_with_kid
    resolve_verification_method get_did_document check_rest check_claims inspect_checked
    check_stored check_credential verify_credential_integrity catch_did kty_of subject_claim
    is_claim exp_claim inspect_claims inspect_stored verified_result continue handle prepare_trusted
    with_node record_intent decide_task next_envelope task_context validate_and_record_intent_node
    auth_context_from_credential branch_from parent_row get_intent_node climb authorize
    authorize_target get_agent authorize_context is_chain_continuous decide_validated
    validate_auth_context_credential validate_credential_branch check_self check_link check_root
    get_credential decide_parsed parse_sets decide target_capabilities get_agent_vc append_hop
    build_child_auth_context child_of child_credential raise_for_denied
    trusted_auth_context_for_envelope
task-ready = (_, refl)

prepare_task-Cleared_example :
    Cleared toy outside "data_agent" call
      (some "Bearer h.c.2")
      office
      (prepare_task toy outside "data_agent" call (some "Bearer h.c.2") office).1
      task-ready.0
prepare_task-Cleared_example =
    prepare_task-Cleared toy outside "data_agent" call (some "Bearer h.c.2") office
      (prepare_task toy outside "data_agent" call (some "Bearer h.c.2") office).1 task-ready.0
      (pair-eta (prepare_task toy outside "data_agent" call (some "Bearer h.c.2") office)
        task-ready.1)

abbrev pub server : Server
server = record { world = office; tasks = no_tasks }

forward_to_agent-gone_example :
    runs_in "trace" 7 (forward_to_agent outside "http://data" call server).1.tasks ≡ false
forward_to_agent-gone_example = forward_to_agent-gone outside "http://data" call server

-- a user's token, and the user's document
abbrev pub desk : World
desk = record office {
  tokens = record root_token { credential_id = some "ROOT{}"; actor_type = user } ∷ [];
  did_documents = row "alice" ∷ office.did_documents;
}

abbrev pub uuids : Uuids
uuids = record { trace = "trace"; request = "call"; lost_trace = "lost"; lost_request = "lost" }

abbrev pub question : RootTaskRequest
question = record {
  trace_id = none;
  request_id = none;
  target_agent_id = "data_agent";
  task_type = "report";
  user_task = "report";
  requested_capabilities = "report:read" ∷ [];
  payload = end;
}

abbrev writes_reports : Outside
writes_reports = record outside {
  generator = λ g. ok (record { commitment = report; model = "small"; provider = "mock" });
}

root-ready :
    (p : RootPrepared) × ((prepare_root toy writes_reports uuids question
        (some "Bearer h.c.2")
        desk).0
      ≡ ok p)
unfolding prepare_root prepare_generated provisional task_payload put require_user
    generate_root_intent root_envelope root_hop prepare_root_node root_child check_root_node
    build_signed_intent_node sign_intent_node unsigned_intent_node signed_intent_node sign_with_kid
    get_active_agent verify_bearer_for_envelope verify_bearer inspect_token inspect_read check_token
    check_signature check_method check_key verify_with_kid resolve_verification_method
    get_did_document check_rest check_claims inspect_checked check_stored check_credential
    verify_credential_integrity catch_did kty_of subject_claim is_claim exp_claim inspect_claims
    inspect_stored verified_result continue handle validate_and_record_intent_node
    auth_context_from_credential branch_from parent_row get_intent_node climb authorize
    authorize_target get_agent authorize_context is_chain_continuous decide_validated
    validate_auth_context_credential validate_credential_branch check_self check_link check_root
    get_credential decide_parsed parse_sets decide target_capabilities get_agent_vc
    build_child_auth_context child_of child_credential raise_for_denied
root-ready = (_, refl)

prepare_root-Cleared_example :
    RootCleared toy writes_reports uuids question
      (some "Bearer h.c.2")
      desk
      (prepare_root toy writes_reports uuids question (some "Bearer h.c.2") desk).1
      root-ready.0
prepare_root-Cleared_example =
    prepare_root-Cleared toy writes_reports uuids question (some "Bearer h.c.2") desk
      (prepare_root toy writes_reports uuids question (some "Bearer h.c.2") desk).1 root-ready.0
      (pair-eta (prepare_root toy writes_reports uuids question (some "Bearer h.c.2") desk)
        root-ready.1)
