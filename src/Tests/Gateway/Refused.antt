-- ===== src/Tests/Gateway/Refused.antt =====
-- Refusals of the gateway (app/gateway/routes.py) on the small system: the model makes no intent.
use bu_iam.Prelude.{◌≡◌, refl, none, some}
use bu_iam.Prelude.Result.{err}
use bu_iam.Prelude.Exec.{continue, handle, pair-eta}
use bu_iam.Protocol.{DelegationEnvelope}
use bu_iam.Store.Agents.{get_agent}
use bu_iam.Store.Credentials.{get_credential}
use bu_iam.Store.DidRegistry.{get_did_document}
use bu_iam.Store.IntentTree.{get_intent_node}
use bu_iam.Identity.Resolver.{resolve_verification_method, kty_of}
use bu_iam.Identity.Crypto.{verify_with_kid}
use bu_iam.Identity.Jwt.Checks.{
  check_key, check_method, check_signature, is_claim, exp_claim, catch_did, subject_claim,
  check_claims, check_rest, check_token,
}
use bu_iam.Identity.Jwt.{
  inspect_read, inspect_checked, inspect_claims, inspect_stored, check_stored, check_credential,
  verified_result, inspect_token,
}
use bu_iam.Intent.Branch.{parent_row, climb, branch_from}
use bu_iam.Intent.Service.{validate_and_record_intent_node}
use bu_iam.Delegation.Credential.Check.{verify_credential_integrity}
use bu_iam.Delegation.Credential.Context.{auth_context_from_credential}
use bu_iam.Delegation.Branch.{validate_credential_branch, check_self, check_link, check_root}
use bu_iam.Delegation.Service.{
  authorize, authorize_target, authorize_context, is_chain_continuous, decide_validated,
  validate_auth_context_credential, decide_parsed, parse_sets, decide, target_capabilities,
  get_agent_vc,
}
use bu_iam.Delegation.Service.Denied.{raise_for_denied}
use bu_iam.Delegation.Service.Child.{
  append_hop, build_child_auth_context, child_of, child_credential,
}
use bu_iam.Gateway.Bearer.{get_active_agent, verify_bearer, verify_bearer_for_envelope}
use bu_iam.Gateway.Context.{trusted_auth_context_for_envelope}
use bu_iam.Gateway.Checks.{with_node, record_intent, task_context}
use bu_iam.Gateway.Agent.{prepare_trusted, prepare_task, decide_task, next_envelope}
use bu_iam.Json.{put}
use bu_iam.Protocol.{RootTaskRequest}
use bu_iam.Identity.Crypto.{sign_with_kid}
use bu_iam.Intent.Crypto.{
  build_signed_intent_node, sign_intent_node, unsigned_intent_node, signed_intent_node,
}
use bu_iam.Gateway.Root.{
  provisional, task_payload, require_user, generate_root_intent, root_envelope, root_hop,
  root_child, check_root_node, prepare_root_node, prepare_root,
}
use bu_iam.Tests.Fixtures.{toy}
use bu_iam.Protocol.Errors.{http_exception}
use bu_iam.Protocol.Errors.Internal.{returns, raises}
use bu_iam.Gateway.Audited.{DeniedLast}
use bu_iam.Gateway.Checks.{attach_generated_intent_node, refuse_generation, refuse}
use bu_iam.Gateway.Agent.{agent_task}
use bu_iam.Gateway.Agent.Refused.{ModelsInternal}
use bu_iam.Gateway.Agent.Refused.Whole.{agent_task-DeniedLast}
use bu_iam.Gateway.Root.{refuse_root_generation}
use bu_iam.Gateway.Root.Refused.{prepare_root-DeniedLast}
use bu_iam.Tests.Gateway.Agent.{outside, call, server, desk, uuids, question}

models : ModelsInternal outside
models = record { generates = λ g. raises _ refl; judges = λ q. returns _ }

-- doc_agent sends no intent of its own
abbrev blank : DelegationEnvelope
blank = record call { intent_node = none }

task-refused :
    (agent_task toy outside "data_agent" blank (some "Bearer h.c.2") server).0
    ≡ err (http_exception 403 "INTENT_GENERATION_FAILED" "no model")
unfolding agent_task attach_generated_intent_node refuse_generation refuse prepare_task
    get_active_agent verify_bearer_for_envelope verify_bearer inspect_token inspect_read check_token
    check_signature check_method check_key verify_with_kid resolve_verification_method
    get_did_document check_rest check_claims inspect_checked check_stored check_credential
    verify_credential_integrity catch_did kty_of subject_claim is_claim exp_claim inspect_claims
    inspect_stored verified_result continue handle prepare_trusted with_node record_intent
    decide_task next_envelope task_context validate_and_record_intent_node
    auth_context_from_credential branch_from parent_row get_intent_node climb authorize
    authorize_target get_agent authorize_context is_chain_continuous decide_validated
    validate_auth_context_credential validate_credential_branch check_self check_link check_root
    get_credential decide_parsed parse_sets decide target_capabilities get_agent_vc append_hop
    build_child_auth_context child_of child_credential raise_for_denied
    trusted_auth_context_for_envelope
task-refused = refl

agent_task-DeniedLast_example :
    DeniedLast "trace" "call"
      (agent_task toy outside "data_agent" blank (some "Bearer h.c.2") server).1.world
agent_task-DeniedLast_example =
    agent_task-DeniedLast toy outside "data_agent" blank (some "Bearer h.c.2") server
      (agent_task toy outside "data_agent" blank (some "Bearer h.c.2") server).1
      (http_exception 403 "INTENT_GENERATION_FAILED" "no model") _ models
      (pair-eta (agent_task toy outside "data_agent" blank (some "Bearer h.c.2") server)
        task-refused)
      refl

abbrev asked : RootTaskRequest
asked = record question { trace_id = some "trace"; request_id = some "call" }

root-refused :
    (prepare_root toy outside uuids asked (some "Bearer h.c.2") desk).0
    ≡ err (http_exception 403 "INTENT_GENERATION_FAILED" "no model")
unfolding refuse_root_generation refuse prepare_root provisional task_payload put require_user
    generate_root_intent root_envelope root_hop prepare_root_node root_child check_root_node
    build_signed_intent_node sign_intent_node unsigned_intent_node signed_intent_node sign_with_kid
    get_active_agent verify_bearer_for_envelope verify_bearer inspect_token inspect_read check_token
    check_signature check_method check_key verify_with_kid resolve_verification_method
    get_did_document check_rest check_claims inspect_checked check_stored check_credential
    verify_credential_integrity catch_did kty_of subject_claim is_claim exp_claim inspect_claims
    inspect_stored verified_result continue handle validate_and_record_intent_node
    auth_context_from_credential branch_from parent_row get_intent_node climb authorize
    authorize_target get_agent authorize_context is_chain_continuous decide_validated
    validate_auth_context_credential validate_credential_branch check_self check_link check_root
    get_credential decide_parsed parse_sets decide target_capabilities get_agent_vc
    build_child_auth_context child_of child_credential raise_for_denied
root-refused = refl

prepare_root-DeniedLast_example :
    DeniedLast "trace" "call" (prepare_root toy outside uuids asked (some "Bearer h.c.2") desk).1
prepare_root-DeniedLast_example =
    prepare_root-DeniedLast toy outside uuids asked (some "Bearer h.c.2") "trace" "call" desk
      (prepare_root toy outside uuids asked (some "Bearer h.c.2") desk).1
      (http_exception 403 "INTENT_GENERATION_FAILED" "no model") _ models
      (record { in_trace = refl; of_request = refl; trace_full = refl; request_full = refl })
      (pair-eta (prepare_root toy outside uuids asked (some "Bearer h.c.2") desk) root-refused) refl
