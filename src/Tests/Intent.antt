-- ===== src/Tests/Intent.antt =====
-- The theorems on app/intent, at a root intent with one below it.
use bu_iam.Prelude.{◌≡◌, refl, ◌⊎◌, none, some, [], ◌∷◌}
use bu_iam.Prelude.Result.{ok}
use bu_iam.Protocol.{user, agent, IntentCommitment, IntentNode}
use bu_iam.Protocol.Errors.{Read}
use bu_iam.World.{World, IntentRow}
use bu_iam.Identity.Resolver.{resolve_verification_method}
use bu_iam.Identity.Crypto.{verify_with_kid}
use bu_iam.Store.DidRegistry.{get_did_document}
use bu_iam.Store.IntentTree.{Placed, get_intent_node}
use bu_iam.Intent.Crypto.{build_signed_intent_node}
use bu_iam.Intent.Crypto.RoundTrip.{build_signed_intent_node-validate}
use bu_iam.Delegation.Credential.Context.{auth_context_from_credential}
use bu_iam.Intent.Branch.{
  validate_node_hash_and_signature, parent_row, climb, branch_from, validate_branch,
}
use bu_iam.Intent.Branch.Walk.{validate_branch_total}
use bu_iam.Intent.Branch.Ancestry.{Ancestry, validate_branch-Ancestry}
use bu_iam.Intent.Service.{
  Judge, Submission, IntentValidationResult, validate_and_record_intent_node,
}
use bu_iam.Intent.Service.Record.{
  Recorded, Accepted, validate_and_record-Recorded, validate_and_record-Accepted,
  validate_and_record_total,
}
use bu_iam.Tests.Fixtures.{toy, no_credentials, gateway_key, root_context}

abbrev pub report : IntentCommitment
report = record { intent = "report"; description = ""; data_refs = []; constraints = [] }

abbrev pub root_intent : IntentNode
root_intent = record {
  node_id = "ROOT{}";
  parent_node_id = none;
  actor_id = "buiam-auth-system";
  actor_type = user;
  target_agent_id = "doc_agent";
  task_type = "report";
  intent_commitment = report;
  signature = "2";
  signature_alg = "BUIAM-RS256";
}

abbrev pub child_intent : IntentNode
child_intent = record root_intent {
  node_id = "ROOT{}{}";
  parent_node_id = some "ROOT{}";
  actor_id = "doc_agent";
  actor_type = agent;
  target_agent_id = "data_agent";
}

abbrev pub stored_row : IntentNode → IntentRow
stored_row n = record {
  node = n;
  root_node_id = "ROOT{}";
  trace_id = "trace";
  request_id = "call";
  content_hash = "{}";
  judge_decision = some "Consistent";
  judge_reason = some "fits";
  created_at = 10;
}

abbrev pub with_intent : World
with_intent = record no_credentials { intent_tree = stored_row root_intent ∷ [] }

child-branch :
    validate_branch toy (some "trace") child_intent with_intent
    ≡ some (ok (root_intent, root_intent))
unfolding validate_branch branch_from parent_row climb validate_node_hash_and_signature
    verify_with_kid resolve_verification_method get_did_document get_intent_node
child-branch = refl

validate_branch-Ancestry_example : Ancestry toy with_intent (some "trace") root_intent child_intent
validate_branch-Ancestry_example =
    validate_branch-Ancestry toy with_intent (some "trace") child_intent root_intent root_intent
      child-branch

validate_branch_total_example :
    (out : Read (IntentNode × IntentNode)) × (validate_branch toy
        (some "trace")
        child_intent
        with_intent
      ≡ some out)
validate_branch_total_example = validate_branch_total toy (some "trace") child_intent with_intent

build_signed_intent_node-validate_example :
    (node : IntentNode) × (build_signed_intent_node toy none "buiam-auth-system" user "doc_agent"
        "report" report no_credentials
      ≡ ok node)
    × (validate_node_hash_and_signature toy node no_credentials ≡ ok tt)
build_signed_intent_node-validate_example =
    build_signed_intent_node-validate toy none "buiam-auth-system" user "doc_agent" "report" report
      no_credentials refl gateway_key

abbrev pub consistent : Judge
consistent request = ok (record { decision = "Consistent"; reason = "fits" })

abbrev pub submission : Submission
submission = record {
  node = child_intent;
  trace_id = "trace";
  request_id = "call";
  auth_context = root_context;
}

abbrev pub validated : IntentValidationResult
validated = record {
  node = child_intent;
  root_node = root_intent;
  parent_node = root_intent;
  root_intent = "report";
  parent_intent = "report";
  child_intent = "report";
  judge_decision = "Consistent";
  judge_reason = "fits";
}

abbrev pub both_stored : World
both_stored = record with_intent {
  intent_tree = stored_row root_intent ∷ stored_row child_intent ∷ [];
}

child-recorded :
    validate_and_record_intent_node toy consistent submission with_intent
    ≡ some (ok validated, both_stored)
unfolding validate_and_record_intent_node get_did_document auth_context_from_credential branch_from
    parent_row get_intent_node climb
child-recorded = refl

validate_and_record-Accepted_example : Accepted toy submission with_intent both_stored validated
validate_and_record-Accepted_example =
    validate_and_record-Accepted toy consistent submission with_intent both_stored validated
      child-recorded

validate_and_record-Recorded_example :
    (both_stored ≡ with_intent) ⊎ Recorded toy submission with_intent both_stored
validate_and_record-Recorded_example =
    validate_and_record-Recorded toy consistent submission with_intent both_stored (ok validated)
      child-recorded

validate_and_record_total_example :
    (out : Read IntentValidationResult) × (w' : World) × (validate_and_record_intent_node toy
        consistent submission with_intent
      ≡ some (out, w'))
validate_and_record_total_example = validate_and_record_total toy consistent submission with_intent

abbrev at_root : Placed
at_root = record {
  trace_id = "trace";
  request_id = "call";
  root_node_id = "ROOT{}";
  judge_decision = none;
  judge_reason = none;
}
