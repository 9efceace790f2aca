-- ===== src/Intent/Service.antt =====
-- app/intent/service.py: `validate_and_record_intent_node`. The judge, a call of a language model
-- (app/intent/judge.py), is a parameter; only an `IntentJudgeError` of it is caught.
pub mod Record
pub mod Internal
use bu_iam.Prelude.{String, Bool, Option, none, some, ◌==◌, if◌then◌else◌}
use bu_iam.Prelude.Result.{Result, ok, err, ◌>>=◌, ◌>>◌}
use bu_iam.Libs.{Libs}
use bu_iam.Protocol.{AuthContext, IntentNode}
use bu_iam.Protocol.Errors.{Exception, intent_error, judge_error, Read}
use bu_iam.World.{World}
use bu_iam.Store.IntentTree.{Placed, upsert_intent_node}
use bu_iam.Intent.Branch.{validate_node_hash_and_signature, validate_actor, validate_branch}

pub record JudgeRequest : Type 0 where
  pub root_intent : String
  pub parent_intent : String
  pub child_intent : String
  pub task_type : String
  pub target_agent_id : String

pub record IntentJudgeResult : Type 0 where
  pub decision : String
  pub reason : String

pub record IntentValidationResult : Type 0 where
  pub node : IntentNode
  pub root_node : IntentNode
  pub parent_node : IntentNode
  pub root_intent : String
  pub parent_intent : String
  pub child_intent : String
  pub judge_decision : String
  pub judge_reason : String

abbrev pub Judge : Type 0
Judge = JudgeRequest → Read IntentJudgeResult

-- A node with the root and the parent that the walk found, and where it is recorded.
pub record Placing : Type 0 where
  pub node : IntentNode
  pub root_node : IntentNode
  pub parent_node : IntentNode
  pub trace_id : String
  pub request_id : String

unfoldable pub judge_request : Placing → JudgeRequest
judge_request p = record {
  root_intent = p.root_node.intent_commitment.intent;
  parent_intent = p.parent_node.intent_commitment.intent;
  child_intent = p.node.intent_commitment.intent;
  task_type = p.node.task_type;
  target_agent_id = p.node.target_agent_id;
}

-- the error that carries the judgement
unfoldable pub judged_fault : String → Placing → IntentJudgeResult → Exception
judged_fault code p j = intent_error (record {
  error_code = code;
  message = j.reason;
  node = some p.node;
  root_intent = some p.root_node.intent_commitment.intent;
  parent_intent = some p.parent_node.intent_commitment.intent;
  child_intent = some p.node.intent_commitment.intent;
  judge_decision = some j.decision;
  judge_reason = some j.reason;
})

unfoldable pub placed_by : Placing → IntentJudgeResult → Placed
placed_by p j = record {
  trace_id = p.trace_id;
  request_id = p.request_id;
  root_node_id = p.root_node.node_id;
  judge_decision = some j.decision;
  judge_reason = some j.reason;
}

unfoldable pub record_node : Libs → Placing → IntentJudgeResult → World → World
unfolding placed_by upsert_intent_node
record_node lib p j w = upsert_intent_node lib p.node (placed_by p j) w

unfoldable pub validation_result : Placing → IntentJudgeResult → IntentValidationResult
validation_result p j = record {
  node = p.node;
  root_node = p.root_node;
  parent_node = p.parent_node;
  root_intent = p.root_node.intent_commitment.intent;
  parent_intent = p.parent_node.intent_commitment.intent;
  child_intent = p.node.intent_commitment.intent;
  judge_decision = j.decision;
  judge_reason = j.reason;
}

abbrev pub judge_failed : String → IntentJudgeResult
judge_failed message = record { decision = "JudgeFailed"; reason = message }

-- from the judge's answer on
unfoldable pub record_judged :
    Libs → Placing → Read IntentJudgeResult → World → Read IntentValidationResult × World
unfolding judged_fault record_node validation_result
record_judged lib p (err (judge_error message)) w = (
  err (judged_fault "INTENT_JUDGE_FAILED" p (judge_failed message)),
  record_node lib p (judge_failed message) w,
)
record_judged lib p (err e) w = (err e, w)
record_judged lib p (ok j) w = (
  if j.decision == "Drifted"
      then err (judged_fault "INTENT_DRIFTED" p j)
      else ok (validation_result p j),
  record_node lib p j w,
)

-- The arguments of `validate_and_record_intent_node`.
pub record Submission : Type 0 where
  pub node : IntentNode
  pub trace_id : String
  pub request_id : String
  pub auth_context : AuthContext

unfoldable pub check_node : Libs → Submission → World → Read (Unit {0})
unfolding validate_node_hash_and_signature validate_actor
check_node lib s w = do
  validate_node_hash_and_signature lib s.node w
  validate_actor s.node s.auth_context

unfoldable pub placing : Submission → IntentNode → IntentNode → Placing
placing s root parent = record {
  node = s.node;
  root_node = root;
  parent_node = parent;
  trace_id = s.trace_id;
  request_id = s.request_id;
}

unfoldable pub record_branch :
    Libs
    → Judge
    → Submission
    → Option (Read (IntentNode × IntentNode))
    → World
    → Option (Read IntentValidationResult × World)
unfolding placing judge_request record_judged
record_branch lib judge s none w = none
record_branch lib judge s (some (err e)) w = some (err e, w)
record_branch lib judge s (some (ok (root, parent))) w =
    some
      (record_judged lib (placing s root parent) (judge (judge_request (placing s root parent))) w)

unfoldable pub record_checked :
    Libs
    → Judge
    → Submission
    → Read (Unit {0})
    → World
    → Option (Read IntentValidationResult × World)
unfolding validate_branch record_branch
record_checked lib judge s (err e) w = some (err e, w)
record_checked lib judge s (ok u) w =
    record_branch lib judge s (validate_branch lib (some s.trace_id) s.node w) w

unfoldable pub validate_and_record_intent_node :
    Libs → Judge → Submission → World → Option (Read IntentValidationResult × World)
unfolding check_node record_checked
validate_and_record_intent_node lib judge s w = record_checked lib judge s (check_node lib s w) w
