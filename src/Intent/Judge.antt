-- ===== src/Intent/Judge.antt =====
-- app/intent/judge.py: `judge_intent`.
pub mod Verdict
use Prim.Native.String.{◌++◌}
use bu_iam.Prelude.{ℕ, String, Bool, ◌||◌, Option, none, some, ◌==◌, if◌then◌else◌}
use bu_iam.Prelude.Result.{Result, ok, err, or_raise, ◌>>=◌, ◌>>◌}
use bu_iam.Json.{Json, text, obj, Fields, end, field, get}
use bu_iam.Libs.{Libs, str}
use bu_iam.Protocol.Errors.{Exception, judge_error, other, Read}
use bu_iam.Intent.Answer.{answer_fields}
use bu_iam.Intent.Models.{Environment, Post, Caller, call_openai, call_anthropic}
use bu_iam.Intent.Service.{JudgeRequest, IntentJudgeResult, Judge}

-- an `HTTPError` of its calls is not caught
abbrev pub judge_caller : Caller
judge_caller = record {
  fault = judge_error;
  task = "intent judge";
  max_tokens = 400;
  unreachable = λ what message. other message;
}

-- its `call_openai` and `call_anthropic`, which read the model's name themselves
unfoldable pub ask_openai : Environment → Post → String → String → Read Json
unfolding call_openai
ask_openai env post system_prompt user_payload =
    call_openai judge_caller env post system_prompt user_payload env.openai_model

unfoldable pub ask_anthropic : Environment → Post → String → String → Read Json
unfolding call_anthropic
ask_anthropic env post system_prompt user_payload =
    call_anthropic judge_caller env post system_prompt user_payload env.anthropic_model

abbrev pub request_json : JudgeRequest → Json
request_json q = obj (
    field "root_intent" (text q.root_intent) (
      field "parent_intent" (text q.parent_intent) (
        field "child_intent" (text q.child_intent) (
          field "task_type" (text q.task_type)
            (field "target_agent_id" (text q.target_agent_id) end)))))

abbrev pub invalid_decision : Exception
invalid_decision = judge_error "intent judge returned invalid decision"

-- `decision not in {"Consistent", "Drifted"}`: a list or a dict has no hash
unfoldable pub judgement : Option Json → String → Read IntentJudgeResult
judgement (some (text t)) reason =
    if t == "Consistent" || t == "Drifted"
    then ok (record { decision = t; reason = reason })
    else err invalid_decision
judgement (some (Json.arr vs)) reason = err (other "TypeError")
judgement (some (obj fs)) reason = err (other "TypeError")
judgement o reason = err invalid_decision

unfoldable pub reason_text : Libs → Option Json → String
reason_text lib none = ""
reason_text lib (some v) = str lib v

unfoldable pub parse_judge_response : Libs → Json → Read IntentJudgeResult
unfolding answer_fields get judgement reason_text
parse_judge_response lib raw = do
  fields ← answer_fields lib (judge_error "intent judge returned non-json output") raw
  judgement (get "decision" fields) (reason_text lib (get "reason" fields))

unfoldable pub judge_with :
    Libs → Environment → (String → String → Read Json) → JudgeRequest → Read IntentJudgeResult
unfolding parse_judge_response
judge_with lib env call q = do
  prompt ← or_raise env.judge_prompt (other "OSError")
  raw ← call prompt (lib.dumps_plain (request_json q))
  parse_judge_response lib raw

abbrev pub demo_answer : IntentJudgeResult
demo_answer = record {
  decision = "Consistent";
  reason = "Deterministic demo judge accepted the child intent.";
}

unfoldable pub judge_intent : Libs → Environment → Post → Judge
unfolding judge_with ask_openai ask_anthropic
judge_intent lib env post q =
    if env.judge_provider == "mock" || env.judge_provider == "demo"
    then ok demo_answer
    else if env.judge_provider == "anthropic"
    then judge_with lib env (ask_anthropic env post) q
    else if env.judge_provider == "openai"
    then judge_with lib env (ask_openai env post) q
    else err (judge_error ("unsupported intent judge provider: " ++ env.judge_provider))
