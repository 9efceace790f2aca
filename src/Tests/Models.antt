-- ===== src/Tests/Models.antt =====
-- The calls of language models (app/intent/generator.py, app/intent/judge.py) on answers as the
-- models write them.
use bu_iam.Prelude.{◌≡◌, refl, none, some}
use bu_iam.Prelude.Result.{ok}
use bu_iam.Json.{text, arr, obj, nil, cons, end, field}
use bu_iam.Store.DidRegistry.{get_did_document}
use bu_iam.Store.IntentTree.{get_intent_node}
use bu_iam.Delegation.Credential.Context.{auth_context_from_credential}
use bu_iam.Intent.Branch.{parent_row, climb, branch_from}
use bu_iam.Intent.Answer.{extract_json_object}
use bu_iam.Intent.Models.{Environment, Reply, Post}
use bu_iam.Intent.Models.Internal.{IsClient}
use bu_iam.Intent.Judge.{judge_intent}
use bu_iam.Intent.Judge.Verdict.{judge_intent-Consistent}
use bu_iam.Intent.Service.{validate_and_record_intent_node}
use bu_iam.Intent.Service.Record.{Accepted}
use bu_iam.Gateway.Agent.Refused.{ModelsInternal}
use bu_iam.Gateway.Agent.Refused.Models.{with_models, with_models-ModelsInternal}
use bu_iam.Tests.Fixtures.{toy}
use bu_iam.Tests.Gateway.Agent.{outside}
use bu_iam.Tests.Intent.{with_intent, submission, validated, both_stored}

-- the object between fences, or between the outermost braces
fenced-extracted : extract_json_object "Here: ```JSON {\"a\":{}} ``` or {b}" ≡ "{\"a\":{}}"
unfolding extract_json_object
fenced-extracted = refl

braces-extracted : extract_json_object "  it is {\"a\":{}}, I think" ≡ "{\"a\":{}}"
unfolding extract_json_object
braces-extracted = refl

backwards-kept : extract_json_object " } and { " ≡ "} and {"
unfolding extract_json_object
backwards-kept = refl

abbrev asks_openai : Environment
asks_openai = record {
  generator_provider = "mock";
  judge_provider = "openai";
  openai_api_key = some "key";
  openai_base_url = "https://api.openai.com/v1/";
  openai_model = "gpt-4o-mini";
  openai_response_format = "";
  anthropic_api_key = none;
  anthropic_base_url = "https://api.anthropic.com/v1";
  anthropic_model = "claude-3-5-haiku-latest";
  generator_prompt = none;
  judge_prompt = some "Judge.";
}

-- a chat completion whose content has a fenced object
abbrev completes : Post
completes url headers body = Reply.answered (
    obj (
      field "choices"
        (arr (
          cons (obj (field "message" (obj (field "content" (text "```json\n{1}\n```") end)) end))
            nil))
        end))

judged :
    validate_and_record_intent_node toy
      (judge_intent toy asks_openai completes)
      submission
      with_intent
    ≡ some (ok validated, both_stored)
unfolding validate_and_record_intent_node get_did_document auth_context_from_credential branch_from
    parent_row get_intent_node climb judge_intent
judged = refl

judge_intent-Consistent_example :
    (validated.judge_decision ≡ "Consistent")
    × Accepted toy submission with_intent both_stored validated
judge_intent-Consistent_example =
    judge_intent-Consistent toy asks_openai completes submission with_intent both_stored validated
      judged

with_models-ModelsInternal_example : ModelsInternal (with_models toy asks_openai completes outside)
with_models-ModelsInternal_example =
    with_models-ModelsInternal toy asks_openai completes outside
      (λ url headers body. IsClient.answers _)
