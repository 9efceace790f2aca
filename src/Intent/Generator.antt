-- ===== src/Intent/Generator.antt =====
-- app/intent/generator.py: `generate_intent_commitment`.
use Prim.Native.String.{◌++◌}
use bu_iam.Prelude.{String, Bool, ◌||◌, Option, none, some, List, [], ◌∷◌, ◌==◌, if◌then◌else◌}
use bu_iam.Prelude.Sets.{sorted}
use bu_iam.Prelude.Text.{strip}
use bu_iam.Prelude.Result.{ok, err, or_raise, ◌>>=◌}
use bu_iam.Json.{
  Json, text, arr, obj, Items, nil, cons, Fields, end, field, get, texts, texts_items,
}
use bu_iam.Libs.{Libs, str}
use bu_iam.Protocol.{ActorType, actor_type_text, IntentCommitment}
use bu_iam.Protocol.Errors.{generation_error, other, Read}
use bu_iam.Intent.Answer.{answer_fields}
use bu_iam.Intent.Models.{Environment, Post, Caller, take_text, call_openai, call_anthropic}

-- The arguments of `generate_intent_commitment`.
pub record Generate : Type 0 where
  pub user_task : String
  pub actor_id : String
  pub actor_type : ActorType
  pub target_agent_id : String
  pub task_type : String
  pub payload : Fields

pub record GeneratedIntent : Type 0 where
  pub commitment : IntentCommitment
  pub model : String
  pub provider : String

abbrev pub Generator : Type 0
Generator = Generate → Read GeneratedIntent

abbrev pub generator_caller : Caller
generator_caller = record {
  fault = generation_error;
  task = "intent generation";
  max_tokens = 500;
  unreachable = λ what message. generation_error (what ++ message);
}

unfoldable pub field_names : Fields → List String
field_names end = []
field_names (field k v fs) = k ∷ field_names fs

-- {key: str(value)[:200] for key, value in payload.items()}
unfoldable pub summarize_payload : Libs → Fields → Fields
unfolding take_text
summarize_payload lib end = end
summarize_payload lib (field k v fs) =
    field k (text (take_text 200 (str lib v))) (summarize_payload lib fs)

abbrev pub request_json : Libs → Generate → Json
unfolding summarize_payload
request_json lib g = obj (
    field "user_task" (text g.user_task) (
      field "actor_id" (text g.actor_id) (
        field "actor_type" (text (actor_type_text g.actor_type)) (
          field "target_agent_id" (text g.target_agent_id) (
            field "task_type" (text g.task_type)
              (field "payload_summary" (obj (summarize_payload lib g.payload)) end))))))

-- the answer of the demo provider
unfoldable pub mock_json : Generate → Json
unfolding texts_items field_names sorted
mock_json g = obj (
    field "intent"
      (text (
        g.actor_id
        ++ (" requests "
            ++ (g.target_agent_id ++ (" to run " ++ (g.task_type ++ (": " ++ g.user_task)))))))
      (field "description" (text "Deterministic demo intent commitment.") (
        field "data_refs" (texts (sorted (field_names g.payload))) (
          field "constraints"
            (texts ("demo intent provider" ∷ "preserve delegated capability boundary" ∷ [])) end))))

-- [str(item) for item in value]
unfoldable pub item_texts : Libs → Items → List String
item_texts lib nil = []
item_texts lib (cons v vs) = str lib v ∷ item_texts lib vs

unfoldable pub letters : String → List String
letters String.[] = []
letters (String.◌∷◌ c s) = String.◌∷◌ c String.[] ∷ letters s

-- of what the key holds, or of the empty list
unfoldable pub texts_of : Libs → Option Json → Read (List String)
unfolding item_texts letters field_names
texts_of lib none = ok []
texts_of lib (some (arr vs)) = ok (item_texts lib vs)
texts_of lib (some (text t)) = ok (letters t)
texts_of lib (some (obj fs)) = ok (field_names fs)
texts_of lib (some v) = err (other "TypeError")

-- str(payload.get(key, ""))
unfoldable pub text_or_empty : Libs → Option Json → String
text_or_empty lib none = ""
text_or_empty lib (some v) = str lib v

unfoldable pub commitment_of : Libs → Fields → Read IntentCommitment
unfolding get strip texts_of text_or_empty
commitment_of lib fields =
    let intent = strip (text_or_empty lib (get "intent" fields)) in
    if intent == "" then err (generation_error "intent generator returned empty intent") else do
      data_refs ← texts_of lib (get "data_refs" fields)
      constraints ← texts_of lib (get "constraints" fields)
      ok (record {
        intent = intent;
        description = text_or_empty lib (get "description" fields);
        data_refs = data_refs;
        constraints = constraints;
      })

unfoldable pub parse_intent_response : Libs → Json → Read IntentCommitment
unfolding answer_fields commitment_of
parse_intent_response lib raw = do
  fields ← answer_fields lib (generation_error "intent generator returned non-json output") raw
  commitment_of lib fields

abbrev pub is_demo : String → Bool
is_demo provider = provider == "mock" || provider == "demo"

-- the model and its answer
unfoldable pub generated_by : Libs → Environment → Post → Generate → Read (String × Json)
unfolding mock_json call_openai call_anthropic
generated_by lib env post g =
    if is_demo env.generator_provider
    then ok ("mock-intent-generator", text (lib.dumps_plain (mock_json g)))
    else if env.generator_provider == "anthropic"
    then (do
      prompt ← or_raise env.generator_prompt (other "OSError")
      raw ←
          call_anthropic generator_caller env post prompt (lib.dumps_plain (request_json lib g))
            env.anthropic_model
      ok (env.anthropic_model, raw))
    else if env.generator_provider == "openai"
    then (do
      prompt ← or_raise env.generator_prompt (other "OSError")
      raw ←
          call_openai generator_caller env post prompt (lib.dumps_plain (request_json lib g))
            env.openai_model
      ok (env.openai_model, raw))
    else err
        (generation_error ("unsupported intent generator provider: " ++ env.generator_provider))

unfoldable pub generate_intent_commitment : Libs → Environment → Post → Generator
unfolding generated_by parse_intent_response
generate_intent_commitment lib env post g = do
  answer ← generated_by lib env post g
  commitment ← parse_intent_response lib answer.1
  ok (record { commitment = commitment; model = answer.0; provider = env.generator_provider })
