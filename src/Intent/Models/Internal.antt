-- ===== src/Intent/Models/Internal.antt =====
-- The models' answers (app/intent/generator.py, app/intent/judge.py) come with no `HTTPException`.
use bu_iam.Prelude.{String, ◌≡◌, refl, Option, none, some, ◌==◌}
use bu_iam.Json.{Json, text, arr, obj, Items, nil, cons, Fields, end, field}
use bu_iam.Libs.{Libs}
use bu_iam.Protocol.Errors.{Exception, detail_of, Read}
use bu_iam.Protocol.Errors.Internal.{
  IsInternal, returns, raises, if-IsInternal, bind-IsInternal, or_raise-IsInternal, internal,
}
use bu_iam.Intent.Answer.{raw_text, as_fields, answer_fields}
use bu_iam.Intent.Models.{
  Environment, Reply, answered, refused, failed, broken, Post, Caller, value_of, item, first_item,
  need_key, openai_text, call_openai, join_block, join_blocks, joined, call_anthropic,
}
use bu_iam.Intent.Generator.{
  Generate, generator_caller, texts_of, commitment_of, parse_intent_response, generated_by,
  generate_intent_commitment,
}
use bu_iam.Intent.Judge.{
  judge_caller, ask_openai, ask_anthropic, judgement, parse_judge_response, judge_with,
  judge_intent,
}
use bu_iam.Intent.Service.{JudgeRequest}

-- The HTTP client raises no exception of the server framework.
pub data IsClient : Reply → Type 0 where
  answers : (v : Json) → IsClient (answered v)
  refuses : (message body : String) → IsClient (refused message body)
  fails : (message : String) → IsClient (failed message)
  breaks : (x : Exception) → detail_of x ≡ none → IsClient (broken x)

-- the exceptions of a file
record IsCaller (caller : Caller) : Type 0 where
  fault : (t : String) → detail_of (caller.fault t) ≡ none
  unreachable : (what message : String) → detail_of (caller.unreachable what message) ≡ none

raw_text-IsInternal : (v : Json) → IsInternal (raw_text v)
unfolding raw_text
raw_text-IsInternal (text t) = search internal
raw_text-IsInternal v = search internal

as_fields-IsInternal : (v : Json) → IsInternal (as_fields v)
unfolding as_fields
as_fields-IsInternal (obj fs) = search internal
as_fields-IsInternal v = search internal

answer_fields-IsInternal :
    (lib : Libs) (x : Exception) (raw : Json)
    → detail_of x ≡ none
    → IsInternal (answer_fields lib x raw)
unfolding answer_fields
answer_fields-IsInternal lib x raw h =
    search (internal, raw_text-IsInternal, as_fields-IsInternal, h) depth 12

item-IsInternal : (key : String) (v : Json) → IsInternal (item key v)
unfolding item
item-IsInternal key (obj fs) = search internal
item-IsInternal key v = search internal

first_item-IsInternal : (v : Json) → IsInternal (first_item v)
unfolding first_item
first_item-IsInternal (arr nil) = search internal
first_item-IsInternal (arr (cons v vs)) = search internal
first_item-IsInternal (text String.[]) = search internal
first_item-IsInternal (text (String.◌∷◌ c s)) = search internal
first_item-IsInternal (obj fs) = search internal
first_item-IsInternal v = search internal

openai_text-IsInternal : (v : Json) → IsInternal (openai_text v)
unfolding openai_text
openai_text-IsInternal v = search (internal, item-IsInternal, first_item-IsInternal) depth 14

join_block-IsInternal :
    (o : Option Json) (rest : Read String) → IsInternal rest → IsInternal (join_block o rest)
unfolding join_block
join_block-IsInternal none rest h = h
join_block-IsInternal (some (text t)) rest h = search (internal, h)
join_block-IsInternal (some v) rest h = search (internal, h)

join_blocks-IsInternal : (blocks : Items) → IsInternal (join_blocks blocks)
unfolding join_blocks
join_blocks-IsInternal nil = search internal
join_blocks-IsInternal (cons (obj block) blocks) =
    join_block-IsInternal _ _ (join_blocks-IsInternal blocks)
join_blocks-IsInternal (cons v blocks) = search internal

joined-IsInternal : (v : Json) → IsInternal (joined v)
unfolding joined
joined-IsInternal (arr blocks) = search (internal, join_blocks-IsInternal)
joined-IsInternal (text String.[]) = search internal
joined-IsInternal (text (String.◌∷◌ c s)) = search internal
joined-IsInternal (obj end) = search internal
joined-IsInternal (obj (field k v fs)) = search internal
joined-IsInternal v = search internal

module _ (caller : Caller) (inside : IsCaller caller) where
  value_of-IsInternal :
      (provider : String) (r : Reply) → IsClient r → IsInternal (value_of caller provider r)
  unfolding value_of
  value_of-IsInternal provider r (answers v) = returns v
  value_of-IsInternal provider r (refuses message body) = raises _ (inside.fault _)
  value_of-IsInternal provider r (fails message) = raises _ (inside.unreachable _ message)
  value_of-IsInternal provider r (breaks x h) = raises x h

  need_key-IsInternal : (name : String) (o : Option String) → IsInternal (need_key caller name o)
  unfolding need_key
  need_key-IsInternal name none = raises _ (inside.fault _)
  need_key-IsInternal name (some key) =
      if-IsInternal (key == "") _ _ (raises _ (inside.fault _)) (returns key)

  module _ (env : Environment) (post : Post)
      (client : (url : String) (h : Fields) (v : Json) → IsClient (post url h v)) where
    call_openai-IsInternal :
        (prompt payload model : String)
        → IsInternal (call_openai caller env post prompt payload model)
    unfolding call_openai
    call_openai-IsInternal prompt payload model =
        search (internal, need_key-IsInternal, value_of-IsInternal, client, openai_text-IsInternal)

    call_anthropic-IsInternal :
        (prompt payload model : String)
        → IsInternal (call_anthropic caller env post prompt payload model)
    unfolding call_anthropic
    call_anthropic-IsInternal prompt payload model =
        search
          (
            internal, need_key-IsInternal, value_of-IsInternal, client, item-IsInternal,
            joined-IsInternal,
          )
          depth 12

texts_of-IsInternal : (lib : Libs) (o : Option Json) → IsInternal (texts_of lib o)
unfolding texts_of
texts_of-IsInternal lib none = search internal
texts_of-IsInternal lib (some (arr vs)) = search internal
texts_of-IsInternal lib (some (text t)) = search internal
texts_of-IsInternal lib (some (obj fs)) = search internal
texts_of-IsInternal lib (some v) = search internal

commitment_of-IsInternal : (lib : Libs) (fs : Fields) → IsInternal (commitment_of lib fs)
unfolding commitment_of
commitment_of-IsInternal lib fs = search (internal, texts_of-IsInternal) depth 12

judgement-IsInternal : (o : Option Json) (reason : String) → IsInternal (judgement o reason)
unfolding judgement
judgement-IsInternal (some (text t)) reason = search internal
judgement-IsInternal (some (arr vs)) reason = search internal
judgement-IsInternal (some (obj fs)) reason = search internal
judgement-IsInternal o reason = search internal

parse_judge-IsInternal : (lib : Libs) (raw : Json) → IsInternal (parse_judge_response lib raw)
unfolding parse_judge_response
parse_judge-IsInternal lib raw = search (internal, answer_fields-IsInternal, judgement-IsInternal)

parse_intent-IsInternal : (lib : Libs) (raw : Json) → IsInternal (parse_intent_response lib raw)
unfolding parse_intent_response
parse_intent-IsInternal lib raw =
    bind-IsInternal (answer_fields-IsInternal lib _ raw refl)
      (λ fs. commitment_of-IsInternal lib fs)

judge_with-IsInternal :
    (lib : Libs) (env : Environment) (call : String → String → Read Json) (q : JudgeRequest)
    → ((prompt payload : String) → IsInternal (call prompt payload))
    → IsInternal (judge_with lib env call q)
unfolding judge_with
judge_with-IsInternal lib env call q called =
    bind-IsInternal (or_raise-IsInternal env.judge_prompt _ refl)
      (λ prompt. bind-IsInternal (called _ _) (λ raw. parse_judge-IsInternal lib raw))

judge_caller-IsCaller : IsCaller judge_caller
judge_caller-IsCaller = record { fault = λ t. refl; unreachable = λ what message. refl }

generator_caller-IsCaller : IsCaller generator_caller
generator_caller-IsCaller = record { fault = λ t. refl; unreachable = λ what message. refl }

module _ (lib : Libs) (env : Environment) (post : Post)
    (client : (url : String) (h : Fields) (v : Json) → IsClient (post url h v)) where
  pub judge_intent-IsInternal : (q : JudgeRequest) → IsInternal (judge_intent lib env post q)
  unfolding judge_intent ask_openai ask_anthropic
  judge_intent-IsInternal q =
      let asked = judge_with-IsInternal lib env (ask_anthropic env post) q (λ prompt payload.
        call_anthropic-IsInternal judge_caller judge_caller-IsCaller env post client prompt payload
          env.anthropic_model) in
      let asked_too = judge_with-IsInternal lib env (ask_openai env post) q (λ prompt payload.
        call_openai-IsInternal judge_caller judge_caller-IsCaller env post client prompt payload
          env.openai_model) in
      search (internal, asked, asked_too)

  generated_by-IsInternal : (g : Generate) → IsInternal (generated_by lib env post g)
  unfolding generated_by
  generated_by-IsInternal g =
      let asked =
        call_anthropic-IsInternal generator_caller generator_caller-IsCaller env post client in
      let asked_too =
        call_openai-IsInternal generator_caller generator_caller-IsCaller env post client in
      search (internal, asked, asked_too) depth 14

  pub generate-IsInternal : (g : Generate) → IsInternal (generate_intent_commitment lib env post g)
  unfolding generate_intent_commitment
  generate-IsInternal g =
      bind-IsInternal (generated_by-IsInternal g)
        (λ answer. bind-IsInternal (parse_intent-IsInternal lib answer.1) (λ commitment. returns _))
