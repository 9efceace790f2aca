-- ===== src/Gateway/Agent/Refused/Models.antt =====
-- The program's own models (app/intent) as what the gateway waits for.
use bu_iam.Json.{Json, Fields}
use bu_iam.Prelude.{String}
use bu_iam.Libs.{Libs}
use bu_iam.Intent.Models.{Environment, Post}
use bu_iam.Intent.Models.Internal.{IsClient, judge_intent-IsInternal, generate-IsInternal}
use bu_iam.Intent.Generator.{generate_intent_commitment}
use bu_iam.Intent.Judge.{judge_intent}
use bu_iam.Gateway.Server.{Outside}
use bu_iam.Gateway.Agent.Refused.{ModelsInternal}

-- what a handler waits for, with the generator and the judge of the program
unfoldable pub with_models : Libs → Environment → Post → Outside → Outside
unfolding generate_intent_commitment judge_intent
with_models lib env post out = record out {
  generator = generate_intent_commitment lib env post;
  judge = judge_intent lib env post;
}

-- If the HTTP client answers, refuses, fails or raises an exception that is no HTTPException, then
-- neither `generate_intent_commitment` nor `judge_intent` raises an HTTPException, whatever the
-- environment says, the model answers, and the key or the prompt lacks.
pub with_models-ModelsInternal :
    (lib : Libs) (env : Environment) (post : Post) (out : Outside)
    → ((url : String) (headers : Fields) (body : Json) → IsClient (post url headers body))
    → ModelsInternal (with_models lib env post out)
unfolding with_models
with_models-ModelsInternal lib env post out client = record {
  generates = generate-IsInternal lib env post client;
  judges = judge_intent-IsInternal lib env post client;
}
