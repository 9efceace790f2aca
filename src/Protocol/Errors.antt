-- ===== src/Protocol/Errors.antt =====
-- The exceptions of the program: `CredentialValidationError` (app/delegation/service.py),
-- `IntentValidationError` (app/intent/service.py), `TokenError`, `DidResolutionError`,
-- `IntentJudgeError`, `IntentGenerationError`, FastAPI's `HTTPException`, and Python's own.
pub mod Internal
use bu_iam.Prelude.{ℕ, String, Option, none, some}
use bu_iam.Prelude.Result.{Result}
use bu_iam.Json.{Fields, end, field, text}
use bu_iam.Protocol.{IntentNode}

pub record IntentValidationError : Type 0 where
  pub error_code : String
  pub message : String
  pub node : Option IntentNode
  pub root_intent : Option String
  pub parent_intent : Option String
  pub child_intent : Option String
  pub judge_decision : Option String
  pub judge_reason : Option String

-- `other` stands for every exception of Python and its libraries, by its text; `recursion` is
-- the `RecursionError` of a call that nests too deep. An `HTTPException` has a status and its
-- detail: a code and a message, or a dict with other keys.
pub data Exception : Type 0 where
  credential_error : String → String → Exception
  intent_error : IntentValidationError → Exception
  token_error : String → String → Exception
  did_error : String → Exception
  judge_error : String → Exception
  generation_error : String → Exception
  value_error : String → Exception
  http_exception : ℕ → String → String → Exception
  http_detail : ℕ → Fields → Exception
  recursion : Exception
  other : String → Exception

-- `IntentValidationError(code, message)`
abbrev pub intent_fault : String → String → Exception
intent_fault code message = Exception.intent_error (record {
  error_code = code;
  message = message;
  node = none;
  root_intent = none;
  parent_intent = none;
  child_intent = none;
  judge_decision = none;
  judge_reason = none;
})

-- `except HTTPException`: the detail, of such an exception
abbrev pub detail_of : Exception → Option Fields
detail_of (http_exception status error_code message) =
    some (field "error_code" (text error_code) (field "message" (text message) end))
detail_of (http_detail status detail) = some detail
detail_of _ = none

-- What a part that only reads returns.
abbrev pub Read : Type 0 → Type 0
Read = Result Exception
