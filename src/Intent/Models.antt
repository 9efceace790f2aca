-- ===== src/Intent/Models.antt =====
-- The calls of language models of app/intent/generator.py and app/intent/judge.py. The two files
-- have a copy of each call; they differ in what `Caller` has. The HTTP client is a parameter.
pub mod Internal
use Prim.Native.Char.{Char, code}
use Prim.Native.String.{◌++◌}
use bu_iam.Prelude.{
  ℕ, zero, suc, String, Bool, true, false, Option, none, some, List, [], ◌∷◌, ◌==◌, same_code,
  or_else, if◌then◌else◌,
}
use bu_iam.Prelude.Text.{strip}
use bu_iam.Prelude.Result.{Result, ok, err, or_raise, guard, ◌>>=◌, ◌>>◌}
use bu_iam.Json.{Json, null, num, text, arr, obj, Items, nil, cons, Fields, end, field, get, truth}
use bu_iam.Protocol.Errors.{Exception, other, Read}

-- os.getenv, with the defaults of the code; the prompts are files, `none` where they cannot be read
pub record Environment : Type 0 where
  pub generator_provider : String
  pub judge_provider : String
  pub openai_api_key : Option String
  pub openai_base_url : String
  pub openai_model : String
  pub openai_response_format : String
  pub anthropic_api_key : Option String
  pub anthropic_base_url : String
  pub anthropic_model : String
  pub generator_prompt : Option String
  pub judge_prompt : Option String

-- What `client.post`, `raise_for_status` and `response.json()` come to: a value, the text of an
-- `HTTPStatusError` and the body, the text of another `HTTPError`, or another exception.
pub data Reply : Type 0 where
  answered : Json → Reply
  refused : String → String → Reply
  failed : String → Reply
  broken : Exception → Reply

-- the address, the headers and the body
abbrev pub Post : Type 0
Post = String → Fields → Json → Reply

-- The exception of a file, the name of its task, the `max_tokens` of its Anthropic call, and what
-- it makes of an `HTTPError`: the judge lets it pass.
pub record Caller : Type 0 where
  pub fault : String → Exception
  pub task : String
  pub max_tokens : ℕ
  pub unreachable : String → String → Exception

-- text[:n]
unfoldable pub take_text : ℕ → String → String
take_text zero s = ""
take_text (suc n) String.[] = ""
take_text (suc n) (String.◌∷◌ c s) = String.◌∷◌ c (take_text n s)

-- text.rstrip("/")
abbrev pub push_path : Bool → Char → String → String
push_path false c s = String.◌∷◌ c s
push_path true c String.[] = ""
push_path true c (String.◌∷◌ d s) = String.◌∷◌ c (String.◌∷◌ d s)

unfoldable pub rstrip_slash : String → String
rstrip_slash String.[] = ""
rstrip_slash (String.◌∷◌ c s) = push_path (same_code (code c) b'/') c (rstrip_slash s)

abbrev pub failed_text : String → Caller → String
failed_text provider caller = provider ++ (" " ++ (caller.task ++ " request failed: "))

-- the value of a reply, and the `except` clauses
unfoldable pub value_of : Caller → String → Reply → Read Json
unfolding take_text
value_of caller provider (answered v) = ok v
value_of caller provider (refused message body) =
    err (
      caller.fault (failed_text provider caller ++ (message ++ ("; body=" ++ take_text 1000 body))))
value_of caller provider (failed message) =
    err (caller.unreachable (failed_text provider caller) message)
value_of caller provider (broken x) = err x

-- value[key], on a dict
unfoldable pub item : String → Json → Read Json
unfolding get
item key (obj fs) = or_raise (get key fs) (other "KeyError")
item key v = err (other "TypeError")

-- value[0]; a dict of `json.loads` has no key 0
unfoldable pub first_item : Json → Read Json
first_item (arr nil) = err (other "IndexError")
first_item (arr (cons v vs)) = ok v
first_item (text String.[]) = err (other "IndexError")
first_item (text (String.◌∷◌ c s)) = ok (text (String.◌∷◌ c String.[]))
first_item (obj fs) = err (other "KeyError")
first_item v = err (other "TypeError")

abbrev pub message_json : String → String → Json
message_json role content = obj (field "role" (text role) (field "content" (text content) end))

abbrev pub openai_body : Environment → String → String → String → Json
unfolding strip
openai_body env system_prompt user_payload model = obj (
    field "model" (text model) (
      field "messages"
        (arr (
          cons (message_json "system" system_prompt) (cons (message_json "user" user_payload) nil)))
        (if strip env.openai_response_format == ""
          then end
          else field "response_format"
              (obj (field "type" (text (strip env.openai_response_format)) end)) end)))

-- the key is set and not empty
unfoldable pub need_key : Caller → String → Option String → Read String
need_key caller name none = err (caller.fault (name ++ " is not configured"))
need_key caller name (some key) =
    if key == "" then err (caller.fault (name ++ " is not configured")) else ok key

unfoldable pub openai_text : Json → Read Json
unfolding item first_item
openai_text v = do
  choices ← item "choices" v
  choice ← first_item choices
  message ← item "message" choice
  item "content" message

unfoldable pub call_openai : Caller → Environment → Post → String → String → String → Read Json
unfolding need_key rstrip_slash value_of openai_text
call_openai caller env post system_prompt user_payload model = do
  key ← need_key caller "OPENAI_API_KEY" env.openai_api_key
  v ← value_of caller "OpenAI-compatible" (
      post (rstrip_slash env.openai_base_url ++ "/chat/completions")
        (field "Authorization" (text ("Bearer " ++ key)) end)
        (openai_body env system_prompt user_payload model))
  openai_text v

-- the text of a block before those of the rest, which `join` reads first
unfoldable pub join_block : Option Json → Read String → Read String
join_block none rest = rest
join_block (some (text t)) rest = do r ← rest; ok (t ++ r)
join_block (some v) rest = do r ← rest; err (other "TypeError")

-- "".join(block.get("text", "") for block in content)
unfoldable pub join_blocks : Items → Read String
unfolding get join_block
join_blocks nil = ok ""
join_blocks (cons (obj block) blocks) = join_block (get "text" block) (join_blocks blocks)
join_blocks (cons v blocks) = err (other "AttributeError")

unfoldable pub joined : Json → Read Json
unfolding join_blocks
joined (arr blocks) = do t ← join_blocks blocks; ok (text t)
joined (text String.[]) = ok (text "")
joined (text (String.◌∷◌ c s)) = err (other "AttributeError")
joined (obj end) = ok (text "")
joined (obj (field k v fs)) = err (other "AttributeError")
joined v = err (other "TypeError")

abbrev pub anthropic_body : Caller → String → String → String → Json
anthropic_body caller system_prompt user_payload model = obj (
    field "model" (text model) (
      field "max_tokens" (num caller.max_tokens) (
        field "system" (text system_prompt)
          (field "messages" (arr (cons (message_json "user" user_payload) nil)) end))))

unfoldable pub call_anthropic : Caller → Environment → Post → String → String → String → Read Json
unfolding need_key rstrip_slash value_of item joined
call_anthropic caller env post system_prompt user_payload model = do
  key ← need_key caller "ANTHROPIC_API_KEY" env.anthropic_api_key
  v ← value_of caller "Anthropic" (
      post (rstrip_slash env.anthropic_base_url ++ "/messages")
        (field "x-api-key" (text key) (field "anthropic-version" (text "2023-06-01") end))
        (anthropic_body caller system_prompt user_payload model))
  content ← item "content" v
  joined content
