-- ===== src/Intent/Answer.antt =====
-- app/intent/generator.py and app/intent/judge.py: `extract_json_object`, which both have, and the
-- value that an answer of a language model holds.
use bu_iam.Prelude.{
  ℕ, String, Bool, false, ◌||◌, ◌&&◌, Option, none, some, List, [], ◌∷◌, same_code, if◌then◌else◌,
}
use bu_iam.Prelude.Text.{starts_with, after_prefix, lstrip, strip}
use Prim.Native.Char.{code}
use bu_iam.Prelude.Result.{ok, err, or_raise, ◌>>=◌}
use bu_iam.Json.{Json, text, obj, Fields}
use bu_iam.Libs.{Libs}
use bu_iam.Protocol.Errors.{Exception, other, Read}

-- text[text.find(c):], where the character occurs
unfoldable pub from_first : ℕ → String → Option String
from_first c String.[] = none
from_first c (String.◌∷◌ d s) =
    let rest = from_first c s in if same_code (code d) c then some (String.◌∷◌ d s) else rest

-- text[: text.rfind(c) + 1], where the character occurs
unfoldable pub to_last : ℕ → String → Option String
to_last c String.[] = none
to_last c (String.◌∷◌ d s) = elim (to_last c s) [
  | some t ↦ some (String.◌∷◌ d t)
  | none ↦ if same_code (code d) c then some (String.◌∷◌ d String.[]) else none
]

-- .*?\}\s*``` : up to the first brace that a fence follows
unfoldable pub to_fence : String → Option String
unfolding starts_with lstrip
to_fence String.[] = none
to_fence (String.◌∷◌ d s) =
    let rest = to_fence s in
    if same_code (code d) b'}' && starts_with "```" (lstrip s)
    then some (String.◌∷◌ d String.[])
    else elim rest [ none ↦ none | some t ↦ some (String.◌∷◌ d t) ]

-- (\{.*?\})\s*```
unfoldable pub fenced_object : String → Option String
unfolding to_fence
fenced_object String.[] = none
fenced_object (String.◌∷◌ d s) =
    if same_code (code d) b'{'
    then elim (to_fence s) [ none ↦ none | some t ↦ some (String.◌∷◌ d t) ]
    else none

-- the letters of `json` in either case; the long s is one too
abbrev pub json_letters : List (List ℕ)
json_letters =
    (b'j' ∷ b'J' ∷ []) ∷ (b's' ∷ b'S' ∷ 383 ∷ []) ∷ (b'o' ∷ b'O' ∷ []) ∷ (b'n' ∷ b'N' ∷ []) ∷ []

unfoldable pub is_one_of : ℕ → List ℕ → Bool
is_one_of c [] = false
is_one_of c (d ∷ ds) = same_code c d || is_one_of c ds

unfoldable pub after_letters : List (List ℕ) → String → Option String
unfolding is_one_of
after_letters [] s = some s
after_letters (l ∷ ls) String.[] = none
after_letters (l ∷ ls) (String.◌∷◌ d s) =
    let rest = after_letters ls s in if is_one_of (code d) l then rest else none

-- (?:json)? : no object begins with the letter j, so there is no second way to match
unfoldable pub skip_json : String → String
unfolding after_letters
skip_json s = elim (after_letters json_letters s) [ none ↦ s | some rest ↦ rest ]

-- the expression at the beginning of a text, and `re.search`
unfoldable pub fenced_at : String → Option String
unfolding after_prefix skip_json lstrip fenced_object
fenced_at s = elim (after_prefix "```" s) [
  | none ↦ none
  | some rest ↦ fenced_object (lstrip (skip_json rest))
]

unfoldable pub fenced : String → Option String
unfolding fenced_at
fenced String.[] = none
fenced (String.◌∷◌ d s) =
    let rest = fenced s in elim (fenced_at (String.◌∷◌ d s)) [ some t ↦ some t | none ↦ rest ]

-- from the first brace to the last one, if they stand in this order
unfoldable pub braced : String → Option String
unfolding from_first to_last
braced s = elim (from_first b'{' s) [ none ↦ none | some t ↦ to_last b'}' t ]

unfoldable pub extract_json_object : String → String
unfolding strip fenced braced
extract_json_object raw =
    let t = strip raw in
    elim (fenced t) [
      | some found ↦ found
      | none ↦ elim (braced t) [ some found ↦ found | none ↦ t ]
    ]

-- raw.strip(), of what may be no text
unfoldable pub raw_text : Json → Read String
raw_text (text t) = ok t
raw_text v = err (other "AttributeError")

unfoldable pub as_fields : Json → Read Fields
as_fields (obj fs) = ok fs
as_fields v = err (other "AttributeError")

-- `json.loads(extract_json_object(raw))`, with the exception for an answer that is no JSON; the
-- value is used as a dict.
unfoldable pub answer_fields : Libs → Exception → Json → Read Fields
unfolding raw_text extract_json_object as_fields
answer_fields lib no_json raw = do
  t ← raw_text raw
  v ← or_raise (lib.loads (extract_json_object t)) no_json
  as_fields v
