-- ===== src/Prelude/Text.antt =====
-- Texts taken apart at a character: Python's `str.partition` and `in`.
use Prim.Native.Nat.{ℕ}
use Prim.Native.Char.{Char, code}
use Prim.Native.String.{String, ◌++◌}
use mathlib.Core.Path.{◌≡◌}
use mathlib.Core.Option.{Option, none, some}
use mathlib.Core.Bool.{Bool, true, false, ◌&&◌, ◌||◌}
use native.Mathlib.Omega.{arith}
use text.Mathlib.TextLemmas.{nil-append, cons-append}
use bu_iam.Prelude.Tests.{leb, if◌then◌else◌, same_code}

pub record Parts : Type 0 where
  pub before : String
  pub found : Bool
  pub after : String

-- `s.partition(c)`, with whether the character occurs
unfoldable pub partition : ℕ → String → Parts
partition c String.[] = record { before = ""; found = false; after = "" }
partition c (String.◌∷◌ d s) =
    let rest = partition c s in
    if same_code (code d) c
    then record { before = ""; found = true; after = s }
    else record rest { before = String.◌∷◌ d rest.before }

-- A text without the character, followed by it, is cut there.
pub partition-append :
    (c : ℕ) (s t : String)
    → (partition c s).found ≡ false
    → (partition c t).found ≡ true
    → (partition c t).before ≡ ""
    → partition c (s ++ t) ≡ record { before = s; found = true; after = (partition c t).after }
unfolding partition
partition-append c String.[] t h f b = rw (nil-append t) (ground arith)
partition-append c (String.◌∷◌ d s) t h f b =
    rw (cons-append d s t) (ground (arith, partition-append c s t))

-- s.startswith(prefix)
unfoldable pub starts_with : String → String → Bool
starts_with String.[] s = true
starts_with (String.◌∷◌ c p) String.[] = false
starts_with (String.◌∷◌ c p) (String.◌∷◌ d s) = same_code (code c) (code d) && starts_with p s

-- `part in s`
unfoldable pub has_text : String → String → Bool
unfolding starts_with
has_text part String.[] = starts_with part String.[]
has_text part (String.◌∷◌ d s) = starts_with part (String.◌∷◌ d s) || has_text part s

-- what follows a prefix
unfoldable pub after_prefix : String → String → Option String
after_prefix String.[] s = some s
after_prefix (String.◌∷◌ c p) String.[] = none
after_prefix (String.◌∷◌ c p) (String.◌∷◌ d s) =
    let rest = after_prefix p s in if same_code (code c) (code d) then rest else none

-- str.isspace, of one character
unfoldable pub is_space : ℕ → Bool
is_space c =
    (leb 9 c && leb c 13)
    || (leb 28 c && leb c 32)
    || same_code c 133
    || same_code c 160
    || same_code c 5760
    || (leb 8192 c && leb c 8202)
    || same_code c 8232
    || same_code c 8233
    || same_code c 8239
    || same_code c 8287
    || same_code c 12288

-- s.lstrip(), s.rstrip() and s.strip()
unfoldable pub lstrip : String → String
unfolding is_space
lstrip String.[] = ""
lstrip (String.◌∷◌ c s) = let rest = lstrip s in if is_space (code c) then rest else String.◌∷◌ c s

abbrev push_stripped : Bool → Char → String → String
push_stripped false c s = String.◌∷◌ c s
push_stripped true c String.[] = ""
push_stripped true c (String.◌∷◌ d s) = String.◌∷◌ c (String.◌∷◌ d s)

unfoldable pub rstrip : String → String
unfolding is_space
rstrip String.[] = ""
rstrip (String.◌∷◌ c s) = push_stripped (is_space (code c)) c (rstrip s)

unfoldable pub strip : String → String
unfolding lstrip rstrip
strip s = rstrip (lstrip s)
