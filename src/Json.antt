-- ===== src/Json.antt =====
-- JSON values as `json.loads` returns them, the `dict.get` of the code, and the truth of a value.
use bu_iam.Prelude.{
  ℕ, zero, suc, String, Bool, true, false, Option, none, some, List, [], ◌∷◌, ◌==◌, if◌then◌else◌,
}

-- `neg n` is the integer -(n + 1), `real` a number with a fraction, by its text.
mutual
  pub data Json : Type 0 where
    null : Json
    bool : Bool → Json
    num : ℕ → Json
    neg : ℕ → Json
    real : String → Json
    text : String → Json
    arr : Items → Json
    obj : Fields → Json

  pub data Items : Type 0 where
    nil : Items
    cons : Json → Items → Items

  pub data Fields : Type 0 where
    end : Fields
    field : String → Json → Fields → Fields

-- `d.get(key)`: `none` on a missing key. A later duplicate does not occur in a Python dict.
unfoldable pub get : String → Fields → Option Json
get k end = none
get k (field j v fs) = if j == k then some v else get k fs

-- `{k: v for k, v in d.items() if k != key}`
unfoldable pub without : String → Fields → Fields
without k end = end
without k (field j v fs) = let rest = without k fs in if j == k then rest else field j v rest

-- Python's truth of a value; `real` texts of the value 0 do not reach the code's tests.
unfoldable pub truth : Json → Bool
truth null = false
truth (bool b) = b
truth (num zero) = false
truth (num (suc n)) = true
truth (neg n) = true
truth (real t) = true
truth (text t) = if t == "" then false else true
truth (arr nil) = false
truth (arr (cons x xs)) = true
truth (obj end) = false
truth (obj (field k v fs)) = true

unfoldable pub get_truth : String → Fields → Bool
unfolding get truth
get_truth k fs = elim (get k fs) [ none ↦ false | some v ↦ truth v ]

-- `[…]` of texts
unfoldable pub texts_items : List String → Items
texts_items [] = nil
texts_items (x ∷ xs) = cons (text x) (texts_items xs)

abbrev pub texts : List String → Json
unfolding texts_items
texts xs = arr (texts_items xs)

-- a text, or `null` for `None`
abbrev pub optional : Option String → Json
optional none = null
optional (some t) = text t

-- `{**d, key: value}`: the value takes the place of the key, or the end
unfoldable pub put : String → Json → Fields → Fields
put k v end = field k v end
put k v (field j u fs) = let rest = put k v fs in if j == k then field j v fs else field j u rest
