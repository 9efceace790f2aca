-- ===== src/Delegation/Capabilities.antt =====
-- app/delegation/capabilities.py: sets of capability names.
pub mod Parse
use Prim.Native.String.{◌++◌}
use bu_iam.Prelude.{String, ◌≡◌, Bool, true, ◌&&◌, List, [], ◌∷◌, arith}
use bu_iam.Prelude.Sets.{
  sorted, contains, set_of, intersect, minus, contains-set_of, contains-intersect,
}
use bu_iam.Json.{texts, texts_items}
use bu_iam.Libs.{Libs}
use bu_iam.Prelude.Result.{ok, err}
use bu_iam.Protocol.Errors.{value_error, Read}
use bu_iam.World.{World, CapabilityRow}

-- app/store/capabilities.py: the names of the master list
unfoldable pub capability_names : List CapabilityRow → List String
capability_names [] = []
capability_names (r ∷ rs) = r.name ∷ capability_names rs

unfoldable pub known_capabilities : World → List String
unfolding capability_names
known_capabilities w = capability_names w.capabilities

unfoldable pub parse_or_raise : Libs → List String → List String → Read (List String)
unfolding sorted texts_items
parse_or_raise lib parsed [] = ok parsed
parse_or_raise lib parsed (u ∷ us) =
    err (value_error ("unknown capabilities: " ++ lib.repr (texts (sorted (u ∷ us)))))

unfoldable pub parse_capabilities : Libs → List String → List String → Read (List String)
unfolding set_of minus parse_or_raise
parse_capabilities lib raw known =
    let parsed = set_of raw in parse_or_raise lib parsed (minus parsed known)

unfoldable pub intersect_rest : List String → List (List String) → List String
unfolding intersect
intersect_rest result [] = result
intersect_rest result (s ∷ ss) = intersect_rest (intersect result s) ss

unfoldable pub intersect_capabilities : List (List String) → List String
unfolding set_of intersect_rest
intersect_capabilities [] = []
intersect_capabilities (s ∷ ss) = intersect_rest (set_of s) ss

-- Is `c` in every set of the list?
unfoldable pub in_all : String → List (List String) → Bool
unfolding contains
in_all c [] = true
in_all c (s ∷ ss) = contains c s && in_all c ss

contains-intersect_rest :
    (c : String) (result : List String) (sets : List (List String))
    → contains c (intersect_rest result sets) ≡ (contains c result && in_all c sets)
unfolding intersect_rest in_all
contains-intersect_rest c result [] = ground arith
contains-intersect_rest c result (s ∷ ss) =
    ground (arith, contains-intersect_rest c (intersect result s) ss, contains-intersect c result s)

-- A capability is in the intersection of one or more sets exactly if it is in each of them.
pub contains-intersect_capabilities :
    (c : String) (s : List String) (ss : List (List String))
    → contains c (intersect_capabilities (s ∷ ss)) ≡ in_all c (s ∷ ss)
unfolding intersect_capabilities in_all
contains-intersect_capabilities c s ss =
    ground (arith, contains-intersect_rest c (set_of s) ss, contains-set_of c s)
