-- ===== src/Store/Policies.antt =====
-- app/store/capability_policies.py and app/store/capabilities.py: the policies and the master list.
use bu_iam.Prelude.{
  String, Bool, true, false, not, ◌&&◌, ◌||◌, Option, none, some, List, [], ◌∷◌, ◌++◌, ◌==◌,
  if◌then◌else◌,
}
use bu_iam.Prelude.Sets.{sorted}
use bu_iam.World.{World, CapabilityRow, PolicyRow}

-- the primary key
abbrev pub is_policy : String → String → PolicyRow → Bool
is_policy subject_type agent_type r = r.subject_type == subject_type && r.agent_type == agent_type

unfoldable pub find_policy : String → String → List PolicyRow → Option PolicyRow
find_policy s a [] = none
find_policy s a (r ∷ rs) = if is_policy s a r then some r else find_policy s a rs

abbrev pub or_wildcard : Option PolicyRow → String → Option PolicyRow → Option PolicyRow
or_wildcard (some r) agent_type fallback = some r
or_wildcard none agent_type fallback = if not (agent_type == "*") then fallback else none

-- With the fallback to the agent type '*'.
unfoldable pub get_policy : String → String → World → Option PolicyRow
unfolding find_policy
get_policy s a w = or_wildcard (find_policy s a w.policies) a (find_policy s "*" w.policies)

-- ON CONFLICT(subject_type, agent_type) DO UPDATE
unfoldable pub upsert_policy_row : PolicyRow → List PolicyRow → List PolicyRow
upsert_policy_row p [] = p ∷ []
upsert_policy_row p (r ∷ rs) =
    if is_policy p.subject_type p.agent_type r then p ∷ rs else r ∷ upsert_policy_row p rs

unfoldable pub upsert_policy : String → String → List String → World → World
unfolding sorted upsert_policy_row
upsert_policy s a allowed w = record w {
  policies =
      upsert_policy_row
        (record { subject_type = s; agent_type = a; allowed_capabilities = sorted allowed })
        w.policies;
}

unfoldable pub drop_policy : String → String → List PolicyRow → List PolicyRow
drop_policy s a [] = []
drop_policy s a (r ∷ rs) =
    let rest = drop_policy s a rs in if is_policy s a r then rest else r ∷ rest

unfoldable pub any_policy : String → String → List PolicyRow → Bool
any_policy s a [] = false
any_policy s a (r ∷ rs) = is_policy s a r || any_policy s a rs

-- with whether a row was deleted
unfoldable pub delete_policy : String → String → World → Bool × World
unfolding drop_policy any_policy
delete_policy s a w =
    (any_policy s a w.policies, record w { policies = drop_policy s a w.policies })

unfoldable pub has_capability : String → List CapabilityRow → Bool
has_capability name [] = false
has_capability name (r ∷ rs) = r.name == name || has_capability name rs

-- The name is the primary key: a second insert fails and changes nothing.
unfoldable pub add_capability : String → String → World → Bool × World
unfolding has_capability
add_capability name description w = if has_capability name w.capabilities then (false, w) else (
  true,
  record w {
    capabilities = w.capabilities ++ record { name = name; description = description } ∷ [];
  },
)

unfoldable pub drop_capability : String → List CapabilityRow → List CapabilityRow
drop_capability name [] = []
drop_capability name (r ∷ rs) =
    let rest = drop_capability name rs in if r.name == name then rest else r ∷ rest

unfoldable pub remove_capability : String → World → Bool × World
unfolding has_capability drop_capability
remove_capability name w = (
  has_capability name w.capabilities,
  record w { capabilities = drop_capability name w.capabilities },
)
