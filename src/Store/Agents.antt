-- ===== src/Store/Agents.antt =====
-- app/store/registry.py: the registered agents.
pub mod Rows
use bu_iam.Prelude.{
  String, Bool, true, false, not, ◌&&◌, ◌||◌, Option, none, some, List, [], ◌∷◌, ◌==◌, is_text,
  if◌then◌else◌,
}
use bu_iam.Prelude.Sets.{set_of, intersect, sorted, text_le}
use bu_iam.Prelude.Exec.{pure, raise}
use bu_iam.Protocol.Errors.{other}
use bu_iam.World.{World, Agent, Action}

unfoldable pub find_agent : String → List Agent → Option Agent
find_agent i [] = none
find_agent i (a ∷ rest) = if a.agent_id == i then some a else find_agent i rest

unfoldable pub get_agent : String → World → Option Agent
unfolding find_agent
get_agent i w = find_agent i w.agents

unfoldable pub find_agent_by_name : String → List Agent → Option Agent
find_agent_by_name n [] = none
find_agent_by_name n (a ∷ rest) = if a.name == n then some a else find_agent_by_name n rest

unfoldable pub get_agent_by_name : String → World → Option Agent
unfolding find_agent_by_name
get_agent_by_name n w = find_agent_by_name n w.agents

-- ORDER BY agent_id ASC
unfoldable pub place_agent : Agent → List Agent → List Agent
unfolding text_le
place_agent a [] = a ∷ []
place_agent a (b ∷ rest) =
    if text_le a.agent_id b.agent_id then a ∷ b ∷ rest else b ∷ place_agent a rest

unfoldable pub sort_agents : List Agent → List Agent
unfolding place_agent
sort_agents [] = []
sort_agents (a ∷ rest) = place_agent a (sort_agents rest)

unfoldable pub list_agents : World → List Agent
unfolding sort_agents
list_agents w = sort_agents w.agents

-- ON CONFLICT(agent_id) DO UPDATE: the row keeps its place, `created_at` and `last_seen_at`.
unfoldable pub merge_agent : Agent → Agent → Agent
merge_agent new old = record new { created_at = old.created_at; last_seen_at = old.last_seen_at }

unfoldable pub upsert_agent_row : Agent → List Agent → List Agent
unfolding merge_agent
upsert_agent_row a [] = a ∷ []
upsert_agent_row a (b ∷ rest) =
    if b.agent_id == a.agent_id then merge_agent a b ∷ rest else b ∷ upsert_agent_row a rest

-- the UNIQUE constraint on `name`, which another agent's row may break
unfoldable pub name_taken : String → String → List Agent → Bool
name_taken i n [] = false
name_taken i n (a ∷ rest) = (a.name == n && not (a.agent_id == i)) || name_taken i n rest

-- {domain for domain in domains if domain}
unfoldable pub drop_empty : List String → List String
drop_empty [] = []
drop_empty (d ∷ ds) = let rest = drop_empty ds in if d == "" then rest else d ∷ rest

-- the row that `upsert_agent` writes; `today` is the day of the clock
unfoldable pub clean_agent : Agent → World → Agent
unfolding drop_empty set_of sorted
clean_agent a w = record a {
  allowed_resource_domains = sorted (set_of (drop_empty a.allowed_resource_domains));
  static_capabilities = sorted (set_of a.static_capabilities);
  created_at = w.clock;
  updated_at = w.clock;
  last_seen_at = none;
}

unfoldable pub upsert_agent : Agent → Action Agent
unfolding clean_agent name_taken upsert_agent_row
upsert_agent a w =
    if name_taken a.agent_id a.name w.agents
    then raise (other "sqlite3.IntegrityError") w
    else pure (clean_agent a w) (record w { agents = upsert_agent_row (clean_agent a w) w.agents })

-- the truth of a list
abbrev pub non_empty : List String → Bool
non_empty [] = false
non_empty (x ∷ xs) = true

-- `exclude is not None and agent_id == exclude`
unfoldable pub suggestible : List String → Option String → Agent → Bool
unfolding intersect
suggestible required exclude a =
    a.status == "active"
    && (not (is_text exclude a.agent_id) && non_empty (intersect a.static_capabilities required))

-- the ids of the agents that it returns
unfoldable pub suggest : List String → Option String → List Agent → List String
unfolding suggestible
suggest required exclude [] = []
suggest required exclude (a ∷ rest) =
    let others = suggest required exclude rest in
    if suggestible required exclude a then a.agent_id ∷ others else others

unfoldable pub find_agents_with_capabilities : List String → Option String → World → List String
unfolding suggest list_agents
find_agents_with_capabilities [] exclude w = []
find_agents_with_capabilities (c ∷ cs) exclude w = suggest (c ∷ cs) exclude (list_agents w)
