-- ===== src/Store/IntentTree.antt =====
-- app/store/intent_tree.py: the nodes that were validated. A row holds its node, which the code
-- splits over the columns and puts together again.
use bu_iam.Prelude.{
  String, ◌≡◌, refl, Option, none, some, List, [], ◌∷◌, arith, leb, ◌==◌, eq_iff, if◌then◌else◌,
}
use bu_iam.Libs.{Libs}
use bu_iam.Protocol.{IntentNode}
use bu_iam.World.{World, IntentRow}
use bu_iam.Intent.Crypto.{intent_hash}

-- INSERT OR REPLACE: the old row goes, the new one gets the last place.
unfoldable pub replace_node : IntentRow → List IntentRow → List IntentRow
replace_node r [] = r ∷ []
replace_node r (x ∷ xs) =
    let rest = replace_node r xs in if x.node.node_id == r.node.node_id then rest else x ∷ rest

-- The arguments of `upsert_intent_node` beside the node.
pub record Placed : Type 0 where
  pub trace_id : String
  pub request_id : String
  pub root_node_id : String
  pub judge_decision : Option String
  pub judge_reason : Option String

unfoldable pub intent_row : Libs → IntentNode → Placed → World → IntentRow
unfolding intent_hash
intent_row lib node p w = record {
  node = node;
  root_node_id = p.root_node_id;
  trace_id = p.trace_id;
  request_id = p.request_id;
  content_hash = intent_hash lib node;
  judge_decision = p.judge_decision;
  judge_reason = p.judge_reason;
  created_at = w.clock;
}

unfoldable pub upsert_intent_node : Libs → IntentNode → Placed → World → World
unfolding intent_row replace_node
upsert_intent_node lib node p w = record w {
  intent_tree = replace_node (intent_row lib node p w) w.intent_tree;
}

unfoldable pub find_node : String → List IntentRow → Option IntentRow
find_node i [] = none
find_node i (x ∷ xs) = if x.node.node_id == i then some x else find_node i xs

unfoldable pub get_intent_node : String → World → Option IntentRow
unfolding find_node
get_intent_node i w = find_node i w.intent_tree

-- ORDER BY created_at ASC, rowid ASC
unfoldable pub place_node : IntentRow → List IntentRow → List IntentRow
place_node r [] = r ∷ []
place_node r (x ∷ xs) = if leb r.created_at x.created_at then r ∷ x ∷ xs else x ∷ place_node r xs

unfoldable pub nodes_of : String → List IntentRow → List IntentRow
unfolding place_node
nodes_of t [] = []
nodes_of t (x ∷ xs) =
    let rest = nodes_of t xs in if x.trace_id == t then place_node x rest else rest

unfoldable pub list_intent_tree : String → World → List IntentRow
unfolding nodes_of
list_intent_tree t w = nodes_of t w.intent_tree

find-replace_node :
    (i : String) (r : IntentRow) (rows : List IntentRow)
    → find_node i (replace_node r rows) ≡ (if r.node.node_id == i then some r else find_node i rows)
unfolding find_node replace_node
find-replace_node i r [] = refl
find-replace_node i r (x ∷ xs) = ground (
  arith,
  find-replace_node i r xs,
  eq_iff x.node.node_id r.node.node_id,
  eq_iff r.node.node_id i,
  eq_iff x.node.node_id i,
)

-- A node that is recorded is read back under its id, and no other id's node changes.
pub get_intent_node-upsert :
    (lib : Libs) (i : String) (node : IntentNode) (p : Placed) (w : World)
    → get_intent_node i (upsert_intent_node lib node p w)
      ≡ (if node.node_id == i then some (intent_row lib node p w) else get_intent_node i w)
unfolding get_intent_node upsert_intent_node
get_intent_node-upsert lib i node p w = find-replace_node i (intent_row lib node p w) w.intent_tree
