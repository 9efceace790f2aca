-- ===== src/Intent/Branch.antt =====
-- app/intent/service.py: the checks of one node, and the walk from a node up to its root intent.
-- The walk is a loop that keeps the ids it has seen; `none` stands for a loop that runs on.
pub mod Walk
pub mod Ancestry
use bu_iam.Prelude.{
  ℕ, zero, suc, String, Bool, true, false, ◌&&◌, Option, none, some, List, [], ◌∷◌, ◌==◌, length,
  or_else, if◌then◌else◌,
}
use bu_iam.Prelude.Sets.{contains}
use bu_iam.Prelude.Result.{Result, ok, err, guard, or_raise, ◌>>=◌, ◌>>◌}
use bu_iam.Libs.{Libs}
use bu_iam.Protocol.{ActorType, user, agent, AuthContext, IntentNode}
use bu_iam.Protocol.Errors.{Exception, intent_fault, Read}
use bu_iam.World.{World, IntentRow}
use bu_iam.Store.IntentTree.{get_intent_node}
use bu_iam.Intent.Crypto.{intent_hash, compute_node_id, verify_intent_node_signature}

abbrev pub chain_invalid : String → Exception
chain_invalid message = intent_fault "INTENT_CHAIN_INVALID" message

unfoldable pub validate_node_hash_and_signature : Libs → IntentNode → World → Read (Unit {0})
unfolding compute_node_id verify_intent_node_signature
validate_node_hash_and_signature lib node w = do
  guard (compute_node_id lib node == node.node_id)
      (chain_invalid "intent node_id does not match node content")
  guard (verify_intent_node_signature lib node w)
      (intent_fault "INTENT_SIGNATURE_INVALID" "intent node signature is invalid")

abbrev pub is_user : ActorType → Bool
is_user user = true
is_user agent = false

abbrev pub is_agent : ActorType → Bool
is_agent user = false
is_agent agent = true

unfoldable pub validate_actor : IntentNode → AuthContext → Read (Unit {0})
validate_actor node a = elim node.parent_node_id [
  | none ↦
      guard (is_user node.actor_type && node.actor_id == or_else a.delegated_user a.agent_id)
        (intent_fault "INTENT_ACTOR_MISMATCH" "root intent must be signed by delegated user")
  | some pid ↦
      guard (is_agent node.actor_type && node.actor_id == a.agent_id)
        (intent_fault "INTENT_ACTOR_MISMATCH" "child intent must be signed by caller agent")
]

-- not (trace_id is not None and row["trace_id"] != trace_id)
abbrev pub same_trace : Option String → IntentRow → Bool
same_trace none row = true
same_trace (some t) row = row.trace_id == t

-- the parent of the node that is validated
unfoldable pub parent_row : Libs → Option String → String → World → Read IntentNode
unfolding intent_hash
parent_row lib trace pid w = do
  row ←
      or_raise (get_intent_node pid w)
        (intent_fault "INTENT_PARENT_NOT_FOUND" "parent intent node does not exist")
  guard (same_trace trace row) (chain_invalid "parent intent belongs to a different trace")
  validate_node_hash_and_signature lib row.node w
  guard (row.content_hash == intent_hash lib row.node)
      (chain_invalid "parent intent content hash mismatch")
  ok row.node

-- the next node of the loop
unfoldable pub ancestor_row : Libs → Option String → String → World → Read IntentNode
ancestor_row lib trace pid w = do
  row ← or_raise (get_intent_node pid w) (chain_invalid "intent branch is missing an ancestor")
  guard (same_trace trace row) (chain_invalid "intent ancestor belongs to a different trace")
  validate_node_hash_and_signature lib row.node w
  ok row.node

unfoldable pub climb :
    Libs → ℕ → Option String → List String → IntentNode → World → Option (Read IntentNode)
unfolding contains
climb lib zero trace visited current w = none
climb lib (suc fuel) trace visited current w = elim current.parent_node_id [
  | none ↦ some (ok current)
  | some pid ↦ elim (contains current.node_id visited) [
    | true ↦ some (err (chain_invalid "intent branch contains a cycle"))
    | false ↦ elim (ancestor_row lib trace pid w) [
      | err e ↦ some (err e)
      | ok next ↦ climb lib fuel trace (current.node_id ∷ visited) next w
    ]
  ]
]

-- one more than the rows that the loop may see
unfoldable pub climb_fuel : World → ℕ
climb_fuel w = suc (length w.intent_tree)

unfoldable pub with_parent :
    IntentNode → Option (Read IntentNode) → Option (Read (IntentNode × IntentNode))
with_parent parent none = none
with_parent parent (some (err e)) = some (err e)
with_parent parent (some (ok root)) = some (ok (root, parent))

unfoldable pub branch_from :
    Libs
    → Option String
    → IntentNode
    → Read IntentNode
    → World
    → Option (Read (IntentNode × IntentNode))
unfolding with_parent climb_fuel
branch_from lib trace node (err e) w = some (err e)
branch_from lib trace node (ok parent) w =
    with_parent parent (climb lib (climb_fuel w) trace (node.node_id ∷ []) parent w)

-- The root and the parent of a node.
unfoldable pub validate_branch :
    Libs → Option String → IntentNode → World → Option (Read (IntentNode × IntentNode))
validate_branch lib trace node w = elim node.parent_node_id [
  | none ↦ some (ok (node, node))
  | some pid ↦ branch_from lib trace node (parent_row lib trace pid w) w
]
