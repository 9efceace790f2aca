-- ===== src/Intent/Crypto.antt =====
-- app/intent/crypto.py: the content of an intent node, its hash, its id and its signature.
pub mod RoundTrip
use Prim.Native.String.{◌++◌}
use bu_iam.Prelude.{String, Bool, false, not, Option, none, some, or_else, if◌then◌else◌}
use bu_iam.Prelude.Result.{ok, recover, ◌>>=◌}
use bu_iam.Json.{Json, text, obj, end, field, texts, texts_items, optional}
use bu_iam.Libs.{Libs}
use bu_iam.Protocol.{ActorType, actor_type_text, IntentCommitment, IntentNode}
use bu_iam.Protocol.Errors.{Read}
use bu_iam.World.{World}
use bu_iam.Identity.Did.{build_did, build_verification_method_id}
use bu_iam.Identity.Crypto.{sign_with_kid, verify_with_kid}
use bu_iam.Delegation.Credential.Check.{known_alg}

abbrev pub root_parent_id : String
root_parent_id = "ROOT"

-- intent_commitment.model_dump()
unfoldable pub commitment_json : IntentCommitment → Json
unfolding texts_items
commitment_json c = obj (
    field "intent" (text c.intent) (
      field "description" (text c.description)
        (field "data_refs" (texts c.data_refs) (field "constraints" (texts c.constraints) end))))

-- the method id of the actor's key
unfoldable pub actor_method : IntentNode → String
unfolding build_did build_verification_method_id
actor_method node = build_verification_method_id (build_did node.actor_id)

unfoldable pub intent_self_content : IntentNode → Json
unfolding commitment_json actor_method build_did
intent_self_content node = obj (
    field "protocol_version" (text "buiam.intent.v2") (
      field "parent_node_id" (optional node.parent_node_id) (
        field "actor_id" (text node.actor_id) (
          field "actor_did" (text (build_did node.actor_id)) (
            field "actor_type" (text (actor_type_text node.actor_type)) (
              field "target_agent_id" (text node.target_agent_id) (
                field "task_type" (text node.task_type) (
                  field "intent_commitment" (commitment_json node.intent_commitment)
                    (field "proof_verification_method" (text (actor_method node)) end)))))))))

module _ (lib : Libs) where
  -- canonical_json(intent_self_content(node))
  unfoldable pub intent_text : IntentNode → String
  unfolding intent_self_content
  intent_text node = lib.dumps (intent_self_content node)

  unfoldable pub intent_hash : IntentNode → String
  unfolding intent_text
  intent_hash node = lib.sha256_hex (intent_text node)

  unfoldable pub compute_node_id : IntentNode → String
  unfolding intent_text
  compute_node_id node =
      lib.sha256_hex (or_else node.parent_node_id root_parent_id ++ intent_text node)

  unfoldable pub verify_intent_node_signature : IntentNode → World → Bool
  unfolding known_alg intent_text actor_method verify_with_kid
  verify_intent_node_signature node w =
      if not (known_alg node.signature_alg)
      then false
      else recover
          (verify_with_kid lib node.signature_alg (intent_text node) node.signature
            (actor_method node) w)
          (λ _. false)

  -- The arguments of `build_signed_intent_node` are those of the unsigned node.
  unfoldable pub unsigned_intent_node :
      Option String → String → ActorType → String → String → IntentCommitment → IntentNode
  unsigned_intent_node parent actor_id actor_type target task_type commitment = record {
    node_id = "";
    parent_node_id = parent;
    actor_id = actor_id;
    actor_type = actor_type;
    target_agent_id = target;
    task_type = task_type;
    intent_commitment = commitment;
    signature = "";
    signature_alg = lib.signature_alg;
  }

  -- the two copies: with the signature, then with the id
  unfoldable pub signed_intent_node : IntentNode → String → IntentNode
  unfolding compute_node_id
  signed_intent_node unsigned sig =
      let signed : IntentNode = record unsigned { signature = sig } in
      record signed { node_id = compute_node_id signed }

  unfoldable pub sign_intent_node : IntentNode → World → Read IntentNode
  sign_intent_node unsigned w = do
    sig ← sign_with_kid lib unsigned.signature_alg (intent_text unsigned) (actor_method unsigned) w
    ok (signed_intent_node unsigned sig)

  unfoldable pub build_signed_intent_node :
      Option String
      → String
      → ActorType
      → String
      → String
      → IntentCommitment
      → World
      → Read IntentNode
  build_signed_intent_node parent actor_id actor_type target task_type commitment w =
      sign_intent_node (unsigned_intent_node parent actor_id actor_type target task_type commitment)
        w
