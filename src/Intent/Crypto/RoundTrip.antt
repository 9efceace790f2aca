-- ===== src/Intent/Crypto/RoundTrip.antt =====
-- A node that `build_signed_intent_node` (app/intent/crypto.py) makes passes the node check of
-- app/intent/service.py.
use bu_iam.Prelude.{String, ◌≡◌, refl, true, Option, arith, eq_iff}
use bu_iam.Prelude.Result.{ok}
use bu_iam.Libs.{Libs}
use bu_iam.Protocol.{ActorType, IntentCommitment, IntentNode}
use bu_iam.World.{World}
use bu_iam.Identity.Crypto.{verify_with_kid}
use bu_iam.Identity.Crypto.RoundTrip.{HasRsaKey, sign_with_kid-rsa}
use bu_iam.Delegation.Credential.Check.{known_alg}
use bu_iam.Delegation.Credential.Integrity.{method_of}
use bu_iam.Intent.Crypto.{
  intent_self_content, intent_text, compute_node_id, actor_method, unsigned_intent_node,
  signed_intent_node, sign_intent_node, build_signed_intent_node, verify_intent_node_signature,
}
use bu_iam.Intent.Branch.{validate_node_hash_and_signature}

-- The signature and the id are not part of the content.
intent_text-signed :
    (lib : Libs) (u : IntentNode) (sig : String)
    → intent_text lib (signed_intent_node lib u sig) ≡ intent_text lib u
unfolding intent_text intent_self_content signed_intent_node actor_method
intent_text-signed lib u sig = refl

compute_node_id-signed :
    (lib : Libs) (u : IntentNode) (sig : String)
    → compute_node_id lib (signed_intent_node lib u sig) ≡ (signed_intent_node lib u sig).node_id
unfolding compute_node_id signed_intent_node intent_text intent_self_content actor_method
compute_node_id-signed lib u sig = refl

verify_intro :
    (lib : Libs) (n : IntentNode) (w : World)
    → known_alg n.signature_alg ≡ true
    → verify_with_kid lib n.signature_alg (intent_text lib n) n.signature (actor_method n) w
      ≡ ok true
    → verify_intent_node_signature lib n w ≡ true
unfolding verify_intent_node_signature
verify_intro lib n w alg accepted = ground (arith, alg, accepted)

signature-signed :
    (lib : Libs) (u : IntentNode) (sig : String) (w : World)
    → known_alg u.signature_alg ≡ true
    → verify_with_kid lib u.signature_alg (intent_text lib u) sig (actor_method u) w ≡ ok true
    → verify_intent_node_signature lib (signed_intent_node lib u sig) w ≡ true
unfolding signed_intent_node actor_method
signature-signed lib u sig w alg accepted =
    verify_intro lib (signed_intent_node lib u sig) w alg
      (rw (intent_text-signed lib u sig) accepted)

sign_intent_node-validate :
    (lib : Libs) (u : IntentNode) (w : World)
    → u.signature_alg ≡ "BUIAM-RS256"
    → HasRsaKey lib (actor_method u) w
    → (node : IntentNode) × (sign_intent_node lib u w ≡ ok node)
      × (validate_node_hash_and_signature lib node w ≡ ok tt)
unfolding sign_intent_node validate_node_hash_and_signature
sign_intent_node-validate lib u w rs256 key =
    let (sig, signed, accepted) =
      sign_with_kid-rsa lib (intent_text lib u) (actor_method u) u.signature_alg w rs256 key in
    let known : known_alg u.signature_alg ≡ true = rw rs256 (unfold known_alg in refl) in
    (
      signed_intent_node lib u sig,
      rw signed,
      rw (
        (eq_iff _ _).1 (compute_node_id-signed lib u sig),
        signature-signed lib u sig w known accepted,
      ),
    )

-- Under the RSA algorithm, where the actor's method id has its RSA key, `build_signed_intent_node`
-- returns a node that passes `validate_node_hash_and_signature`.
pub build_signed_intent_node-validate :
    (lib : Libs) (parent : Option String) (actor_id : String) (actor_type : ActorType)
    (target task_type : String) (commitment : IntentCommitment) (w : World)
    → lib.signature_alg ≡ "BUIAM-RS256"
    → HasRsaKey lib (method_of actor_id) w
    → (node : IntentNode) × (build_signed_intent_node lib parent actor_id actor_type target
          task_type commitment w
        ≡ ok node)
      × (validate_node_hash_and_signature lib node w ≡ ok tt)
unfolding build_signed_intent_node
build_signed_intent_node-validate lib parent actor_id actor_type target task_type commitment w rs256
      key =
    sign_intent_node-validate lib
      (unsigned_intent_node lib parent actor_id actor_type target task_type commitment) w
      (unfold unsigned_intent_node in rs256) (unfold unsigned_intent_node actor_method in key)
