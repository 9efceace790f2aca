-- ===== src/Intent/Service/Internal.antt =====
-- `build_signed_intent_node` (app/intent/crypto.py) and `validate_and_record_intent_node`
-- (app/intent/service.py) raise no `HTTPException`, if the judge raises none.
use bu_iam.Prelude.{ℕ, zero, suc, String, List, ◌∷◌, Bool, refl, true, false, Option, none, some}
use bu_iam.Prelude.Result.{ok, err}
use bu_iam.Prelude.Sets.{contains}
use bu_iam.Libs.{Libs}
use bu_iam.Protocol.{ActorType, AuthContext, IntentCommitment, IntentNode}
use bu_iam.Protocol.Errors.{judge_error, Read}
use bu_iam.Protocol.Errors.Internal.{IsInternal, returns, raises, internal, elim-IsInternal}
use bu_iam.World.{World}
use bu_iam.Identity.Crypto.Internal.{sign_with_kid-IsInternal}
use bu_iam.Intent.Crypto.{build_signed_intent_node, sign_intent_node}
use bu_iam.Intent.Branch.{
  validate_node_hash_and_signature, validate_actor, parent_row, ancestor_row, climb, with_parent,
  branch_from, validate_branch,
}
use bu_iam.Intent.Service.{
  JudgeRequest, IntentJudgeResult, IntentValidationResult, Judge, Placing, placing, record_judged,
  Submission, check_node, record_branch, record_checked, validate_and_record_intent_node,
}

pub build_signed-IsInternal :
    (lib : Libs) (parent : Option String) (id : String) (actor : ActorType) (target kind : String)
    (commitment : IntentCommitment) (w : World)
    → IsInternal (build_signed_intent_node lib parent id actor target kind commitment w)
unfolding build_signed_intent_node sign_intent_node
build_signed-IsInternal lib parent id actor target kind commitment w =
    search (internal, sign_with_kid-IsInternal)

hash-IsInternal :
    (lib : Libs) (node : IntentNode) (w : World)
    → IsInternal (validate_node_hash_and_signature lib node w)
unfolding validate_node_hash_and_signature
hash-IsInternal lib node w = search internal

actor-IsInternal : (node : IntentNode) (a : AuthContext) → IsInternal (validate_actor node a)
unfolding validate_actor
actor-IsInternal node a =
    elim-IsInternal node.parent_node_id _ _ (search internal) (λ pid. search internal)

node-IsInternal : (lib : Libs) (s : Submission) (w : World) → IsInternal (check_node lib s w)
unfolding check_node
node-IsInternal lib s w = search (internal, hash-IsInternal, actor-IsInternal)

parent_row-IsInternal :
    (lib : Libs) (trace : Option String) (pid : String) (w : World)
    → IsInternal (parent_row lib trace pid w)
unfolding parent_row
parent_row-IsInternal lib trace pid w = search (internal, hash-IsInternal) depth 14

ancestor_row-IsInternal :
    (lib : Libs) (trace : Option String) (pid : String) (w : World)
    → IsInternal (ancestor_row lib trace pid w)
unfolding ancestor_row
ancestor_row-IsInternal lib trace pid w = search (internal, hash-IsInternal) depth 14

-- a walk that, if it ends, returns or raises an inner exception
pub data EndsInternal {A : Type 0} : Option (Read A) → Type 0 where
  endless : EndsInternal none
  ends : {r : Read A} → IsInternal r → EndsInternal (some r)

bool-EndsInternal :
    {A : Type 0} (test : Bool) (m n : Option (Read A))
    → EndsInternal m
    → EndsInternal n
    → EndsInternal (elim test [ true ↦ m | false ↦ n ])
bool-EndsInternal true m n hm hn = hm
bool-EndsInternal false m n hm hn = hn

module _ {A B : Type 0} where
  elim-EndsInternal :
      (o : Option B) (m : Option (Read A)) (f : B → Option (Read A))
      → EndsInternal m
      → ((b : B) → EndsInternal (f b))
      → EndsInternal (elim o [ none ↦ m | some b ↦ f b ])
  elim-EndsInternal none m f hm hf = hm
  elim-EndsInternal (some b) m f hm hf = hf b

  then-EndsInternal :
      (r : Read B) (f : B → Option (Read A))
      → IsInternal r
      → ((b : B) → EndsInternal (f b))
      → EndsInternal (elim r [ err e ↦ some (err e) | ok b ↦ f b ])
  then-EndsInternal r f (returns b) hf = hf b
  then-EndsInternal r f (raises x h) hf = ends (raises x h)

climb-EndsInternal :
    (lib : Libs) (fuel : ℕ) (trace : Option String) (visited : List String) (current : IntentNode)
    (w : World)
    → EndsInternal (climb lib fuel trace visited current w)
unfolding climb
climb-EndsInternal lib zero trace visited current w = endless
climb-EndsInternal lib (suc fuel) trace visited current w =
    elim-EndsInternal current.parent_node_id _ _ (ends (returns current)) (λ pid.
      bool-EndsInternal (contains current.node_id visited) _ _ (ends (raises _ refl)) (
        then-EndsInternal (ancestor_row lib trace pid w) _ (ancestor_row-IsInternal lib trace pid w)
          (λ next. climb-EndsInternal lib fuel trace (current.node_id ∷ visited) next w)))

with_parent-EndsInternal :
    (parent : IntentNode) (o : Option (Read IntentNode))
    → EndsInternal o
    → EndsInternal (with_parent parent o)
unfolding with_parent
with_parent-EndsInternal parent o endless = endless
with_parent-EndsInternal parent o (ends (returns root)) = ends (returns (root, parent))
with_parent-EndsInternal parent o (ends (raises x h)) = ends (raises x h)

branch_from-EndsInternal :
    (lib : Libs) (trace : Option String) (node : IntentNode) (r : Read IntentNode) (w : World)
    → IsInternal r
    → EndsInternal (branch_from lib trace node r w)
unfolding branch_from
branch_from-EndsInternal lib trace node r w (raises x h) = ends (raises x h)
branch_from-EndsInternal lib trace node r w (returns parent) =
    with_parent-EndsInternal parent _ (climb-EndsInternal lib _ trace _ parent w)

branch-EndsInternal :
    (lib : Libs) (trace : Option String) (node : IntentNode) (w : World)
    → EndsInternal (validate_branch lib trace node w)
unfolding validate_branch
branch-EndsInternal lib trace node w =
    elim-EndsInternal node.parent_node_id _ _ (ends (returns (node, node)))
      (λ pid. branch_from-EndsInternal lib trace node _ w (parent_row-IsInternal lib trace pid w))

record_judged-IsInternal :
    (lib : Libs) (p : Placing) (r : Read IntentJudgeResult) (w : World)
    → IsInternal r
    → IsInternal (record_judged lib p r w).0
unfolding record_judged
record_judged-IsInternal lib p r w (returns j) = search internal
record_judged-IsInternal lib p r w (raises (judge_error message) h) = search internal
record_judged-IsInternal lib p r w (raises x h) = raises x h

-- what comes out of the whole check, if its walk ends
abbrev pub Checked : Type 0
Checked = Option (Read IntentValidationResult × World)

pub data ChecksInternal : Checked → Type 0 where
  endless : ChecksInternal none
  checks :
      (r : Read IntentValidationResult) (w : World) → IsInternal r → ChecksInternal (some (r, w))

module _ (lib : Libs) (judge : Judge) (judges : (q : JudgeRequest) → IsInternal (judge q)) where
  record_branch-ChecksInternal :
      (s : Submission) (o : Option (Read (IntentNode × IntentNode))) (w : World)
      → EndsInternal o
      → ChecksInternal (record_branch lib judge s o w)
  unfolding record_branch
  record_branch-ChecksInternal s o w endless = endless
  record_branch-ChecksInternal s o w (ends (raises x h)) = checks (err x) w (raises x h)
  record_branch-ChecksInternal s o w (ends (returns (root, parent))) =
      checks _ _ (record_judged-IsInternal lib (placing s root parent) _ w (judges _))

  record_checked-ChecksInternal :
      (s : Submission) (r : Read (Unit {0})) (w : World)
      → IsInternal r
      → ChecksInternal (record_checked lib judge s r w)
  unfolding record_checked
  record_checked-ChecksInternal s r w (raises x h) = checks (err x) w (raises x h)
  record_checked-ChecksInternal s r w (returns u) =
      record_branch-ChecksInternal s _ w (branch-EndsInternal lib (some s.trace_id) s.node w)

  pub validate_and_record-ChecksInternal :
      (s : Submission) (w : World) → ChecksInternal (validate_and_record_intent_node lib judge s w)
  unfolding validate_and_record_intent_node
  validate_and_record-ChecksInternal s w =
      record_checked-ChecksInternal s _ w (node-IsInternal lib s w)
