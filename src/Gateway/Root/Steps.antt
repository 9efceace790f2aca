-- ===== src/Gateway/Root/Steps.antt =====
-- The steps of `root_task` (app/gateway/routes.py) that have returned.
use bu_iam.Prelude.{String, ◌≡◌, refl, sym, ap, ◌∙◌, some}
use bu_iam.Prelude.Result.{ok, err}
use bu_iam.Prelude.Exec.{pair-eta, catching-ok}
use bu_iam.Libs.{Libs}
use bu_iam.Protocol.{
  ActorType, user, agent, AuthContext, DelegationEnvelope, IntentNode, RootTaskRequest,
}
use bu_iam.Protocol.Errors.{Exception, credential_error, generation_error}
use bu_iam.World.{World}
use bu_iam.Intent.Service.{IntentValidationResult, validate_and_record_intent_node}
use bu_iam.Gateway.Server.{GeneratedIntent, Generator, Outside}
use bu_iam.Gateway.Checks.{refuse, refuse_intent, run_validation}
use bu_iam.Gateway.Agent.Steps.{submission, refuse_intent-raises, come_back-ok}
use bu_iam.Gateway.Root.{
  Uuids, require_user, refuse_root_generation, generate_root_intent, refuse_root_child,
  check_root_node,
}

pub require_user-ok :
    (e : DelegationEnvelope) (t : ActorType) (w w' : World)
    → require_user e t w ≡ (ok tt, w')
    → (t ≡ user) × (w ≡ w')
unfolding require_user refuse
require_user-ok e user w w' h = (refl, ap (λ q. q.1) h)
require_user-ok e agent w w' h = absurd (cc (ap (λ q. q.0) h))

refuse_generation-raises :
    (u : Uuids) (r : RootTaskRequest) (a : AuthContext) (x : Exception) (w : World)
    → (y : Exception) × ((refuse_root_generation u r a x w).0 ≡ err y)
unfolding refuse_root_generation refuse
refuse_generation-raises u r a (generation_error m) w = (_, refl)
refuse_generation-raises u r a x w = (x, refl)

-- A generated intent leaves the tables as they are.
pub generate-ok :
    (generator : Generator) (u : Uuids) (r : RootTaskRequest) (a : AuthContext) (w w' : World)
    (g : GeneratedIntent)
    → generate_root_intent generator u r a w ≡ (ok g, w')
    → w ≡ w'
unfolding generate_root_intent
generate-ok generator u r a w w' g h =
    let (made, kept) =
      catching-ok (refuse_root_generation u r a) _ _ (refuse_generation-raises u r a)
        (ap (λ q. q.0) h) in
    sym kept ∙ ap (λ q. q.1) h

pub refuse_child-raises :
    (e : DelegationEnvelope) (r : RootTaskRequest) (x : Exception) (w : World)
    → (y : Exception) × ((refuse_root_child e r x w).0 ≡ err y)
unfolding refuse_root_child refuse
refuse_child-raises e r (credential_error code m) w = (_, refl)
refuse_child-raises e r x w = (x, refl)

pub check_root_node-ok :
    (lib : Libs) (out : Outside) (e : DelegationEnvelope) (a : AuthContext) (node : IntentNode)
    (model : String) (w w' : World) (found : IntentValidationResult)
    → check_root_node lib out e a node model w ≡ (ok found, w')
    → validate_and_record_intent_node lib out.judge (submission e a node) w ≡ some (ok found, w')
unfolding check_root_node run_validation submission
check_root_node-ok lib out e a node model w w' found h =
    let (answered, kept) =
      catching-ok (refuse_intent lib e (some model)) _ _ (refuse_intent-raises lib e (some model))
        (ap (λ q. q.0) h) in
    come_back-ok _ w w' found
      (pair-eta _ answered ∙ ap (λ v. (ok found, v)) (sym kept ∙ ap (λ q. q.1) h))
