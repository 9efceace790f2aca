-- ===== src/Registry/Policy.antt =====
-- app/registry/policy.py: `evaluate_capability_request`.
pub mod Granted
use Prim.Native.String.{◌++◌}
use bu_iam.Prelude.{String, Bool, not, Option, none, some, List, [], ◌∷◌, if◌then◌else◌}
use bu_iam.Prelude.Sets.{set_of, intersect, minus, sorted}
use bu_iam.World.{World, PolicyRow}
use bu_iam.Store.Agents.{non_empty}
use bu_iam.Store.Policies.{get_policy}

-- the three texts of `decision`
pub data Outcome : Type 0 where
  approved modified denied : Outcome

pub record Evaluation : Type 0 where
  pub decision : Outcome
  pub granted : List String
  pub missing : List String
  pub reason : String

abbrev pub kind_text : String → String → String
kind_text subject_type agent_type = subject_type ++ "/" ++ agent_type

unfoldable pub decide_request : String → List String → List String → Evaluation
decide_request kind granted missing =
    if not (non_empty granted)
    then record {
      decision = denied;
      granted = [];
      missing = missing;
      reason = "none of the requested capabilities are allowed for " ++ kind;
    }
    else if non_empty missing
    then record {
      decision = modified;
      granted = granted;
      missing = missing;
      reason = "some requested capabilities are not allowed for " ++ kind;
    }
    else record {
      decision = approved;
      granted = granted;
      missing = [];
      reason = "all requested capabilities approved";
    }

unfoldable pub evaluate_with : Option PolicyRow → String → List String → Evaluation
unfolding decide_request sorted
evaluate_with none kind requested = record {
  decision = denied;
  granted = [];
  missing = sorted requested;
  reason = "no capability policy found for " ++ kind;
}
evaluate_with (some policy) kind requested =
    decide_request kind (sorted (intersect (set_of requested) policy.allowed_capabilities))
      (sorted (minus (set_of requested) policy.allowed_capabilities))

unfoldable pub evaluate_capability_request : String → String → List String → World → Evaluation
unfolding evaluate_with get_policy
evaluate_capability_request subject_type agent_type [] w = record {
  decision = denied;
  granted = [];
  missing = [];
  reason = "no capabilities requested";
}
evaluate_capability_request subject_type agent_type (c ∷ cs) w =
    evaluate_with (get_policy subject_type agent_type w) (kind_text subject_type agent_type)
      (c ∷ cs)
