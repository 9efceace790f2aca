-- ===== src/Delegation/Service/Internal.antt =====
-- The methods of app/delegation/service.py raise no `HTTPException`, `raise_for_denied` apart.
use bu_iam.Prelude.{ℕ, zero, suc, String, List, Bool, false, Option, none, some, [], ◌∷◌}
use bu_iam.Libs.{Libs}
use bu_iam.Protocol.{AuthContext, DelegationCredential, DelegationEnvelope}
use bu_iam.Protocol.Errors.{credential_error, value_error, Read}
use bu_iam.Protocol.Errors.Internal.{
  IsInternal, returns, raises, internal, bind-IsInternal, elim-IsInternal,
}
use bu_iam.World.{World, Agent}
use bu_iam.Store.Agents.{get_agent}
use bu_iam.Identity.Crypto.Internal.{sign_with_kid-IsInternal}
use bu_iam.Delegation.Capabilities.{parse_capabilities, parse_or_raise}
use bu_iam.Delegation.Credential.Build.{build_delegation_credential, sign_credential}
use bu_iam.Delegation.Branch.{
  validate_credential_branch, check_self, check_root, check_link, find_parent,
}
use bu_iam.Delegation.Service.{
  check_context, validate_credential_id, validate_auth_context_credential, Sets, parse_sets,
  decide_parsed, decide_validated, authorize_context, authorize_target, authorize,
}
use bu_iam.Delegation.Service.Child.{
  ChildRequest, child_credential, issue_child, child_of, build_child_auth_context,
}

self-IsInternal :
    (lib : Libs) (b : Bool) (c : DelegationCredential) (w : World)
    → IsInternal (check_self lib b c w)
unfolding check_self
self-IsInternal lib b c w = search internal depth 14

link-IsInternal : (c parent : DelegationCredential) → IsInternal (check_link c parent)
unfolding check_link
link-IsInternal c parent = search internal depth 14

root-IsInternal : (c : DelegationCredential) → IsInternal (check_root c)
unfolding check_root
root-IsInternal c = search internal

parent-IsInternal : (pid : String) (w : World) → IsInternal (find_parent pid w)
unfolding find_parent
parent-IsInternal pid w = search internal

branch-IsInternal :
    (lib : Libs) (fuel : ℕ) (b : Bool) (c : DelegationCredential) (w : World)
    → IsInternal (validate_credential_branch lib fuel b c w)
unfolding validate_credential_branch
branch-IsInternal lib zero b c w = search internal
branch-IsInternal lib (suc fuel) b c w = bind-IsInternal (self-IsInternal lib b c w) (λ _.
    elim-IsInternal c.parent_credential_id _ _ (root-IsInternal c) (λ pid.
      bind-IsInternal (parent-IsInternal pid w) (λ parent.
        bind-IsInternal (link-IsInternal c parent)
          (λ _. branch-IsInternal lib fuel false parent w))))

context-IsInternal : (a : AuthContext) (c : DelegationCredential) → IsInternal (check_context a c)
unfolding check_context
context-IsInternal a c = search internal depth 14

id-IsInternal :
    (lib : Libs) (a : AuthContext) (o : Option String) (w : World)
    → IsInternal (validate_credential_id lib a o w)
unfolding validate_credential_id
id-IsInternal lib a none w = search internal
id-IsInternal lib a (some cid) w = search (internal, branch-IsInternal, context-IsInternal) depth 14

validate-IsInternal :
    (lib : Libs) (o : Option AuthContext) (w : World)
    → IsInternal (validate_auth_context_credential lib o w)
unfolding validate_auth_context_credential
validate-IsInternal lib none w = search internal
validate-IsInternal lib (some a) w = id-IsInternal lib a a.credential_id w

parse_or_raise-IsInternal :
    (lib : Libs) (parsed unknown : List String) → IsInternal (parse_or_raise lib parsed unknown)
unfolding parse_or_raise
parse_or_raise-IsInternal lib parsed [] = search internal
parse_or_raise-IsInternal lib parsed (u ∷ us) = search internal

sets-IsInternal :
    (lib : Libs) (e : DelegationEnvelope) (a : AuthContext) (target : List String) (w : World)
    → IsInternal (parse_sets lib e a target w)
unfolding parse_sets parse_capabilities
sets-IsInternal lib e a target w = search (internal, parse_or_raise-IsInternal) depth 14

parsed-IsInternal :
    (lib : Libs) (e : DelegationEnvelope) (r : Read Sets) (w : World)
    → IsInternal r
    → IsInternal (decide_parsed lib e r w)
unfolding decide_parsed
parsed-IsInternal lib e r w (returns s) = search internal
parsed-IsInternal lib e r w (raises (value_error message) h) = search internal
parsed-IsInternal lib e r w (raises x h) = search internal

validated-IsInternal :
    (lib : Libs) (e : DelegationEnvelope) (a : AuthContext) (target : List String)
    (r : Read (Option DelegationCredential)) (w : World)
    → IsInternal r
    → IsInternal (decide_validated lib e a target r w)
unfolding decide_validated
validated-IsInternal lib e a target r w (returns c) =
    parsed-IsInternal lib e _ w (sets-IsInternal lib e a target w)
validated-IsInternal lib e a target r w (raises (credential_error code message) h) = search internal
validated-IsInternal lib e a target r w (raises x h) = search internal

authorize_context-IsInternal :
    (lib : Libs) (e : DelegationEnvelope) (target : List String) (o : Option AuthContext)
    (w : World)
    → IsInternal (authorize_context lib e target o w)
unfolding authorize_context
authorize_context-IsInternal lib e target none w = search internal
authorize_context-IsInternal lib e target (some a) w =
    search (internal, validated-IsInternal, validate-IsInternal)

target-IsInternal :
    (lib : Libs) (e : DelegationEnvelope) (o : Option Agent) (w : World)
    → IsInternal (authorize_target lib e o w)
unfolding authorize_target
target-IsInternal lib e none w = search internal
target-IsInternal lib e (some t) w = authorize_context-IsInternal lib e _ e.auth_context w

pub authorize-IsInternal :
    (lib : Libs) (e : DelegationEnvelope) (w : World) → IsInternal (authorize lib e w)
unfolding authorize
authorize-IsInternal lib e w = target-IsInternal lib e (get_agent e.target_agent_id w) w

child_credential-IsInternal :
    (lib : Libs) (parent : DelegationCredential) (r : ChildRequest) (w : World)
    → IsInternal (child_credential lib parent r w)
unfolding child_credential build_delegation_credential sign_credential
child_credential-IsInternal lib parent r w = search (internal, sign_with_kid-IsInternal) depth 14

issue-IsInternal :
    (r : Read DelegationCredential) (w : World) → IsInternal r → IsInternal (issue_child r w).0
unfolding issue_child
issue-IsInternal r w (returns c) = search internal
issue-IsInternal r w (raises x h) = raises x h

child_of-IsInternal :
    (lib : Libs) (a : AuthContext) (q : ChildRequest) (r : Read (Option DelegationCredential))
    (w : World)
    → IsInternal r
    → IsInternal (child_of lib a q r w).0
unfolding child_of
child_of-IsInternal lib a q r w (raises x h) = raises x h
child_of-IsInternal lib a q r w (returns none) = search internal
child_of-IsInternal lib a q r w (returns (some parent)) =
    issue-IsInternal _ w (child_credential-IsInternal lib parent q w)

pub child-IsInternal :
    (lib : Libs) (a : AuthContext) (q : ChildRequest) (w : World)
    → IsInternal (build_child_auth_context lib a q w).0
unfolding build_child_auth_context
child-IsInternal lib a q w = child_of-IsInternal lib a q _ w (validate-IsInternal lib (some a) w)
