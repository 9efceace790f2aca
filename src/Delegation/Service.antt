-- ===== src/Delegation/Service.antt =====
-- app/delegation/service.py: `DelegationService`.
pub mod Context
pub mod Covered
pub mod Authorize
pub mod Child
pub mod Issue
pub mod Internal
pub mod Denied
use Prim.Native.String.{◌++◌}
use bu_iam.Prelude.{
  ℕ, String, Bool, true, false, not, ◌&&◌, ◌||◌, Option, none, some, List, [], ◌∷◌, is_none,
  or_else, or_list, ◌==◌, if◌then◌else◌,
}
use bu_iam.Prelude.Sets.{set_of, minus, same_set, subset, sorted}
use bu_iam.Prelude.Result.{Result, ok, err, guard, or_raise, ◌>>=◌, ◌>>◌}
use bu_iam.Json.{texts, texts_items}
use bu_iam.Libs.{Libs}
use bu_iam.Protocol.{
  Verdict, allow, deny, root, DelegationHop, AuthContext, DelegationCredential, DelegationEnvelope,
}
use bu_iam.Protocol.Decision.{DelegationDecision, plain}
use bu_iam.Protocol.Errors.{Exception, credential_error, value_error, Read}
use bu_iam.World.{World, Agent}
use bu_iam.Identity.Did.{build_did, build_verification_method_id}
use bu_iam.Store.Agents.{get_agent, find_agents_with_capabilities, non_empty}
use bu_iam.Store.Audit.{last_hop, record_decision, is_allow}
use bu_iam.Store.Credentials.{get_credential, upsert_credential, get_credential_by_subject_and_type}
use bu_iam.Delegation.Capabilities.{known_capabilities, parse_capabilities, intersect_capabilities}
use bu_iam.Delegation.Credential.{agent_vc_type}
use bu_iam.Delegation.Credential.Build.{Grant, build_delegation_credential}
use bu_iam.Delegation.Credential.Context.{auth_context_from_credential}
use bu_iam.Delegation.Branch.{invalid, validate_credential_branch}

unfoldable pub get_agent_vc : Libs → String → World → Option DelegationCredential
unfolding get_credential_by_subject_and_type
get_agent_vc lib agent_id w = get_credential_by_subject_and_type lib agent_id agent_vc_type w

-- a DID of the context that is not `None` must be the credential's
unfoldable pub did_matches : Option String → DelegationCredential → Bool
unfolding build_did
did_matches none c = true
did_matches (some did) c = did == or_else c.subject_did (build_did c.subject_id)

unfoldable pub check_context : AuthContext → DelegationCredential → Read (Unit {0})
unfolding did_matches same_set
check_context a c = do
  guard (c.subject_id == a.agent_id && c.subject_id == a.sub)
      (invalid "delegation credential subject does not match auth context")
  guard (did_matches a.subject_did c)
      (invalid "delegation credential DID does not match auth context")
  guard (same_set a.capabilities c.capabilities)
      (invalid "delegation credential capabilities do not match auth context")

unfoldable pub validate_credential_id :
    Libs → AuthContext → Option String → World → Read (Option DelegationCredential)
unfolding get_credential check_context
validate_credential_id lib a none w = ok none
validate_credential_id lib a (some cid) w = do
  c ← or_raise (get_credential cid w) (invalid "delegation credential is not registered")
  validate_credential_branch lib lib.recursion_limit true c w
  check_context a c
  ok (some c)

unfoldable pub validate_auth_context_credential :
    Libs → Option AuthContext → World → Read (Option DelegationCredential)
unfolding validate_credential_id
validate_auth_context_credential lib none w = ok none
validate_auth_context_credential lib (some a) w = validate_credential_id lib a a.credential_id w

unfoldable pub is_chain_continuous : DelegationEnvelope → Bool
unfolding last_hop
is_chain_continuous e = elim (last_hop e.delegation_chain) [
  | none ↦ true
  | some h ↦ h.to_agent_id == e.caller_agent_id
]

unfoldable pub build_missing_by :
    List String → List String → List String → List String → List (String × List String)
unfolding minus sorted
build_missing_by requested caller target user =
    ("caller_token", sorted (minus requested caller))
    ∷ ("target_agent", sorted (minus requested target))
    ∷ ("user", sorted (minus requested user))
    ∷ []

-- `_denied`
unfoldable pub denied : List String → String → Bool → DelegationDecision
unfolding sorted
denied requested reason recoverable = record (plain deny reason) {
  missing_capabilities = sorted requested;
  requested_capabilities = sorted requested;
  recoverable = recoverable;
}

-- the capabilities of the target: its credential's, or else its row's
unfoldable pub target_capabilities : Option DelegationCredential → Agent → List String
target_capabilities none target = target.static_capabilities
target_capabilities (some vc) target = vc.capabilities

-- the sets that meet in a decision
pub record Sets : Type 0 where
  pub requested : List String
  pub caller_token : List String
  pub target : List String
  pub user : List String

unfoldable pub parse_sets :
    Libs → DelegationEnvelope → AuthContext → List String → World → Read Sets
unfolding known_capabilities parse_capabilities
parse_sets lib e a target w = do
  let known = known_capabilities w
  requested ← parse_capabilities lib e.requested_capabilities known
  caller ← parse_capabilities lib a.capabilities known
  user ← parse_capabilities lib (or_list a.user_capabilities a.capabilities) known
  ok (record { requested = requested; caller_token = caller; target = target; user = user })

unfoldable pub effective_of : Sets → List String
unfolding intersect_capabilities
effective_of s = intersect_capabilities (s.caller_token ∷ s.target ∷ s.requested ∷ s.user ∷ [])

-- the agents that hold what the target lacks
unfoldable pub suggestions : Sets → String → World → List String
unfolding minus sorted find_agents_with_capabilities
suggestions s target_id w =
    find_agents_with_capabilities (sorted (minus s.requested s.target)) (some target_id) w

-- what both final decisions carry
unfoldable pub with_sets : DelegationDecision → Sets → DelegationDecision
unfolding sorted effective_of build_missing_by
with_sets d s = record d {
  effective_capabilities = sorted (effective_of s);
  requested_capabilities = sorted s.requested;
  caller_token_capabilities = sorted s.caller_token;
  target_agent_capabilities = sorted s.target;
  user_capabilities = sorted s.user;
  missing_by = build_missing_by s.requested s.caller_token s.target s.user;
  recoverable = true;
}

abbrev pub not_covered : String
not_covered =
    "requested capabilities not covered by token, target, request, and user intersection: "

abbrev pub covered : String
covered = "requested capabilities are covered by token, target, request, and user intersection"

unfoldable pub decide : Libs → Sets → String → World → DelegationDecision
unfolding minus sorted texts_items effective_of with_sets suggestions
decide lib s target_id w =
    let missing = minus s.requested (effective_of s) in
    if non_empty missing
    then record (with_sets (plain deny (not_covered ++ lib.repr (texts (sorted missing)))) s) {
      missing_capabilities = sorted missing;
      suggested_agents = suggestions s target_id w;
    }
    else with_sets (plain allow covered) s

-- `except ValueError`, and what is left of `authorize`
unfoldable pub decide_parsed :
    Libs → DelegationEnvelope → Read Sets → World → Read DelegationDecision
decide_parsed lib e (ok s) w = ok (decide lib s e.target_agent_id w)
decide_parsed lib e (err (value_error message)) w =
    ok (denied e.requested_capabilities message true)
decide_parsed lib e (err e') w = err e'

-- `except CredentialValidationError`
unfoldable pub decide_validated :
    Libs
    → DelegationEnvelope
    → AuthContext
    → List String
    → Read (Option DelegationCredential)
    → World
    → Read DelegationDecision
decide_validated lib e a target (ok c) w = decide_parsed lib e (parse_sets lib e a target w) w
decide_validated lib e a target (err (credential_error code message)) w =
    ok (denied e.requested_capabilities (code ++ (": " ++ message)) false)
decide_validated lib e a target (err e') w = err e'

unfoldable pub authorize_context :
    Libs → DelegationEnvelope → List String → Option AuthContext → World → Read DelegationDecision
authorize_context lib e target none w =
    ok (denied e.requested_capabilities "missing trusted auth context" false)
authorize_context lib e target (some a) w =
    if not (a.sub == e.caller_agent_id) || not (a.agent_id == e.caller_agent_id)
    then ok
        (denied e.requested_capabilities "auth context subject does not match caller agent" false)
    else if not (is_chain_continuous e)
    then ok (
        denied e.requested_capabilities "delegation chain is not continuous with caller agent"
          false)
    else decide_validated lib e a target (validate_auth_context_credential lib (some a) w) w

unfoldable pub authorize_target :
    Libs → DelegationEnvelope → Option Agent → World → Read DelegationDecision
authorize_target lib e none w =
    ok (denied e.requested_capabilities ("unknown target agent: " ++ e.target_agent_id) false)
authorize_target lib e (some target) w =
    authorize_context lib e (target_capabilities (get_agent_vc lib e.target_agent_id w) target)
      e.auth_context w

unfoldable pub authorize : Libs → DelegationEnvelope → World → Read DelegationDecision
authorize lib e w = authorize_target lib e (get_agent e.target_agent_id w) w
