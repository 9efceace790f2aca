-- ===== src/Registry/Routes.antt =====
-- app/registry/routes.py: agents, their capability credentials, the master list and the policies.
pub mod Granted
use bu_iam.Prelude.{
  ℕ, String, Bool, true, false, not, ◌||◌, Option, none, some, List, [], ◌∷◌, ◌==◌, is_text, truthy,
  or_list, if◌then◌else◌,
}
use bu_iam.Prelude.Sets.{contains, sorted}
use bu_iam.Prelude.Text.{strip}
use bu_iam.Prelude.Result.{Result, ok, err}
use bu_iam.Prelude.Exec.{pure, raise, reads, gets, modify, writes, require, ◌>>=◌, ◌>>◌}
use bu_iam.Json.{Fields, text, end, field, texts, texts_items}
use bu_iam.Libs.{Libs}
use bu_iam.Protocol.{DelegationCredential}
use bu_iam.Protocol.Errors.{Exception, http_detail, http_exception, Read}
use bu_iam.World.{World, Agent, PolicyRow, Action}
use bu_iam.Store.Agents.{get_agent, get_agent_by_name, list_agents, upsert_agent}
use bu_iam.Store.Credentials.{upsert_credential}
use bu_iam.Store.DidRegistry.{get_did_document, upsert_did_document}
use bu_iam.Store.Policies.{upsert_policy, add_capability, remove_capability}
use bu_iam.Identity.Did.{build_did}
use bu_iam.Identity.Document.{build_did_document}
use bu_iam.Delegation.Credential.{gateway_system_id}
use bu_iam.Delegation.Credential.Build.{build_agent_capability_vc}
use bu_iam.Delegation.Credential.Check.{verify_credential_integrity}
use bu_iam.Delegation.Service.{get_agent_vc}
use bu_iam.Registry.Policy.{Outcome, denied, Evaluation, evaluate_capability_request}

pub record AgentRegisterRequest : Type 0 where
  pub agent_id : String
  pub name : String
  pub agent_type : String
  pub endpoint : String
  pub description : String
  pub owner_org : String
  pub allowed_resource_domains : List String
  pub status : String
  pub requested_capabilities : List String
  pub static_capabilities : List String

-- `_resolve_requested_capabilities`
unfoldable pub resolve_requested : AgentRegisterRequest → List String
resolve_requested r = or_list r.requested_capabilities r.static_capabilities

abbrev pub fails : ℕ → String → Exception
fails status error_code = http_exception status error_code ""

-- the name is free, or this agent's own
unfoldable pub check_name : String → Option Agent → Read (Unit {0})
check_name agent_id none = ok tt
check_name agent_id (some existing) =
    if existing.agent_id == agent_id then ok tt else err (fails 400 "AGENT_NAME_ALREADY_EXISTS")

abbrev pub is_denied : Outcome → Bool
is_denied denied = true
is_denied _ = false

unfoldable pub capability_denied : Evaluation → List String → Exception
unfolding texts_items
capability_denied approval requested = http_detail 400 (
    field "error_code" (text "CAPABILITY_DENIED") (
      field "reason" (text approval.reason) (
        field "requested_capabilities" (texts requested)
          (field "missing_capabilities" (texts approval.missing) end))))

unfoldable pub check_approval : Evaluation → List String → Read Evaluation
unfolding capability_denied
check_approval approval requested =
    if is_denied approval.decision then err (capability_denied approval requested) else ok approval

-- the name and the policy, before anything is written
unfoldable pub check_agent : AgentRegisterRequest → World → Read Evaluation
unfolding check_name get_agent_by_name resolve_requested evaluate_capability_request check_approval
check_agent r w = elim (check_name r.agent_id (get_agent_by_name r.name w)) [
  | err x ↦ err x
  | ok u ↦
      check_approval (evaluate_capability_request "agent" r.agent_type (resolve_requested r) w)
        (resolve_requested r)
]

-- the arguments of `upsert_agent`, which sets the times itself
unfoldable pub agent_of : AgentRegisterRequest → List String → Agent
agent_of r granted = record {
  agent_id = r.agent_id;
  name = r.name;
  agent_type = r.agent_type;
  description = r.description;
  owner_org = r.owner_org;
  allowed_resource_domains = r.allowed_resource_domains;
  status = r.status;
  endpoint = r.endpoint;
  static_capabilities = granted;
  created_at = 0;
  updated_at = 0;
  last_seen_at = none;
}

-- `_ensure_system_did`: the gateway's document is made once. Its key file is `Libs.public_key`.
unfoldable pub store_system_did : Option Fields → Read Fields → Action (Unit {0})
unfolding build_did upsert_did_document
store_system_did (some document) built w = (ok tt, w)
store_system_did none (err x) w = (err x, w)
store_system_did none (ok document) w =
    (ok tt, upsert_did_document (build_did gateway_system_id) gateway_system_id document w)

unfoldable pub ensure_system_did : Libs → Action (Unit {0})
unfolding build_did get_did_document build_did_document store_system_did
ensure_system_did lib w =
    store_system_did (get_did_document (build_did gateway_system_id) w)
      (build_did_document lib gateway_system_id none) w

-- What `register_agent` returns; `agent_to_dict` sorts what is already sorted.
pub record Registration : Type 0 where
  pub agent : Agent
  pub agent_vc_id : String
  pub decision : Outcome
  pub requested_capabilities : List String
  pub granted_capabilities : List String
  pub missing_capabilities : List String

abbrev pub vc_days : ℕ
vc_days = 30

-- from the approval on
unfoldable pub register_approved : Libs → AgentRegisterRequest → Evaluation → Action Registration
unfolding agent_of upsert_agent ensure_system_did build_agent_capability_vc upsert_credential
    resolve_requested sorted
register_approved lib r approval = do
  a ← upsert_agent (agent_of r approval.granted)
  ensure_system_did lib
  vc ←
      reads
        (build_agent_capability_vc lib r.agent_id approval.granted r.endpoint r.agent_type vc_days)
  modify (upsert_credential vc)
  pure (record {
    agent = a;
    agent_vc_id = vc.credential_id;
    decision = approval.decision;
    requested_capabilities = sorted (resolve_requested r);
    granted_capabilities = approval.granted;
    missing_capabilities = approval.missing;
  })

unfoldable pub register_agent : Libs → AgentRegisterRequest → Action Registration
unfolding check_agent register_approved
register_agent lib r = do approval ← reads (check_agent r); register_approved lib r approval

-- An agent with the id of its capability credential, if it has one.
pub record AgentInfo : Type 0 where
  pub agent : Agent
  pub agent_vc_id : Option String

abbrev pub vc_id_of : Option DelegationCredential → Option String
vc_id_of none = none
vc_id_of (some vc) = some vc.credential_id

unfoldable pub agent_info : Libs → Agent → World → AgentInfo
unfolding get_agent_vc
agent_info lib a w = record { agent = a; agent_vc_id = vc_id_of (get_agent_vc lib a.agent_id w) }

-- `capability and capability not in agent.static_capabilities`
abbrev pub lacks : Option String → Agent → Bool
lacks none a = false
lacks (some capability) a =
    if capability == "" then false else not (contains capability a.static_capabilities)

unfoldable pub infos_of : Libs → Option String → List Agent → World → List AgentInfo
unfolding agent_info contains
infos_of lib capability [] w = []
infos_of lib capability (a ∷ rest) w =
    let others = infos_of lib capability rest w in
    if lacks capability a then others else agent_info lib a w ∷ others

unfoldable pub get_agents : Libs → Option String → World → List AgentInfo
unfolding list_agents infos_of
get_agents lib capability w = infos_of lib capability (list_agents w) w

unfoldable pub get_registered_agent : Libs → String → World → Read AgentInfo
unfolding get_agent agent_info
get_registered_agent lib agent_id w = elim (get_agent agent_id w) [
  | none ↦ err (fails 404 "AGENT_NOT_REGISTERED")
  | some a ↦ ok (agent_info lib a w)
]

-- the credential, with what its integrity check says
unfoldable pub get_agent_vc_endpoint : Libs → String → World → Read (DelegationCredential × Bool)
unfolding get_agent get_agent_vc verify_credential_integrity
get_agent_vc_endpoint lib agent_id w = elim (get_agent agent_id w) [
  | none ↦ err (fails 404 "AGENT_NOT_REGISTERED")
  | some a ↦ elim (get_agent_vc lib agent_id w) [
    | none ↦ err (fails 404 "AGENT_VC_NOT_FOUND")
    | some vc ↦ ok (vc, verify_credential_integrity lib vc w)
  ]
]

unfoldable pub create_capability : String → String → Action String
unfolding strip add_capability
create_capability name description w =
    if strip name == ""
    then (err (fails 400 "CAPABILITY_NAME_REQUIRED"), w)
    else (let added = add_capability (strip name) description w in
        (if added.0 then ok (strip name) else err (fails 409 "CAPABILITY_ALREADY_EXISTS"), added.1))

unfoldable pub delete_capability : String → Action String
unfolding remove_capability
delete_capability name w =
    let removed = remove_capability name w in
    (if removed.0 then ok name else err (fails 404 "CAPABILITY_NOT_FOUND"), removed.1)

unfoldable pub update_capability_policy : String → String → List String → Action PolicyRow
unfolding upsert_policy sorted
update_capability_policy subject_type agent_type allowed w =
    if subject_type == "" || agent_type == ""
    then (err (fails 400 "POLICY_INVALID_SUBJECT_OR_AGENT"), w)
    else (
      ok (record {
        subject_type = subject_type;
        agent_type = agent_type;
        allowed_capabilities = sorted allowed;
      }),
      upsert_policy subject_type agent_type allowed w,
    )
