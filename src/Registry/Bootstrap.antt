-- ===== src/Registry/Bootstrap.antt =====
-- app/registry/bootstrap.py: the demo identities and agents. The key pairs that it makes are the key
-- files of `Libs`.
pub mod Again
use bu_iam.Prelude.{ℕ, ◌+◌, String, Bool, Option, none, some, List, [], ◌∷◌, is_none, if◌then◌else◌}
use bu_iam.Prelude.Result.{Result, ok, err}
use bu_iam.Prelude.Exec.{Exec, pure, reads, gets, modify, ◌>>=◌, ◌>>◌}
use bu_iam.Json.{Fields}
use bu_iam.Libs.{Libs}
use bu_iam.Protocol.Errors.{Exception, Read}
use bu_iam.World.{World, Agent, Action}
use bu_iam.Store.Agents.{upsert_agent}
use bu_iam.Store.Credentials.{upsert_credential}
use bu_iam.Store.DidRegistry.{get_did_document, upsert_did_document}
use bu_iam.Identity.Did.{build_did}
use bu_iam.Identity.Document.{build_did_document}
use bu_iam.Delegation.Credential.Build.{build_agent_capability_vc}
use bu_iam.Registry.Policy.{Evaluation, evaluate_capability_request}
use bu_iam.Registry.Routes.{is_denied, ensure_system_did, vc_days}

pub record DemoAgent : Type 0 where
  pub agent_id : String
  pub name : String
  pub agent_type : String
  pub description : String
  pub endpoint_env : String
  pub default_endpoint : String
  pub static_capabilities : List String

abbrev pub doc_agent : DemoAgent
doc_agent = record {
  agent_id = "doc_agent";
  name = "Feishu Doc Agent";
  agent_type = "doc_agent";
  description = "Coordinates report generation and writes the final Feishu document.";
  endpoint_env = "DOC_AGENT_ENDPOINT";
  default_endpoint = "http://127.0.0.1:8011/a2a/tasks";
  static_capabilities =
      "report:write" ∷ "feishu.doc:write" ∷ "feishu.contact:read" ∷ "feishu.calendar:read"
      ∷ "feishu.wiki:read" ∷ "feishu.bitable:read" ∷ "web.public:read" ∷ [];
}

abbrev pub enterprise_data_agent : DemoAgent
enterprise_data_agent = record {
  agent_id = "enterprise_data_agent";
  name = "Enterprise Data Agent";
  agent_type = "enterprise_data_agent";
  description = "Provides delegated enterprise data from Feishu via lark-cli.";
  endpoint_env = "ENTERPRISE_DATA_AGENT_ENDPOINT";
  default_endpoint = "http://127.0.0.1:8012/a2a/tasks";
  static_capabilities =
      "feishu.contact:read" ∷ "feishu.calendar:read" ∷ "feishu.wiki:read" ∷ "feishu.bitable:read"
      ∷ [];
}

abbrev pub external_search_agent : DemoAgent
external_search_agent = record {
  agent_id = "external_search_agent";
  name = "External Search Agent";
  agent_type = "external_search_agent";
  description = "Provides public web snapshots and demonstrates denied escalation.";
  endpoint_env = "EXTERNAL_SEARCH_AGENT_ENDPOINT";
  default_endpoint = "http://127.0.0.1:8013/a2a/tasks";
  static_capabilities = "web.public:read" ∷ [];
}

abbrev pub demo_agents : List DemoAgent
demo_agents = doc_agent ∷ enterprise_data_agent ∷ external_search_agent ∷ []

-- USER_ID, and os.getenv
pub record Demo : Type 0 where
  pub user_id : String
  pub getenv : String → Option String

unfoldable pub endpoint_of : Demo → DemoAgent → String
endpoint_of demo a = elim (demo.getenv a.endpoint_env) [
  | none ↦ a.default_endpoint
  | some endpoint ↦ endpoint
]

module _ (lib : Libs) where
  unfoldable pub write_document : String → Read Fields → Action (Unit {0})
  unfolding build_did upsert_did_document
  write_document subject_id (err x) w = (err x, w)
  write_document subject_id (ok document) w =
      (ok tt, upsert_did_document (build_did subject_id) subject_id document w)

  unfoldable pub store_document : String → Option String → Action (Unit {0})
  unfolding build_did_document write_document
  store_document subject_id endpoint w =
      write_document subject_id (build_did_document lib subject_id endpoint) w

  unfoldable pub store_documents : Demo → List DemoAgent → Action (Unit {0})
  unfolding store_document endpoint_of
  store_documents demo [] = pure tt
  store_documents demo (a ∷ rest) = do
    store_document a.agent_id (some (endpoint_of demo a))
    store_documents demo rest

  unfoldable pub ensure_local_identities : Demo → Action (Unit {0})
  unfolding store_document store_documents
  ensure_local_identities demo = do
    store_document demo.user_id none
    store_documents demo demo_agents

  -- a document that is missing is written, and counted
  unfoldable pub count_written : Read (Unit {0}) × World → Read ℕ × World
  count_written (ok u, w) = (ok 1, w)
  count_written (err x, w) = (err x, w)

  unfoldable pub add_document : String → Option String → Option Fields → Action ℕ
  unfolding store_document count_written
  add_document subject_id endpoint (some document) w = (ok 0, w)
  add_document subject_id endpoint none w = count_written (store_document subject_id endpoint w)

  unfoldable pub ensure_document : String → Option String → Action ℕ
  unfolding build_did get_did_document add_document
  ensure_document subject_id endpoint w =
      add_document subject_id endpoint (get_did_document (build_did subject_id) w) w

  unfoldable pub ensure_documents : Demo → List DemoAgent → Action ℕ
  unfolding ensure_document endpoint_of
  ensure_documents demo [] = pure 0
  ensure_documents demo (a ∷ rest) = do
    n ← ensure_document a.agent_id (some (endpoint_of demo a))
    m ← ensure_documents demo rest
    pure (n + m)

  unfoldable pub register_did_documents : Demo → Action ℕ
  unfolding ensure_document ensure_documents
  register_did_documents demo = do
    n ← ensure_document demo.user_id none
    m ← ensure_documents demo demo_agents
    pure (n + m)

  -- the arguments of `upsert_agent`
  unfoldable pub demo_row : DemoAgent → String → List String → Agent
  demo_row a endpoint granted = record {
    agent_id = a.agent_id;
    name = a.name;
    agent_type = a.agent_type;
    description = a.description;
    owner_org = "demo";
    allowed_resource_domains = "feishu" ∷ "public_web" ∷ [];
    status = "active";
    endpoint = endpoint;
    static_capabilities = granted;
    created_at = 0;
    updated_at = 0;
    last_seen_at = none;
  }

  unfoldable pub register_granted : DemoAgent → String → List String → Action ℕ
  unfolding demo_row upsert_agent build_agent_capability_vc upsert_credential
  register_granted a endpoint granted = do
    row ← upsert_agent (demo_row a endpoint granted)
    vc ← reads (build_agent_capability_vc lib a.agent_id granted endpoint a.agent_type vc_days)
    modify (upsert_credential vc)
    pure 1

  -- an agent without a DID document, or whose request is denied, is skipped
  unfoldable pub register_approved_agent : DemoAgent → String → Evaluation → Action ℕ
  unfolding register_granted
  register_approved_agent a endpoint approval w =
      if is_denied approval.decision
      then (ok 0, w)
      else register_granted a endpoint approval.granted w

  unfoldable pub register_with : DemoAgent → String → Option Fields → Action ℕ
  unfolding evaluate_capability_request register_approved_agent
  register_with a endpoint none w = (ok 0, w)
  register_with a endpoint (some document) w =
      register_approved_agent a endpoint
        (evaluate_capability_request "agent" a.agent_type a.static_capabilities w) w

  unfoldable pub register_one : Demo → DemoAgent → Action ℕ
  unfolding build_did get_did_document endpoint_of register_with
  register_one demo a w =
      register_with a (endpoint_of demo a) (get_did_document (build_did a.agent_id) w) w

  unfoldable pub register_all : Demo → List DemoAgent → Action ℕ
  unfolding register_one
  register_all demo [] = pure 0
  register_all demo (a ∷ rest) = do
    n ← register_one demo a
    m ← register_all demo rest
    pure (n + m)

  unfoldable pub register_agent_metadata : Demo → Action ℕ
  unfolding ensure_system_did register_all
  register_agent_metadata demo = do ensure_system_did lib; register_all demo demo_agents

  unfoldable pub bootstrap_demo_identities_locally : Demo → Action (Unit {0})
  unfolding ensure_local_identities register_agent_metadata
  bootstrap_demo_identities_locally demo = do
    ensure_local_identities demo
    registered ← register_agent_metadata demo
    pure tt

  -- without the user's document nothing is registered, only advice logged
  unfoldable pub register_known : Demo → Option Fields → Action (Unit {0})
  unfolding register_agent_metadata
  register_known demo none = pure tt
  register_known demo (some document) = do registered ← register_agent_metadata demo; pure tt

  unfoldable pub register_demo_agents : Demo → Action (Unit {0})
  unfolding build_did get_did_document register_known
  register_demo_agents demo w = register_known demo (get_did_document (build_did demo.user_id) w) w
