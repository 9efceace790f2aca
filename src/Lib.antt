-- ===== src/Lib.antt =====
-- A verification library for BuIAM (app/), the gateway through which agents delegate tasks to one
-- another. Agents are registered with capabilities and DIDs; a token is issued with a root credential;
-- each delegation is checked against the caller's credential, the target's capabilities and the user's,
-- recorded in an audit log, and hands a narrower credential to the next agent. Revoking a token or a
-- credential revokes everything issued below it. A tree of signed intents goes along with the tasks.
--
-- The tables of the database are one state, `World`, which every part reads and writes; the parts
-- call one another as the modules use one another.
--
-- - Prelude: tests on numbers and texts, sets of texts as lists (Sets), texts cut at a character (Text),
--   results of parts that only read (Result), and methods that read, write and raise (Exec).
-- - Json: the values of `json.loads`, for DID documents, token claims and signed content.
-- - Libs: what the program calls and does not implement, as one record of parameters: `json.dumps`,
--   digests, base64, liboqs, the key files (app/identity/keys.py), the environment.
-- - Protocol: app/protocol.py, field by field; Protocol.Decision its decisions, Protocol.Errors the
--   exceptions of all parts as values.
-- - World: app/store/schema.py, a list of rows for each table in the order of the row ids, and the
--   clock. JSON columns hold the lists that the code dumps and loads. A transaction is a function on
--   the state; what was written before an exception stays written.
-- - Store: app/store. DidRegistry, Credentials (app/store/delegation_credentials.py), Agents
--   (app/store/registry.py), Chain, Audit, Tokens, IntentTree, AuthEvents and Policies, one function
--   per operation under its own name. `revoke_credential_tree` runs its loop on fuel, two more turns
--   than the root has rows, and Store.Credentials.Walk shows that this is enough.
-- - Identity: app/identity. Did (did.py), Document (`build_did_document` of did.py), Resolver
--   (did_resolver.py), Crypto (crypto.py; RSA over a digest is arithmetic, ML-DSA a parameter), Proof
--   (did_proof.py), Jwt (`inspect_token` and `verify_token` of jwt_service.py, its `try` block in
--   Jwt.Checks; `issue_token` in Jwt.Issue, its uuid a parameter), Routes (routes.py: `create_token`,
--   `register_did`, `introspect_token` and `revoke`).
-- - Delegation: app/delegation. Capabilities (capabilities.py), Credential (credential_crypto.py: Build
--   the two builders, Check the integrity check, Context the context of a credential), Branch
--   (`validate_credential_branch` of service.py, on the number of nested calls that Python allows; past
--   it the code raises RecursionError), Service (`authorize` and the context check; Child the issue of
--   the next agent's credential and the recording of decisions, Denied `raise_for_denied`).
-- - Intent: app/intent. Crypto (crypto.py), Branch (the checks and the walk of service.py, on one more
--   turn than there are rows, which Intent.Branch.Walk shows to be enough), Service
--   (`validate_and_record_intent_node`; the judge is a parameter), Generator (generator.py) and Judge
--   (judge.py), with the calls of both in Models and `extract_json_object`, which both have, in Answer;
--   the HTTP client and the environment are parameters.
-- - Gateway: app/gateway/routes.py. Bearer has the checks on the agent and the bearer token of a
--   request, with what they record; Context chooses the context that a task runs under; Decisions the
--   decisions that are recorded for what is refused. Server is the state of a handler, the tables and
--   the running tasks, with what a handler waits for: the answer of the target (with the state in
--   which the request goes on, since other requests are served meanwhile), the intent generator, the
--   judge and the new task. A call of a model does not move the tables in the model. Forward is
--   `forward_to_agent`; Checks has the steps of a task that record what they refuse; Agent is
--   `agent_task` and Root `root_task`, each cut before the forwarding (`prepare_task`,
--   `prepare_root`); the uuids of `root_task` are arguments. Audited has what it means that a
--   decision, or a refusal, is the newest row of the audit log.
-- - Registry: app/registry. Policy is `evaluate_capability_request` of policy.py, over Store.Policies
--   (app/store/capability_policies.py and the writes of app/store/capabilities.py); Routes is
--   routes.py, without the plain listings; Bootstrap is bootstrap.py, the demo identities.
-- - Runtime: app/runtime. Tasks is tasks.py, the event loop's scheduled cancellations a list in its
--   state; Tasks.Steps has the calls as a step relation.
-- - Tests: a small system of three agents, and the theorems on it.
--
-- Times are whole seconds, numbers are unbounded as in Python. The clock does not move within a call.
-- Signatures are accepted or refused by arithmetic on the key; nothing is assumed of the digests beyond
-- what a theorem names. Not modelled: the encoding of requests and responses by FastAPI
-- and pydantic, the plain listings, key generation, the
-- client, the wiring of app/main.py, and the examples and scripts.
pub mod Prelude
pub mod Json
pub mod Libs
pub mod Protocol
pub mod World
pub mod Store
pub mod Identity
pub mod Delegation
pub mod Intent
pub mod Gateway
pub mod Registry
pub mod Runtime
mod Tests
