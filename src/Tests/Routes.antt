-- ===== src/Tests/Routes.antt =====
-- The identity routes (app/identity/routes.py) on the small system: new_agent is registered, and
-- a token with running tasks is revoked.
use bu_iam.Prelude.{
  ◌≤◌, ℕ, same_code, String, ◌≡◌, refl, Bool, true, false, none, some, [], ◌∷◌, ◌==◌, if◌then◌else◌,
}
use bu_iam.Prelude.Sets.{contains, intersect, minus}
use bu_iam.Prelude.Result.{ok}
use bu_iam.Json.{Fields}
use bu_iam.World.{World}
use bu_iam.Store.DidRegistry.{get_did_document, upsert_did_document}
use bu_iam.Store.Tokens.{revoke_token_and_credentials}
use bu_iam.Identity.Did.{build_did}
use bu_iam.Identity.Document.{int_text, document_json, rsa_key, build_did_document}
use bu_iam.Identity.Proof.{DidProof, proof_json, create_did_proof}
use bu_iam.Identity.Routes.{DidRegisterRequest, register_did, is_did, Revocation, revoke}
use bu_iam.Identity.Routes.Registered.{Admitted, register_did-Admitted, register_did-keeps}
use bu_iam.Identity.Routes.Built.{HasKeyFile, register_did-built}
use bu_iam.Identity.Routes.Revoked.{is_stopping, revoke-stops}
use bu_iam.Identity.Crypto.{rsa_verify_with_public_key}
use bu_iam.Store.Credentials.{revoke_credential_tree}
use bu_iam.Runtime.Tasks.{Tasks, register_task, no_tasks}
use bu_iam.Runtime.Tasks.Steps.{runs_in}
use bu_iam.Prelude.Exec.{continue, pair-eta}
use bu_iam.World.{PolicyRow}
use bu_iam.Store.Policies.{get_policy}
use bu_iam.Registry.Routes.{AgentRegisterRequest, Registration, register_agent}
use bu_iam.Registry.Routes.Granted.{Holds, requested_and_allowed, register_agent-Holds}
use bu_iam.Registry.Bootstrap.{Demo, register_did_documents}
use bu_iam.Registry.Bootstrap.Again.{register_did_documents-again}
use bu_iam.Tests.Fixtures.{
  digit, toy, small_key, small_key-IsRsaPair, small_key-Decodes, with_root, with_token,
  token_revoked, row,
}

either_full :
    (test : Bool) (s t : String)
    → (s == "") ≡ false
    → (t == "") ≡ false
    → ((if test then s else t) == "") ≡ false
either_full true s t hs ht = hs
either_full false s t hs ht = ht

digit_full : (x : ℕ) → (digit x == "") ≡ false
digit_full x =
    either_full (same_code x 0) "0" _ refl
      (either_full (same_code x 1) "1" _ refl (either_full (same_code x 2) "2" "3" refl refl))

new_agent_key : HasKeyFile toy "new_agent"
unfolding int_text
new_agent_key = record {
  key = small_key;
  rsa = refl;
  private = refl;
  public = refl;
  pair = small_key-IsRsaPair;
  codec = small_key-Decodes;
  full = λ len x h. digit_full x;
  modulus = refl;
  exponent = refl;
  modulus_positive = refl;
  exponent_positive = refl;
}

register_did-built_example :
    (document : Fields) × (p : DidProof) × (build_did_document toy "new_agent" (some "http://new")
      ≡ ok document)
    × (create_did_proof toy document "new_agent" with_root ≡ ok p)
    × (register_did toy (record { did_document = document; proof = proof_json p }) with_root ≡ (
      ok (build_did "new_agent", "new_agent"),
      upsert_did_document (build_did "new_agent") "new_agent" document with_root,
    ))
unfolding build_did is_did get_did_document
register_did-built_example =
    register_did-built toy "new_agent" (some "http://new") with_root new_agent_key refl refl

abbrev registration : DidRegisterRequest
registration = record {
  did_document = document_json toy "new_agent" none (rsa_key "3" "3");
  proof = proof_json (record {
    type = "BUIAM-RS256";
    verification_method = "did:buiam:new_agent#key-1";
    created = "";
    signature_value = "2";
  });
}

abbrev after : World
after = upsert_did_document "did:buiam:new_agent" "new_agent" registration.did_document with_root

registered :
    register_did toy registration with_root ≡ (ok ("did:buiam:new_agent", "new_agent"), after)
unfolding register_did document_json proof_json rsa_verify_with_public_key
registered = refl

register_did-Admitted_example :
    Admitted toy registration with_root "did:buiam:new_agent"
    × ((d : String)
        → get_did_document d after ≡ (
            if "did:buiam:new_agent" == d
            then some registration.did_document
            else get_did_document d with_root))
register_did-Admitted_example =
    register_did-Admitted toy registration with_root after ("did:buiam:new_agent", "new_agent")
      registered

register_did-keeps_example :
    get_did_document "did:buiam:doc_agent" (register_did toy registration with_root).1
    ≡ some (row "doc_agent").document
unfolding get_did_document
register_did-keeps_example =
    register_did-keeps toy registration with_root "did:buiam:doc_agent" (row "doc_agent").document
      refl

abbrev busy : Tasks
busy = register_task "trace" 7 (register_task "other" 8 no_tasks)

abbrev revocation : Revocation
revocation = record { jti = "token"; trace_ids = "trace" ∷ []; cancelled_tasks = 1 }

revoked :
    (s : Tasks) × (revoke "token" (some "lost") with_token busy
      ≡ some (ok revocation, (token_revoked, s)))
unfolding revoke revoke_credential_tree register_task
revoked = (_, refl)

revoke-stops_example :
    (revoke_token_and_credentials "token" "lost" with_token
      ≡ some ((true, "trace" ∷ []), token_revoked))
    × ((a : String) (x : ℕ)
        → contains a ("trace" ∷ []) ≡ true
        → runs_in a x busy ≡ true
        → is_stopping x revoked.0 ≡ true)
revoke-stops_example =
    revoke-stops "token" (some "lost") with_token token_revoked busy revoked.0 revocation revoked.1

-- an agent asks for one capability that its policy allows, and one that it does not
abbrev office : World
office = record with_root {
  policies =
      record {
        subject_type = "agent";
        agent_type = "doc_agent";
        allowed_capabilities = "report:read" ∷ "web:search" ∷ [];
      }
      ∷ [];
}

abbrev application : AgentRegisterRequest
application = record {
  agent_id = "new_agent";
  name = "New";
  agent_type = "doc_agent";
  endpoint = "http://new";
  description = "";
  owner_org = "local";
  allowed_resource_domains = [];
  status = "active";
  requested_capabilities = "report:read" ∷ "report:write" ∷ [];
  static_capabilities = [];
}

agent-registered : (g : Registration) × ((register_agent toy application office).0 ≡ ok g)
unfolding register_agent continue intersect minus
agent-registered = (_, refl)

register_agent-Holds_example :
    (p : PolicyRow) × (get_policy "agent" "doc_agent" office ≡ some p)
    × Holds "new_agent" agent-registered.0.agent_vc_id
        (requested_and_allowed application p)
        (register_agent toy application office).1
register_agent-Holds_example =
    register_agent-Holds toy application office (register_agent toy application office).1
      agent-registered.0 (pair-eta (register_agent toy application office) agent-registered.1)

-- the demo's user and two of its agents have no document yet
abbrev demo : Demo
demo = record { user_id = "alice"; getenv = λ name. none }

documents-added : (register_did_documents toy demo with_root).0 ≡ ok 3
unfolding register_did_documents continue
documents-added = refl

register_did_documents-again_example :
    (register_did_documents toy demo (register_did_documents toy demo with_root).1
      ≡ (ok 0, (register_did_documents toy demo with_root).1))
    × (3 ≤ 4)
register_did_documents-again_example =
    register_did_documents-again toy demo with_root (register_did_documents toy demo with_root).1 3
      (pair-eta (register_did_documents toy demo with_root) documents-added)
