-- ===== src/Tests/Identity.antt =====
-- The theorems on signatures and on the builders of credentials, in the small system.
use bu_iam.Prelude.{String, ◌≡◌, refl, true, [], ◌∷◌}
use bu_iam.Prelude.Result.{ok}
use bu_iam.Protocol.{DelegationCredential}
use bu_iam.Identity.Crypto.{rsa_sign_with_kid, rsa_verify_with_kid}
use bu_iam.Identity.Crypto.RoundTrip.{rsa_verify_with_kid-sign}
use bu_iam.Delegation.Credential.Build.{build_delegation_credential, build_agent_capability_vc}
use bu_iam.Delegation.Credential.Check.{verify_credential_integrity}
use bu_iam.Delegation.Credential.Integrity.{
  method_of, build_delegation_credential-integrity, build_agent_capability_vc-integrity,
}
use bu_iam.Tests.Fixtures.{toy, no_credentials, root_grant, gateway_key}

rsa_verify_with_kid-sign_example :
    (sig : String) × (rsa_sign_with_kid toy "content" (method_of "buiam-auth-system") no_credentials
      ≡ ok sig)
    × (rsa_verify_with_kid toy "content" sig (method_of "buiam-auth-system") no_credentials
        ≡ ok true)
rsa_verify_with_kid-sign_example =
    rsa_verify_with_kid-sign toy (method_of "buiam-auth-system") no_credentials "content"
      gateway_key

build_delegation_credential-integrity_example :
    (c : DelegationCredential) × (build_delegation_credential toy root_grant no_credentials ≡ ok c)
    × (verify_credential_integrity toy c no_credentials ≡ true)
build_delegation_credential-integrity_example =
    build_delegation_credential-integrity toy root_grant no_credentials refl tt gateway_key

build_agent_capability_vc-integrity_example :
    (c : DelegationCredential) × (build_agent_capability_vc toy "data_agent"
        ("report:read" ∷ [])
        ""
        "internal"
        30
        no_credentials
      ≡ ok c)
    × (verify_credential_integrity toy c no_credentials ≡ true)
build_agent_capability_vc-integrity_example =
    build_agent_capability_vc-integrity toy "data_agent" ("report:read" ∷ []) "" "internal" 30
      no_credentials refl gateway_key
