-- ===== src/Tests/Gateway.antt =====
-- The context of a task (app/gateway/routes.py), on the small system.
pub mod Agent
mod Refused
use bu_iam.Prelude.{◌≡◌, refl, ◌⊎◌, none, some}
use bu_iam.Prelude.Result.{ok}
use bu_iam.Protocol.{AuthContext}
use bu_iam.Store.Credentials.{get_credential}
use bu_iam.Store.DidRegistry.{get_did_document}
use bu_iam.Delegation.Credential.Check.{verify_credential_integrity}
use bu_iam.Delegation.Credential.Context.{auth_context_from_credential}
use bu_iam.Delegation.Branch.{validate_credential_branch, check_self, check_link, check_root}
use bu_iam.Delegation.Service.{validate_auth_context_credential}
use bu_iam.Gateway.Context.{
  Held, named_credential, trusted_auth_context_for_envelope, trusted_auth_context-Held,
}
use bu_iam.Tests.Fixtures.{toy, with_root, task, root_context}

-- the same agent's token, without a credential
abbrev bearer_context : AuthContext
bearer_context = record root_context { credential_id = none }

root_context-trusted :
    trusted_auth_context_for_envelope toy task bearer_context with_root ≡ ok root_context
unfolding trusted_auth_context_for_envelope validate_auth_context_credential
    validate_credential_branch auth_context_from_credential check_self check_link check_root
    verify_credential_integrity get_did_document get_credential
root_context-trusted = refl

trusted_auth_context-Held_example :
    ((named_credential task.auth_context ≡ none) × (root_context ≡ bearer_context))
    ⊎ ((task.auth_context ≡ some root_context)
        × Held toy with_root task bearer_context root_context)
trusted_auth_context-Held_example =
    trusted_auth_context-Held toy task bearer_context root_context with_root root_context-trusted
