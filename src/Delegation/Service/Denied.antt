-- ===== src/Delegation/Service/Denied.antt =====
-- app/delegation/service.py: `raise_for_denied`, with all that the refused caller is told.
pub mod Allowed
use bu_iam.Prelude.{String, List, [], ◌∷◌, not, Bool, true, false, if◌then◌else◌}
use bu_iam.Json.{Json, text, bool, obj, Fields, end, field, texts, texts_items}
use bu_iam.Prelude.Result.{Result, ok, err}
use bu_iam.Protocol.{Verdict, deny}
use bu_iam.Protocol.Decision.{DelegationDecision}
use bu_iam.Protocol.Errors.{Exception, http_detail, Read}

abbrev pub is_deny : Verdict → Bool
is_deny deny = true
is_deny _ = false

unfoldable missing_fields : List (String × List String) → Fields
unfolding texts_items
missing_fields [] = end
missing_fields ((who, missing) ∷ rest) = field who (texts missing) (missing_fields rest)

unfoldable pub denied_detail : DelegationDecision → Fields
unfolding missing_fields texts_items
denied_detail d = field "error" (text "delegation_denied") (
    field "error_code" (text "AUTH_DELEGATION_DENIED") (
      field "reason" (text d.reason) (
        field "effective_capabilities" (texts d.effective_capabilities) (
          field "missing_capabilities" (texts d.missing_capabilities) (
            field "missing_by" (obj (missing_fields d.missing_by)) (
              field "recoverable" (bool d.recoverable)
                (field "suggested_agents" (texts d.suggested_agents) end)))))))

unfoldable pub raise_for_denied : DelegationDecision → Read (Unit {0})
raise_for_denied d = if is_deny d.decision then err (http_detail 403 (denied_detail d)) else ok tt
