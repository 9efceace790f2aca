-- ===== src/Delegation/Service/Denied/Allowed.antt =====
-- A decision of `authorize` that `raise_for_denied` (app/delegation/service.py) lets pass.
use bu_iam.Prelude.{String, ◌≡◌, false, Option, none, some, List, arith}
use bu_iam.Prelude.Result.{ok, err}
use bu_iam.Libs.{Libs}
use bu_iam.Protocol.{allow, AuthContext, DelegationCredential, DelegationEnvelope}
use bu_iam.Protocol.Decision.{DelegationDecision}
use bu_iam.Protocol.Errors.{credential_error, value_error, Read}
use bu_iam.World.{World, Agent}
use bu_iam.Store.Agents.{get_agent}
use bu_iam.Delegation.Service.{
  Sets, parse_sets, validate_auth_context_credential, target_capabilities, get_agent_vc, denied,
  with_sets, decide, decide_parsed, decide_validated, authorize_context, authorize_target,
  authorize,
}
use bu_iam.Delegation.Service.Denied.{is_deny}

-- A decision that is not a denial allows.
abbrev pub IsFinal : Read DelegationDecision → Type 0
IsFinal out =
    (d : DelegationDecision) → out ≡ ok d → is_deny d.decision ≡ false → d.decision ≡ allow

decide-IsFinal :
    (lib : Libs) (s : Sets) (id : String) (w : World) → IsFinal (ok (decide lib s id w))
unfolding decide with_sets
decide-IsFinal lib s id w d h n = ground arith

parsed-IsFinal :
    (lib : Libs) (e : DelegationEnvelope) (out : Read Sets) (w : World)
    → IsFinal (decide_parsed lib e out w)
unfolding decide_parsed denied
parsed-IsFinal lib e (ok s) w d h n = decide-IsFinal lib s e.target_agent_id w d h n
parsed-IsFinal lib e (err (value_error message)) w d h n = ground arith
parsed-IsFinal lib e (err _) w d h n = cc

validated-IsFinal :
    (lib : Libs) (e : DelegationEnvelope) (a : AuthContext) (target : List String)
    (out : Read (Option DelegationCredential)) (w : World)
    → IsFinal (decide_validated lib e a target out w)
unfolding decide_validated denied
validated-IsFinal lib e a target (ok c) w d h n =
    parsed-IsFinal lib e (parse_sets lib e a target w) w d h n
validated-IsFinal lib e a target (err (credential_error code message)) w d h n = ground arith
validated-IsFinal lib e a target (err _) w d h n = cc

context-IsFinal :
    (lib : Libs) (e : DelegationEnvelope) (target : List String) (o : Option AuthContext)
    (w : World)
    → IsFinal (authorize_context lib e target o w)
unfolding authorize_context denied
context-IsFinal lib e target none w d h n = ground arith
context-IsFinal lib e target (some a) w d h n =
    ground (
      arith,
      validated-IsFinal lib e a target (validate_auth_context_credential lib (some a) w) w d,
    )

target-IsFinal :
    (lib : Libs) (e : DelegationEnvelope) (o : Option Agent) (w : World)
    → IsFinal (authorize_target lib e o w)
unfolding authorize_target denied
target-IsFinal lib e none w d h n = ground arith
target-IsFinal lib e (some t) w d h n =
    context-IsFinal lib e (target_capabilities (get_agent_vc lib e.target_agent_id w) t)
      e.auth_context w d h n

pub authorize-IsFinal :
    (lib : Libs) (e : DelegationEnvelope) (w : World) → IsFinal (authorize lib e w)
unfolding authorize
authorize-IsFinal lib e w = target-IsFinal lib e (get_agent e.target_agent_id w) w
