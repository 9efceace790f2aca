-- ===== src/Gateway/Audited.antt =====
-- Handlers of app/gateway/routes.py that leave a row of the audit log for what they refuse.
use bu_iam.Prelude.{
  ℕ, String, ◌≡◌, refl, ◌∙◌, Bool, true, false, Option, none, some, List, [], ◌∷◌, ◌++◌,
  if◌then◌else◌,
}
use bu_iam.Prelude.Result.{Result, ok, err}
use bu_iam.Prelude.Exec.{continue, handle}
use bu_iam.Json.{Fields}
use bu_iam.Protocol.{deny, DelegationHop, DelegationEnvelope}
use bu_iam.Protocol.Decision.{DelegationDecision}
use bu_iam.Protocol.Errors.{Exception, detail_of, Read}
use bu_iam.Protocol.Errors.Internal.{IsInternal}
use bu_iam.World.{World, AuditRow}
use bu_iam.Store.Audit.{
  append_log, audit_row, decision_detail, record_decision, should_append_current_hop,
}

-- The newest row of the audit log denies this request of this trace.
pub record DeniedLast (trace request : String) (w : World) : Type 0 where
  pub older : List AuditRow
  pub row : AuditRow
  pub last : w.audit_logs ≡ older ++ row ∷ []
  pub in_trace : row.trace_id ≡ trace
  pub of_request : row.request_id ≡ request
  pub denies : row.decision ≡ deny

-- The newest row of the audit log is that of this decision on this envelope.
pub record Logged (e : DelegationEnvelope) (d : DelegationDecision) (w : World) : Type 0 where
  pub older : List AuditRow
  pub row : AuditRow
  pub last : w.audit_logs ≡ older ++ row ∷ []
  pub in_trace : row.trace_id ≡ e.trace_id
  pub of_request : row.request_id ≡ e.request_id
  pub caller : row.caller_agent_id ≡ e.caller_agent_id
  pub target : row.target_agent_id ≡ e.target_agent_id
  pub decision : row.decision ≡ d.decision
  pub reason : row.reason ≡ d.reason
  pub effective : row.effective_capabilities ≡ d.effective_capabilities
  pub detail : row.decision_detail ≡ decision_detail e d

if-Logged :
    (e : DelegationEnvelope) (d : DelegationDecision) (test : Bool) (w w' : World)
    → Logged e d w
    → Logged e d w'
    → Logged e d (if test then w else w')
if-Logged e d true w w' h h' = h
if-Logged e d false w w' h h' = h'

append_log-Logged :
    (e : DelegationEnvelope) (d : DelegationDecision) (chain : List DelegationHop) (now : ℕ)
    (w : World)
    → Logged e d (append_log (audit_row e d chain now) w)
unfolding append_log audit_row
append_log-Logged e d chain now w = record {
  older = w.audit_logs;
  row = audit_row e d chain now;
  last = refl;
  in_trace = refl;
  of_request = refl;
  caller = refl;
  target = refl;
  decision = refl;
  reason = refl;
  effective = refl;
  detail = refl;
}

pub record_decision-Logged :
    (e : DelegationEnvelope) (d : DelegationDecision) (w : World)
    → Logged e d (record_decision e d w)
unfolding record_decision
record_decision-Logged e d w =
    if-Logged e d (should_append_current_hop e d) _ _ (append_log-Logged e d _ w.clock _)
      (append_log-Logged e d _ w.clock _)

pub record_decision-DeniedLast :
    (e : DelegationEnvelope) (d : DelegationDecision) (w : World)
    → d.decision ≡ deny
    → DeniedLast e.trace_id e.request_id (record_decision e d w)
record_decision-DeniedLast e d w denies =
    let logged = record_decision-Logged e d w in
    record {
      older = logged.older;
      row = logged.row;
      last = logged.last;
      in_trace = logged.in_trace;
      of_request = logged.of_request;
      denies = logged.decision ∙ denies;
    }

-- An `HTTPException` is raised with such a row.
pub data IsAudited {S A : Type 0} (tables : S → World) (trace request : String)
    : Result Exception A → S → Type 0 where
  returns : (a : A) (s : S) → IsAudited tables trace request (ok a) s
  inner : (x : Exception) (s : S) → detail_of x ≡ none → IsAudited tables trace request (err x) s
  recorded :
      (x : Exception) (s : S)
      → DeniedLast trace request (tables s)
      → IsAudited tables trace request (err x) s

module _ {S A : Type 0} {tables : S → World} {trace request : String} where
  pub internal-IsAudited : (r : Read A) (s : S) → IsInternal r → IsAudited tables trace request r s
  internal-IsAudited r s (IsInternal.returns a) = returns a s
  internal-IsAudited r s (IsInternal.raises x h) = inner x s h

  pub handle-IsAudited :
      (h : Exception → S → Result Exception A × S) (r : Read A) (s : S)
      → ((x : Exception) → r ≡ err x → IsAudited tables trace request (h x s).0 (h x s).1)
      → IsAudited tables trace request (handle h r s).0 (handle h r s).1
  unfolding handle
  handle-IsAudited h (ok a) s handled = returns a s
  handle-IsAudited h (err x) s handled = handled x refl

  pub continue-IsAudited :
      {B : Type 0} (f : A → S → Result Exception B × S) (r : Read A) (s : S)
      → IsAudited tables trace request r s
      → ((a : A) → r ≡ ok a → IsAudited tables trace request (f a s).0 (f a s).1)
      → IsAudited tables trace request (continue f r s).0 (continue f r s).1
  unfolding continue
  continue-IsAudited f r s (returns a _) next = next a refl
  continue-IsAudited f r s (inner x _ h) next = inner x s h
  continue-IsAudited f r s (recorded x _ row) next = recorded x s row

  pub if-IsAudited :
      (test : Bool) (m n : Result Exception A × S)
      → IsAudited tables trace request m.0 m.1
      → IsAudited tables trace request n.0 n.1
      → IsAudited tables trace request (if test then m else n).0 (if test then m else n).1
  if-IsAudited true m n hm hn = hm
  if-IsAudited false m n hm hn = hn

  pub elim-IsAudited :
      {B : Type 0} (o : Option B) (m : Result Exception A × S) (f : B → Result Exception A × S)
      → IsAudited tables trace request m.0 m.1
      → ((b : B) → IsAudited tables trace request (f b).0 (f b).1)
      → (let q : Result Exception A × S = elim o [ none ↦ m | some b ↦ f b ] in
          IsAudited tables trace request q.0 q.1)
  elim-IsAudited none m f hm hf = hm
  elim-IsAudited (some b) m f hm hf = hf b

  pub IsAudited-row :
      {r : Result Exception A} {s : S} (x : Exception) (detail : Fields)
      → IsAudited tables trace request r s
      → r ≡ err x
      → detail_of x ≡ some detail
      → DeniedLast trace request (tables s)
  IsAudited-row x detail (returns a s) raised told = absurd (cc raised)
  IsAudited-row x detail (inner y s h) raised told = absurd (cc (raised, told, h))
  IsAudited-row x detail (recorded y s row) raised told = row
