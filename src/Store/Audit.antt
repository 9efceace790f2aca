-- ===== src/Store/Audit.antt =====
-- app/store/audit.py: a row of the audit log, and the hops of its chain, for each decision.
use bu_iam.Prelude.{
  ℕ, String, Bool, true, false, not, ◌&&◌, Option, none, some, List, [], ◌∷◌, ◌++◌, ◌==◌,
  if◌then◌else◌, ◌+◌, ◌-◌, ◌*◌, ltb,
}
use bu_iam.Libs.{Libs}
use bu_iam.Protocol.{Verdict, allow, root, DelegationHop, AuthContext, DelegationEnvelope}
use bu_iam.Protocol.Decision.{DelegationDecision, DecisionDetail, to_detail}
use bu_iam.World.{World, AuditRow, AuthEventRow, ChainRow}
use bu_iam.Store.Chain.{append_chain_hop, append_chain_hops_if_empty}

abbrev pub is_allow : Verdict → Bool
is_allow allow = true
is_allow _ = false

abbrev pub is_root : Verdict → Bool
is_root root = true
is_root _ = false

-- delegation_chain[-1], if there is one
unfoldable pub last_hop : List DelegationHop → Option DelegationHop
last_hop [] = none
last_hop (h ∷ []) = some h
last_hop (h ∷ k ∷ hs) = last_hop (k ∷ hs)

unfoldable pub delegation_decision_hop : DelegationEnvelope → DelegationDecision → DelegationHop
delegation_decision_hop e d = record {
  from_actor = e.caller_agent_id;
  to_agent_id = e.target_agent_id;
  task_type = e.task_type;
  delegated_capabilities = if is_allow d.decision then d.effective_capabilities else [];
  missing_capabilities = d.missing_capabilities;
  decision = d.decision;
}

-- the last hop is the root hop of this very caller
unfoldable pub repeats_root : DelegationEnvelope → Bool
unfolding last_hop
repeats_root e = elim (last_hop e.delegation_chain) [
  | none ↦ false
  | some h ↦ is_root h.decision && e.caller_agent_id == h.from_actor
]

unfoldable pub should_append_current_hop : DelegationEnvelope → DelegationDecision → Bool
unfolding repeats_root
should_append_current_hop e d = not (is_allow d.decision && repeats_root e)

unfoldable pub with_context : Option AuthContext → DecisionDetail → DecisionDetail
with_context none detail = detail
with_context (some a) detail = record detail {
  auth_event_recorded = true;
  token_jti = some a.jti;
  token_agent_id = some a.agent_id;
  credential_id = a.credential_id;
  parent_credential_id = a.parent_credential_id;
  root_credential_id = a.root_credential_id;
}

-- `decision_detail_json`, before it is dumped
unfoldable pub decision_detail : DelegationEnvelope → DelegationDecision → DecisionDetail
unfolding to_detail with_context
decision_detail e d = with_context e.auth_context (to_detail d)

unfoldable pub audit_row :
    DelegationEnvelope → DelegationDecision → List DelegationHop → ℕ → AuditRow
unfolding decision_detail
audit_row e d chain now = record {
  trace_id = e.trace_id;
  request_id = e.request_id;
  caller_agent_id = e.caller_agent_id;
  target_agent_id = e.target_agent_id;
  requested_capabilities = e.requested_capabilities;
  effective_capabilities = d.effective_capabilities;
  decision = d.decision;
  reason = d.reason;
  delegation_chain = chain;
  decision_detail = decision_detail e d;
  created_at = now;
}

unfoldable pub append_log : AuditRow → World → World
append_log row w = record w { audit_logs = w.audit_logs ++ row ∷ [] }

unfoldable pub record_decision : DelegationEnvelope → DelegationDecision → World → World
unfolding append_chain_hops_if_empty append_chain_hop should_append_current_hop
    delegation_decision_hop audit_row append_log
record_decision e d w =
    let w₁ = append_chain_hops_if_empty e.trace_id e.request_id e.delegation_chain w in
    let hop = delegation_decision_hop e d in
    if should_append_current_hop e d
    then append_log (audit_row e d (e.delegation_chain ++ hop ∷ []) w.clock)
        (append_chain_hop e.trace_id e.request_id hop w₁)
    else append_log (audit_row e d e.delegation_chain w.clock) w₁

-- the WHERE clause, where a trace is asked for
abbrev pub log_matches : Option String → AuditRow → Bool
log_matches none r = true
log_matches (some t) r = r.trace_id == t

unfoldable pub logs_of : Option String → List AuditRow → List AuditRow
logs_of t [] = []
logs_of t (r ∷ rs) = let rest = logs_of t rs in if log_matches t r then r ∷ rest else rest

unfoldable pub list_logs : Option String → World → List AuditRow
unfolding logs_of
list_logs t w = logs_of t w.audit_logs

-- DELETE … WHERE created_at < ?, on each of the three tables
unfoldable pub recent_logs : ℕ → List AuditRow → List AuditRow
recent_logs cutoff [] = []
recent_logs cutoff (r ∷ rs) =
    let rest = recent_logs cutoff rs in if ltb r.created_at cutoff then rest else r ∷ rest

unfoldable pub recent_events : ℕ → List AuthEventRow → List AuthEventRow
recent_events cutoff [] = []
recent_events cutoff (r ∷ rs) =
    let rest = recent_events cutoff rs in if ltb r.created_at cutoff then rest else r ∷ rest

unfoldable pub recent_hops : ℕ → List ChainRow → List ChainRow
recent_hops cutoff [] = []
recent_hops cutoff (r ∷ rs) =
    let rest = recent_hops cutoff rs in if ltb r.created_at cutoff then rest else r ∷ rest

unfoldable pub old_hops : ℕ → List ChainRow → ℕ
old_hops cutoff [] = 0
old_hops cutoff (r ∷ rs) =
    let rest = old_hops cutoff rs in if ltb r.created_at cutoff then 1 + rest else rest

-- One cursor runs the three statements, so its `rowcount` is that of the last.
unfoldable pub cleanup_expired_audit_logs : Libs → ℕ → World → ℕ × World
unfolding recent_logs recent_events recent_hops old_hops
cleanup_expired_audit_logs lib retention_days w =
    let cutoff = lib.local_time (w.clock - retention_days * 86400) in
    (
      old_hops cutoff w.chain,
      record w {
        audit_logs = recent_logs cutoff w.audit_logs;
        auth_events = recent_events cutoff w.auth_events;
        chain = recent_hops cutoff w.chain;
      },
    )
