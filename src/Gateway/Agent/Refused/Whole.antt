-- ===== src/Gateway/Agent/Refused/Whole.antt =====
-- The whole of `agent_task` (app/gateway/routes.py): what it refuses is in the audit log.
use bu_iam.Prelude.{String, ◌≡◌, refl, ap, subst, Option, none, some}
use bu_iam.Prelude.Result.{Result, err}
use bu_iam.Prelude.Exec.{pair-eta}
use bu_iam.Json.{Fields}
use bu_iam.Libs.{Libs}
use bu_iam.Protocol.{DelegationEnvelope}
use bu_iam.Protocol.Errors.{Exception, detail_of}
use bu_iam.World.{World}
use bu_iam.Gateway.Server.{Server, Outside}
use bu_iam.Gateway.Audited.{
  DeniedLast, IsAudited, returns, inner, recorded, continue-IsAudited, handle-IsAudited,
  IsAudited-row,
}
use bu_iam.Gateway.Forward.{forward_to_agent}
use bu_iam.Gateway.Checks.{refuse}
use bu_iam.Gateway.Agent.{Prepared, refuse_forward, failed_decision, send_task, agent_task}
use bu_iam.Gateway.Agent.Cleared.{prepare_task-Cleared}
use bu_iam.Gateway.Agent.Refused.{ModelsInternal, prepare_task-Audited}
use bu_iam.Gateway.Bearer.Audited.{Audited, whole, move-Audited, row-Audited}

abbrev tables : Server → World
tables s = s.world

-- a method of the tables in a handler
on_world-IsAudited :
    {A : Type 0} (trace request : String) (s : Server) (r : Result Exception A) (w : World)
    → IsAudited whole trace request r w
    → IsAudited tables trace request r (record s { world = w })
on_world-IsAudited trace request s r w (returns a _) = returns a _
on_world-IsAudited trace request s r w (inner x _ h) = inner x _ h
on_world-IsAudited trace request s r w (recorded x _ row) = recorded x _ row

refuse_forward-Audited :
    (lib : Libs) (p : Prepared) (x : Exception) (o : Option Fields) (w : World)
    → detail_of x ≡ o
    → Audited p.trusted (refuse_forward lib p o x w)
unfolding refuse_forward refuse failed_decision
refuse_forward-Audited lib p x none w told = inner x w told
refuse_forward-Audited lib p x (some detail) w told = row-Audited p.trusted _ _ _ refl

send_task-IsAudited :
    (lib : Libs) (out : Outside) (p : Prepared) (e : DelegationEnvelope) (s : Server)
    → p.trusted.trace_id ≡ e.trace_id
    → p.trusted.request_id ≡ e.request_id
    → IsAudited tables e.trace_id e.request_id (send_task lib out p s).0 (send_task lib out p s).1
unfolding send_task
send_task-IsAudited lib out p e s trace request = handle-IsAudited _ _ _ (λ x raised.
    on_world-IsAudited e.trace_id e.request_id (forward_to_agent out p.endpoint p.authorized s).1 _
      _
      (move-Audited e p.trusted _ trace request
        (refuse_forward-Audited lib p x (detail_of x) _ refl)))

agent_task-IsAudited :
    (lib : Libs) (out : Outside) (target_id : String) (e : DelegationEnvelope)
    (authorization : Option String) (s : Server)
    → ModelsInternal out
    → (let q = agent_task lib out target_id e authorization s in
        IsAudited tables e.trace_id e.request_id q.0 q.1)
unfolding agent_task
agent_task-IsAudited lib out target_id e authorization s models =
    continue-IsAudited _ _ _
      (on_world-IsAudited e.trace_id e.request_id s _ _
        (prepare_task-Audited lib out target_id e authorization s.world models))
      (λ p prepared.
        let c =
          prepare_task-Cleared lib out target_id e authorization s.world _ p
            (pair-eta _ prepared) in
        send_task-IsAudited lib out p e _
          (ap (λ (x : DelegationEnvelope). x.trace_id) c.permitted.trusted)
          (ap (λ (x : DelegationEnvelope). x.request_id) c.permitted.trusted))

-- If neither the intent generator nor the judge raises an HTTPException, every HTTPException that
-- `agent_task` raises leaves a denial of the request, under its trace and request ids, as the
-- newest row of the audit log, whatever the target and the rest of the program do meanwhile.
pub agent_task-DeniedLast :
    (lib : Libs) (out : Outside) (target_id : String) (e : DelegationEnvelope)
    (authorization : Option String) (s s' : Server) (x : Exception) (detail : Fields)
    → ModelsInternal out
    → agent_task lib out target_id e authorization s ≡ (err x, s')
    → detail_of x ≡ some detail
    → DeniedLast e.trace_id e.request_id s'.world
agent_task-DeniedLast lib out target_id e authorization s s' x detail models raised told =
    subst (λ (v : Server). DeniedLast e.trace_id e.request_id v.world) (ap (λ q. q.1) raised)
      (IsAudited-row x detail (agent_task-IsAudited lib out target_id e authorization s models)
        (ap (λ q. q.0) raised) told)
