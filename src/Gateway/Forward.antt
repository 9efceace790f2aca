-- ===== src/Gateway/Forward.antt =====
-- app/gateway/routes.py: `forward_to_agent`. Whatever the network does, the task is unregistered.
pub mod Finished
use bu_iam.Prelude.{ℕ, String, Bool, false, ◌≡◌, refl, Option, List, or_text, arith}
use bu_iam.Prelude.Result.{Result, ok, err}
use bu_iam.Prelude.Exec.{pure, raise, modify, ◌>>=◌, ◌>>◌}
use bu_iam.Json.{text, num, end, field}
use bu_iam.Protocol.{DelegationEnvelope, AgentTaskResponse}
use bu_iam.Protocol.Errors.{Exception, http_detail, http_exception}
use bu_iam.World.{World}
use bu_iam.Store.Audit.{record_decision}
use bu_iam.Runtime.Tasks.{Tasks, register_task, unregister_task, mem, tasks_of}
use bu_iam.Gateway.Server.{
  Server, Handler, Posted, answered, cancelled, refused, unreachable, broken, Outside,
}
use bu_iam.Gateway.Decisions.{cancelled_decision}

abbrev pub on_tasks : (Tasks → Tasks) → Server → Server
on_tasks f s = record s { tasks = f s.tasks }

abbrev pub cancelled_reason : String → String
cancelled_reason message = or_text message "token_revoked"

unfoldable pub task_cancelled : String → Exception
task_cancelled reason =
    http_detail 409 (field "error_code" (text "TASK_CANCELLED") (field "reason" (text reason) end))

unfoldable pub agent_error : ℕ → String → Exception
agent_error status body = http_detail 502 (
    field "error_code" (text "TARGET_AGENT_ERROR")
      (field "status_code" (num status) (field "message" (text body) end)))

-- the `except` clauses
unfoldable pub answer_of : DelegationEnvelope → Posted → Handler AgentTaskResponse
unfolding cancelled_decision record_decision task_cancelled agent_error
answer_of e (answered response) s = (ok response, s)
answer_of e (cancelled message) s = (
  err (task_cancelled (cancelled_reason message)),
  record s { world = record_decision e (cancelled_decision (cancelled_reason message) e) s.world },
)
answer_of e (refused status body) s = (err (agent_error status body), s)
answer_of e (unreachable message) s =
    (err (http_exception 502 "TARGET_AGENT_UNREACHABLE" message), s)
answer_of e (broken x) s = (err x, s)

-- the `finally` clause
unfoldable pub close_task :
    DelegationEnvelope
    → ℕ
    → Result Exception AgentTaskResponse × Server
    → Result Exception AgentTaskResponse × Server
unfolding unregister_task
close_task e task answer = (answer.0, on_tasks (unregister_task e.trace_id task) answer.1)

-- the answer of the awaited task, from the state in which it has been registered
unfoldable pub await_answer : Outside → String → DelegationEnvelope → Handler AgentTaskResponse
unfolding answer_of
await_answer out endpoint e s = let went = out.post endpoint e s in answer_of e went.0 went.1

unfoldable pub forward_to_agent : Outside → String → DelegationEnvelope → Handler AgentTaskResponse
unfolding register_task await_answer close_task
forward_to_agent out endpoint e s =
    let task = out.new_task s in
    close_task e task (await_answer out endpoint e (on_tasks (register_task e.trace_id task) s))
