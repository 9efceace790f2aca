-- ===== src/Gateway/Forward/Finished.antt =====
-- However a forwarded task ends, `forward_to_agent` (app/gateway/routes.py) has unregistered it.
use bu_iam.Prelude.{ℕ, String, ◌≡◌, false}
use bu_iam.Prelude.Result.{Result}
use bu_iam.Protocol.Errors.{Exception}
use bu_iam.Protocol.{AgentTaskResponse, DelegationEnvelope}
use bu_iam.Runtime.Tasks.{register_task}
use bu_iam.Runtime.Tasks.Steps.{runs_in}
use bu_iam.Runtime.Tasks.Gone.{unregister_task-gone}
use bu_iam.Gateway.Server.{Server, Outside}
use bu_iam.Gateway.Forward.{on_tasks, close_task, await_answer, forward_to_agent}

close_task-gone :
    (e : DelegationEnvelope) (task : ℕ) (answer : Result Exception AgentTaskResponse × Server)
    → runs_in e.trace_id task (close_task e task answer).1.tasks ≡ false
unfolding close_task
close_task-gone e task answer = unregister_task-gone e.trace_id task answer.1.tasks

-- However the await of the target ends, and whatever the rest of the program does meanwhile, the
-- task that `forward_to_agent` has made no longer runs in the envelope's trace when it is done.
pub forward_to_agent-gone :
    (out : Outside) (endpoint : String) (e : DelegationEnvelope) (s : Server)
    → runs_in e.trace_id (out.new_task s) (forward_to_agent out endpoint e s).1.tasks ≡ false
unfolding forward_to_agent
forward_to_agent-gone out endpoint e s =
    close_task-gone e (out.new_task s)
      (await_answer out endpoint e (on_tasks (register_task e.trace_id (out.new_task s)) s))
