-- ===== src/Tests/Registry.antt =====
-- The theorems on app/registry/policy.py and app/runtime/tasks.py at small inputs.
use bu_iam.Prelude.{String, List, [], ◌∷◌}
use bu_iam.World.{World, PolicyRow, empty_world}
use bu_iam.Runtime.Tasks.{no_tasks, register_task, cancel_trace}
use bu_iam.Runtime.Tasks.Steps.{register, cancel, start, next, Covers, Reachable-Covers}

abbrev for_any : PolicyRow
for_any = record {
  subject_type = "agent";
  agent_type = "*";
  allowed_capabilities = "report:read" ∷ [];
}

abbrev with_policy : World
with_policy = record empty_world { policies = for_any ∷ [] }

abbrev asks : List String
asks = "report:read" ∷ "report:write" ∷ []

Reachable-Covers_example : Covers (
    register_task "trace" 2
      (cancel_trace "trace" "token_revoked" (register_task "trace" 1 no_tasks)).1)
Reachable-Covers_example = Reachable-Covers (
    next
      (next (next start (register "trace" 1 no_tasks))
        (cancel "trace" "token_revoked" (register_task "trace" 1 no_tasks)))
      (register "trace" 2
        (cancel_trace "trace" "token_revoked" (register_task "trace" 1 no_tasks)).1))
