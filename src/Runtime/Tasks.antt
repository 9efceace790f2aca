-- ===== src/Runtime/Tasks.antt =====
-- app/runtime/tasks.py: the running tasks of each trace, and their cancellation. A task is a number;
-- the state also holds which tasks are done, and the calls of `task.cancel` that were scheduled.
pub mod Steps
pub mod Gone
use bu_iam.Prelude.{
  ℕ, ◌+◌, String, Bool, true, false, not, ◌||◌, Option, none, some, List, [], ◌∷◌, ◌==◌, same_code,
  length, if◌then◌else◌,
}

pub record Entry : Type 0 where
  pub trace_id : String
  pub tasks : List ℕ

pub record Reason : Type 0 where
  pub trace_id : String
  pub reason : String

pub record Asked : Type 0 where
  pub task : ℕ
  pub reason : String

pub record Tasks : Type 0 where
  pub running : List Entry
  pub reasons : List Reason
  pub done : List ℕ
  pub asked : List Asked

abbrev pub no_tasks : Tasks
no_tasks = record { running = []; reasons = []; done = []; asked = [] }

unfoldable pub mem : ℕ → List ℕ → Bool
mem x [] = false
mem x (y ∷ ys) = same_code y x || mem x ys

-- set.add, set.discard
unfoldable pub add : ℕ → List ℕ → List ℕ
unfolding mem
add x xs = if mem x xs then xs else x ∷ xs

unfoldable pub discard : ℕ → List ℕ → List ℕ
discard x [] = []
discard x (y ∷ ys) = let rest = discard x ys in if same_code y x then rest else y ∷ rest

-- the running tasks of a trace; a missing key has none
unfoldable pub tasks_of : String → List Entry → List ℕ
tasks_of t [] = []
tasks_of t (e ∷ es) = if e.trace_id == t then e.tasks else tasks_of t es

unfoldable pub put_tasks : String → List ℕ → List Entry → List Entry
put_tasks t xs [] = record { trace_id = t; tasks = xs } ∷ []
put_tasks t xs (e ∷ es) =
    if e.trace_id == t then record { trace_id = t; tasks = xs } ∷ es else e ∷ put_tasks t xs es

-- dict.pop(trace_id, None)
unfoldable pub pop_tasks : String → List Entry → List Entry
pop_tasks t [] = []
pop_tasks t (e ∷ es) = let rest = pop_tasks t es in if e.trace_id == t then rest else e ∷ rest

unfoldable pub find_reason : String → List Reason → Option String
find_reason t [] = none
find_reason t (r ∷ rs) = if r.trace_id == t then some r.reason else find_reason t rs

unfoldable pub put_reason : String → String → List Reason → List Reason
put_reason t reason [] = record { trace_id = t; reason = reason } ∷ []
put_reason t reason (r ∷ rs) =
    if r.trace_id == t
    then record { trace_id = t; reason = reason } ∷ rs
    else r ∷ put_reason t reason rs

unfoldable pub cancel_reason : String → Tasks → Option String
unfolding find_reason
cancel_reason t s = find_reason t s.reasons

-- task.done()
unfoldable pub is_done : ℕ → Tasks → Bool
unfolding mem
is_done x s = mem x s.done

-- call_soon_threadsafe(task.cancel, reason), unless the task is done
unfoldable pub ask_unless_done : List ℕ → ℕ → String → List Asked → List Asked
unfolding mem
ask_unless_done done x reason asked =
    if mem x done then asked else record { task = x; reason = reason } ∷ asked

abbrev pub ask_for : List ℕ → ℕ → Option String → List Asked → List Asked
ask_for done x none asked = asked
ask_for done x (some reason) asked = ask_unless_done done x reason asked

unfoldable pub register_task : String → ℕ → Tasks → Tasks
unfolding add tasks_of put_tasks ask_unless_done find_reason
register_task t x s = record s {
  running = put_tasks t (add x (tasks_of t s.running)) s.running;
  asked = ask_for s.done x (find_reason t s.reasons) s.asked;
}

-- An entry whose last task goes is popped.
unfoldable pub put_or_pop : String → List ℕ → List Entry → List Entry
unfolding put_tasks pop_tasks
put_or_pop t [] es = pop_tasks t es
put_or_pop t (x ∷ xs) es = put_tasks t (x ∷ xs) es

unfoldable pub has_entry : String → List Entry → Bool
has_entry t [] = false
has_entry t (e ∷ es) = if e.trace_id == t then true else has_entry t es

unfoldable pub unregister_task : String → ℕ → Tasks → Tasks
unfolding has_entry discard tasks_of put_or_pop
unregister_task t x s =
    if has_entry t s.running
    then record s { running = put_or_pop t (discard x (tasks_of t s.running)) s.running }
    else s

unfoldable pub ask_all : List ℕ → List ℕ → String → List Asked → List Asked
unfolding ask_unless_done
ask_all done [] reason asked = asked
ask_all done (x ∷ xs) reason asked = ask_all done xs reason (ask_unless_done done x reason asked)

-- The number of tasks that it asks, beside the new state.
unfoldable pub count_undone : List ℕ → List ℕ → ℕ
unfolding mem
count_undone done [] = 0
count_undone done (x ∷ xs) =
    let rest = count_undone done xs in if mem x done then rest else 1 + rest

unfoldable pub cancel_trace : String → String → Tasks → ℕ × Tasks
unfolding put_reason tasks_of ask_all count_undone
cancel_trace t reason s = (
  count_undone s.done (tasks_of t s.running),
  record s {
    reasons = put_reason t reason s.reasons;
    asked = ask_all s.done (tasks_of t s.running) reason s.asked;
  },
)

unfoldable pub cancel_traces : List String → String → Tasks → ℕ × Tasks
unfolding cancel_trace
cancel_traces [] reason s = (0, s)
cancel_traces (t ∷ ts) reason s =
    let first = cancel_trace t reason s in
    let rest = cancel_traces ts reason first.1 in (first.0 + rest.0, rest.1)
