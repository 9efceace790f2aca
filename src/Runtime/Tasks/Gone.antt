-- ===== src/Runtime/Tasks/Gone.antt =====
-- What `unregister_task` (app/runtime/tasks.py) leaves of a task.
use bu_iam.Prelude.{
  ℕ, String, ◌≡◌, refl, inl, inr, false, List, [], ◌∷◌, arith, eq_refl, Bool-cases,
}
use bu_iam.Runtime.Tasks.{Entry, Tasks, mem, discard, tasks_of, has_entry, unregister_task}
use bu_iam.Runtime.Tasks.Steps.{runs_in, tasks_of-put_or_pop}

mem-discard_self : (x : ℕ) (xs : List ℕ) → mem x (discard x xs) ≡ false
unfolding mem discard
mem-discard_self x [] = refl
mem-discard_self x (y ∷ ys) = ground (arith, mem-discard_self x ys)

tasks_of-no_entry : (t : String) (es : List Entry) → has_entry t es ≡ false → tasks_of t es ≡ []
unfolding tasks_of has_entry
tasks_of-no_entry t [] h = refl
tasks_of-no_entry t (e ∷ es) h = ground (arith, tasks_of-no_entry t es, h)

-- A task that is unregistered does not run in the trace.
pub unregister_task-gone :
    (t : String) (x : ℕ) (s : Tasks) → runs_in t x (unregister_task t x s) ≡ false
unfolding unregister_task runs_in
unregister_task-gone t x s = elim (Bool-cases (has_entry t s.running)) [
  | inr absent ↦ rw (absent, tasks_of-no_entry t s.running absent) (unfold mem in refl)
  | inl present ↦
      rw (present, tasks_of-put_or_pop t t (discard x (tasks_of t s.running)) s.running, eq_refl t)
        (mem-discard_self x (tasks_of t s.running))
]
