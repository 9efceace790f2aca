-- ===== src/Runtime/Tasks/Steps.antt =====
-- However the calls of app/runtime/tasks.py interleave, no running task of a cancelled trace is
-- missed.
use bu_iam.Prelude.{
  ℕ, String, ◌≡◌, refl, sym, ◌∙◌, ap, subst, inl, inr, Bool, true, false, ◌||◌, Option, none, some,
  List, [], ◌∷◌, arith, ◌==◌, eq_iff, same_code, Bool-cases, if◌then◌else◌,
}
use bu_iam.Runtime.Tasks.{
  Entry, Reason, Asked, Tasks, no_tasks, mem, add, discard, tasks_of, put_tasks, pop_tasks,
  find_reason, put_reason, cancel_reason, is_done, ask_unless_done, ask_for, register_task,
  put_or_pop, has_entry, unregister_task, ask_all, cancel_trace,
}

-- A call of the module, or a task that ends by itself.
pub data Step : Tasks → Tasks → Type 0 where
  register : (t : String) (x : ℕ) (s : Tasks) → Step s (register_task t x s)
  unregister : (t : String) (x : ℕ) (s : Tasks) → Step s (unregister_task t x s)
  cancel : (t reason : String) (s : Tasks) → Step s (cancel_trace t reason s).1
  finish : (x : ℕ) (s : Tasks) → Step s (record s { done = x ∷ s.done })

pub data Reachable : Tasks → Type 0 where
  start : Reachable no_tasks
  next : {s s' : Tasks} → Reachable s → Step s s' → Reachable s'

unfoldable pub was_asked : ℕ → List Asked → Bool
was_asked x [] = false
was_asked x (a ∷ rest) = same_code a.task x || was_asked x rest

unfoldable pub runs_in : String → ℕ → Tasks → Bool
unfolding mem tasks_of
runs_in t x s = mem x (tasks_of t s.running)

-- Every running task of a trace with a reason is done or was asked to stop.
pub record Covers (s : Tasks) : Type 0 where
  pub none_missed :
      (t reason : String) (x : ℕ)
      → cancel_reason t s ≡ some reason
      → runs_in t x s ≡ true
      → (is_done x s || was_asked x s.asked) ≡ true

tasks_of-put :
    (t a : String) (xs : List ℕ) (es : List Entry)
    → tasks_of a (put_tasks t xs es) ≡ (if t == a then xs else tasks_of a es)
unfolding tasks_of put_tasks
tasks_of-put t a xs [] = refl
tasks_of-put t a xs (e ∷ es) =
    ground (arith, tasks_of-put t a xs es, eq_iff e.trace_id t, eq_iff t a, eq_iff e.trace_id a)

tasks_of-pop :
    (t a : String) (es : List Entry)
    → tasks_of a (pop_tasks t es) ≡ (if t == a then [] else tasks_of a es)
unfolding tasks_of pop_tasks
tasks_of-pop t a [] = ground arith
tasks_of-pop t a (e ∷ es) =
    ground (arith, tasks_of-pop t a es, eq_iff e.trace_id t, eq_iff t a, eq_iff e.trace_id a)

pub tasks_of-put_or_pop :
    (t a : String) (xs : List ℕ) (es : List Entry)
    → tasks_of a (put_or_pop t xs es) ≡ (if t == a then xs else tasks_of a es)
unfolding put_or_pop
tasks_of-put_or_pop t a [] es = tasks_of-pop t a es
tasks_of-put_or_pop t a (x ∷ xs) es = tasks_of-put t a (x ∷ xs) es

find_reason-put :
    (t a reason : String) (rs : List Reason)
    → find_reason a (put_reason t reason rs) ≡ (if t == a then some reason else find_reason a rs)
unfolding find_reason put_reason
find_reason-put t a reason [] = refl
find_reason-put t a reason (r ∷ rs) =
    ground
      (arith, find_reason-put t a reason rs, eq_iff r.trace_id t, eq_iff t a, eq_iff r.trace_id a)

pub same→≡ : (x y : ℕ) → same_code x y ≡ true → x ≡ y
same→≡ x y h = ground arith

mem-add_self : (x : ℕ) (xs : List ℕ) → mem x (add x xs) ≡ (same_code x x || mem x xs)
unfolding mem add
mem-add_self x xs = ground arith

mem-add : (x y : ℕ) (xs : List ℕ) → mem y (add x xs) ≡ (same_code x y || mem y xs)
unfolding mem add
mem-add x y xs = elim (Bool-cases (same_code x y)) [
  | inr other ↦ ground (arith, other)
  | inl same ↦
      subst (λ z. mem z (add x xs) ≡ (same_code x z || mem z xs)) (same→≡ x y same)
        (mem-add_self x xs)
]

mem-discard : (x y : ℕ) (xs : List ℕ) → mem y (discard x xs) ≡ true → mem y xs ≡ true
unfolding mem discard
mem-discard x y [] h = cc
mem-discard x y (z ∷ zs) h = ground (arith, mem-discard x y zs, h)

-- Asking never takes a call back.
asked-keep :
    (done : List ℕ) (x y : ℕ) (reason : String) (asked : List Asked)
    → was_asked y asked ≡ true
    → was_asked y (ask_unless_done done x reason asked) ≡ true
unfolding was_asked ask_unless_done
asked-keep done x y reason asked h = ground (arith, h)

asked_self :
    (done : List ℕ) (x : ℕ) (reason : String) (asked : List Asked)
    → (mem x done || was_asked x (ask_unless_done done x reason asked)) ≡ true
unfolding was_asked ask_unless_done
asked_self done x reason asked = ground arith

pub ask_all-keep :
    (done xs : List ℕ) (y : ℕ) (reason : String) (asked : List Asked)
    → was_asked y asked ≡ true
    → was_asked y (ask_all done xs reason asked) ≡ true
unfolding ask_all
ask_all-keep done [] y reason asked h = h
ask_all-keep done (x ∷ xs) y reason asked h =
    ask_all-keep done xs y reason (ask_unless_done done x reason asked)
      (asked-keep done x y reason asked h)

pub ask_all-mem :
    (done xs : List ℕ) (y : ℕ) (reason : String) (asked : List Asked)
    → mem y xs ≡ true
    → (mem y done || was_asked y (ask_all done xs reason asked)) ≡ true
unfolding ask_all mem
ask_all-mem done [] y reason asked h = absurd (cc)
ask_all-mem done (x ∷ xs) y reason asked h = elim (Bool-cases (same_code x y)) [
  | inr other ↦
      ask_all-mem done xs y reason (ask_unless_done done x reason asked) (ground (arith, other, h))
  | inl same ↦ elim (Bool-cases (mem y done)) [
    | inl over ↦ ground (arith, over)
    | inr live ↦
        let now : was_asked y (ask_unless_done done x reason asked) ≡ true =
          subst (λ z. was_asked y (ask_unless_done done z reason asked) ≡ true)
            (sym (same→≡ x y same)) (ground (arith, live, asked_self done y reason asked)) in
        ground (arith, ask_all-keep done xs y reason (ask_unless_done done x reason asked) now)
  ]
]

pub weaken : (b p q : Bool) → (b || p) ≡ true → (p ≡ true → q ≡ true) → (b || q) ≡ true
weaken true p q h f = refl
weaken false p q h f = f h

ask_for-keep :
    (done : List ℕ) (x y : ℕ) (o : Option String) (asked : List Asked)
    → was_asked y asked ≡ true
    → was_asked y (ask_for done x o asked) ≡ true
ask_for-keep done x y none asked h = h
ask_for-keep done x y (some reason) asked h = asked-keep done x y reason asked h

-- The task that is registered itself, in a trace with a reason.
ask_for_self :
    (done : List ℕ) (x y : ℕ) (reason : String) (o : Option String) (asked : List Asked)
    → same_code x y ≡ true
    → o ≡ some reason
    → (mem y done || was_asked y (ask_for done x o asked)) ≡ true
ask_for_self done x y reason o asked same has =
    subst (λ z. (mem z done || was_asked z (ask_for done x o asked)) ≡ true) (same→≡ x y same)
      (rw has (asked_self done x reason asked))

module _ (t : String) (x : ℕ) (s : Tasks) (c : Covers s) where
  -- What runs in the trace after a task is added ran there before, or is that task.
  runs-add :
      (a : String) (y : ℕ)
      → runs_in a y (register_task t x s) ≡ true
      → same_code x y ≡ false
      → runs_in a y s ≡ true
  unfolding runs_in register_task
  runs-add a y runs other = ground (
    arith,
    eq_iff t a,
    tasks_of-put t a (add x (tasks_of t s.running)) s.running,
    mem-add x y (tasks_of t s.running),
    runs,
    other,
  )

  -- Only the named trace has a new task.
  runs-trace :
      (a : String) (y : ℕ)
      → runs_in a y (register_task t x s) ≡ true
      → (t == a) ≡ false
      → runs_in a y s ≡ true
  unfolding runs_in register_task
  runs-trace a y runs other =
      subst (λ xs. mem y xs ≡ true)
        (tasks_of-put t a (add x (tasks_of t s.running)) s.running ∙ rw other) runs

  register-Covers : Covers (register_task t x s)
  unfolding register_task cancel_reason is_done
  register-Covers = record {
    none_missed = λ a reason y has runs. elim (Bool-cases (same_code x y)) [
      | inr other ↦
          weaken (mem y s.done) (was_asked y s.asked) _
            (c.none_missed a reason y has (runs-add a y runs other))
            (ask_for-keep s.done x y (find_reason t s.reasons) s.asked)
      | inl same ↦ elim (Bool-cases (t == a)) [
        | inr elsewhere ↦
            weaken (mem y s.done) (was_asked y s.asked) _
              (c.none_missed a reason y has (runs-trace a y runs elsewhere))
              (ask_for-keep s.done x y (find_reason t s.reasons) s.asked)
        | inl here ↦
            ask_for_self s.done x y reason (find_reason t s.reasons) s.asked same
              (ap (λ v. find_reason v s.reasons) ((eq_iff t a).0 here) ∙ has)
      ]
    ];
  }

  runs-remove :
      (a : String) (y : ℕ)
      → runs_in a y
          (record s { running = put_or_pop t (discard x (tasks_of t s.running)) s.running })
        ≡ true
      → runs_in a y s ≡ true
  unfolding runs_in
  runs-remove a y runs = ground (
    arith,
    eq_iff t a,
    tasks_of-put_or_pop t a (discard x (tasks_of t s.running)) s.running,
    mem-discard x y (tasks_of t s.running),
    runs,
  )

  unregister-Covers : Covers (unregister_task t x s)
  unfolding unregister_task cancel_reason is_done
  unregister-Covers = elim (Bool-cases (has_entry t s.running)) [
    | inr absent ↦ rw absent c
    | inl present ↦ rw present (record {
      none_missed = λ a reason y has runs. c.none_missed a reason y has (runs-remove a y runs);
    })
  ]

cancel-Covers : (t reason : String) (s : Tasks) → Covers s → Covers (cancel_trace t reason s).1
unfolding cancel_trace cancel_reason is_done runs_in
cancel-Covers t reason s c = record {
  none_missed = λ a why y has runs. elim (Bool-cases (t == a)) [
    | inl here ↦
        ask_all-mem s.done (tasks_of t s.running) y reason s.asked
          (ap (λ v. mem y (tasks_of v s.running)) ((eq_iff t a).0 here) ∙ runs)
    | inr elsewhere ↦
        weaken (mem y s.done) (was_asked y s.asked) _
          (c.none_missed a why y (sym (find_reason-put t a reason s.reasons ∙ rw elsewhere) ∙ has)
            runs)
          (ask_all-keep s.done (tasks_of t s.running) y reason s.asked)
  ];
}

finish-Covers : (x : ℕ) (s : Tasks) → Covers s → Covers (record s { done = x ∷ s.done })
unfolding is_done mem cancel_reason runs_in
finish-Covers x s c = record {
  none_missed = λ a why y has runs. ground (arith, c.none_missed a why y has runs);
}

Step-Covers : {s s' : Tasks} → Step s s' → Covers s → Covers s'
Step-Covers (register t x s) c = register-Covers t x s c
Step-Covers (unregister t x s) c = unregister-Covers t x s c
Step-Covers (cancel t reason s) c = cancel-Covers t reason s c
Step-Covers (finish x s) c = finish-Covers x s c

-- In every state that registering, unregistering, cancelling and ending of tasks reach from the
-- empty one, in whatever order they come, each running task of a trace that has a cancel reason is
-- done or has been asked to stop.
pub Reachable-Covers : {s : Tasks} → Reachable s → Covers s
unfolding cancel_reason
Reachable-Covers start = record {
  none_missed = λ t reason x has runs. absurd (unfold find_reason in cc has);
}
Reachable-Covers (next before step) = Step-Covers step (Reachable-Covers before)
