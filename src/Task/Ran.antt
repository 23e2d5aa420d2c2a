-- ===== src/Task/Ran.antt =====
-- kernel/src/task.rs: `step` in the fields of the tasks, without its own helpers.
use jing_os.Base.{
  ℕ, ◌+◌, ◌-◌, ◌%◌, ◌^◌, ◌≤◌, ◌<◌, ◌≡◌, ◌≢◌, refl, ap, ◌⊎◌, inl, inr, true, Option, none, some,
  List, [], ◌∷◌, map, arith, get_or, set, min,
}
use jing_os.Task.Data.{
  TaskState, ready, running, sleeping, TaskInfo, TaskTable, TaskStepReport, is_ready,
}
use jing_os.Task.Table.{wake_slot, wake_due, step}
use jing_os.Task.Slots.{AllTasks, AllTasks-get_or, Holds}
use jing_os.Task.Loops.{woken, wake_slots-map}
use jing_os.Task.Invariant.{IsValid}
use jing_os.Task.Select.{ReadyLe, NotReady}
use jing_os.Task.Step.{Picks, Stepped, stepped_lem}
use jing_os.Task.Spec.{awake_at}

-- The table when the clock has reached `now`: every sleeper whose tick has come is ready.
abbrev pub awake_table : ℕ → TaskTable → TaskTable
awake_table now t = record t { slots = map (awake_at now) t.slots }

-- A slot of the table holds a task.
abbrev pub At : TaskTable → ℕ → TaskInfo → Type 0
At t i task = get_or t.slots i none ≡ some task

-- The task to run: it is ready, no ready task has a higher priority, and between `next_rr_index` and
-- its slot, going round the eight slots, there is no ready task of the same priority.
pub record Chosen (t : TaskTable) (i : ℕ) (task : TaskInfo) : Type 0 where
  pub in_range : i < 8
  pub here : At t i task
  pub can_run : task.state ≡ ready
  pub highest :
      (j : ℕ) (other : TaskInfo)
      → At t j other
      → other.state ≡ ready
      → other.priority ≤ task.priority
  pub first :
      (j : ℕ) (other : TaskInfo)
      → j < (i + 8 - t.next_rr_index) % 8
      → At t ((t.next_rr_index + j) % 8) other
      → other.state ≡ ready
      → other.priority ≢ task.priority

-- What a step does from the table on in which the due tasks are awake.
abbrev pub StepsTo : TaskTable → Option TaskStepReport × TaskTable → Type 0
StepsTo t out =
    (((i : ℕ) (task : TaskInfo) → At t i task → task.state ≢ ready) × (out ≡ (none, t)))
    ⊎ ((i : ℕ) × (task : TaskInfo) × Chosen t i task
        × (out ≡ (
          some (record {
            id = task.id;
            kind = task.kind;
            run_count = min (task.run_count + 1) (2 ^ 64 - 1);
          }),
          record t {
            slots = set t.slots i (
                some (record task {
                  state = ready;
                  run_count = min (task.run_count + 1) (2 ^ 64 - 1);
                  sleep_until_tick = none;
                }));
            next_rr_index = (i + 1) % 8;
          },
        )))

awake_at_lem : (now : ℕ) (slot : Option TaskInfo) → woken now slot ≡ awake_at now slot
unfolding wake_slot
awake_at_lem now none = refl
awake_at_lem now (some task) = ground arith

map-awake :
    (now : ℕ) (slots : List (Option TaskInfo)) → map (woken now) slots ≡ map (awake_at now) slots
map-awake now [] = refl
map-awake now (slot ∷ rest) = cc (awake_at_lem now slot, map-awake now rest)

wake_due-awake : (now : ℕ) (t : TaskTable) → (wake_due now t).1 ≡ awake_table now t
unfolding wake_due
wake_due-awake now t =
    rw (wake_slots-map now t.slots 0)
      (ap (λ slots. record t { slots = slots }) (map-awake now t.slots))

is_ready→eq : (s : TaskState) → is_ready s ≡ true → s ≡ ready
is_ready→eq ready e = refl
is_ready→eq running e = cc
is_ready→eq sleeping e = cc

eq→is_ready : (s : TaskState) → s ≡ ready → is_ready s ≡ true
eq→is_ready s e = rw e refl

module _ (t : TaskTable) (i : ℕ) (task : TaskInfo) where
  idle_lem : AllTasks NotReady t.slots → At t i task → task.state ≢ ready
  idle_lem all at r =
      let q : Holds NotReady (some task) = rw at at (AllTasks-get_or NotReady t.slots i all) in
      let e = eq→is_ready task.state r in cc

  chosen_lem : Picks t i task → Chosen t i task
  chosen_lem p = record {
    in_range = p.in_range;
    here = p.here;
    can_run = is_ready→eq task.state p.can_run;
    highest = λ j other at r.
        let q : Holds (ReadyLe task.priority) (some other) =
          rw at at (AllTasks-get_or (ReadyLe task.priority) t.slots j p.highest) in
        q (eq→is_ready other.state r);
    first = λ j other lt at r same.
        p.first j lt (rw at (let e = eq→is_ready other.state r in ground (arith, e, same)));
  }

StepsTo_lem :
    (t : TaskTable) (out : Option TaskStepReport × TaskTable) → Stepped t out → StepsTo t out
StepsTo_lem t out (inl (all, e)) = inl ((λ i task. idle_lem t i task all), e)
StepsTo_lem t out (inr (i, task, p, e)) = inr (i, task, chosen_lem t i task p, e)

-- On a valid table a step first wakes every sleeping task whose tick has come. Then, if no task is
-- ready, it reports nothing and changes nothing more. Otherwise it takes, of the ready tasks of the
-- highest priority, the first one from `next_rr_index` on; it reports this task's identifier, its kind
-- and its number of runs, which is one more than before (or stays at the largest 64-bit number);
-- it writes that number into the task, leaves the other fields and the other slots as they are, and
-- sets `next_rr_index` to the slot behind the task's.
pub step_lem : (now : ℕ) (t : TaskTable) → IsValid t → StepsTo (awake_table now t) (step now t)
step_lem now t v =
    StepsTo_lem (awake_table now t) (step now t)
      (rw (wake_due-awake now t) at (stepped_lem now t v))
