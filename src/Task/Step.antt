-- ===== src/Task/Step.antt =====
-- kernel/src/task.rs: `step` against an independent description of the task it should run.
use jing_os.Base.{
  ℕ, ◌+◌, ◌-◌, ◌%◌, ◌<◌, ◌≡◌, refl, ◌⊎◌, inl, inr, true, Option, none, some, arith, get_or, set,
  set-set, Option-cases,
}
use jing_os.Task.Data.{TaskInfo, TaskTable, TaskStepReport, max_tasks, is_ready}
use jing_os.Task.Table.{
  wake_due, select_priority, is_candidate, select_index, report_of, start_task, finish_task,
  run_slot, step,
}
use jing_os.Task.Slots.{AllTasks}
use jing_os.Task.Invariant.{IsValid, wake_due-IsValid}
use jing_os.Task.Select.{
  ReadyLe, NotReady, Candidate, select_priority-some, select_priority-none, select_index-some,
  select_index-none,
}

-- How many slots after `next_rr_index` a slot comes in the ring.
abbrev pub turn : TaskTable → ℕ → ℕ
turn t i = (i + max_tasks - t.next_rr_index) % max_tasks

-- The ready task to run next: of the highest priority among the ready ones, and the first of
-- that priority in the ring.
pub record Picks (t : TaskTable) (i : ℕ) (task : TaskInfo) : Type 0 where
  pub in_range : i < max_tasks
  pub here : get_or t.slots i none ≡ some task
  pub can_run : is_ready task.state ≡ true
  pub highest : AllTasks (ReadyLe task.priority) t.slots
  pub first :
      (j : ℕ) → j < turn t i → ¬ Candidate task.priority t.slots ((t.next_rr_index + j) % max_tasks)

-- The table after slot `i` has run its task once.
abbrev pub ran : TaskTable → ℕ → TaskInfo → TaskTable
ran t i task = record t {
  slots = set t.slots i (some (finish_task (start_task task)));
  next_rr_index = (i + 1) % max_tasks;
}

run_slot-ran :
    (t : TaskTable) (i : ℕ) (task : TaskInfo)
    → get_or t.slots i none ≡ some task
    → run_slot i t ≡ (some (report_of (start_task task)), ran t i task)
unfolding run_slot
run_slot-ran t i task e = rw (e, run_slot) (rw (set-set t.slots i (some (start_task task))))

turn_at :
    (t : TaskTable) (i k : ℕ)
    → t.next_rr_index < 8
    → k < 8
    → i ≡ (t.next_rr_index + k) % 8
    → turn t i ≡ k
turn_at t i k h hk e = omega arith

at_turn :
    (t : TaskTable) (i : ℕ) → t.next_rr_index < 8 → i < 8 → (t.next_rr_index + turn t i) % 8 ≡ i
at_turn t i h hi = omega arith

candidate_task :
    (p : ℕ) (slot : Option TaskInfo)
    → is_candidate p slot ≡ true
    → (task : TaskInfo) × (slot ≡ some task) × (is_ready task.state ≡ true) × (task.priority ≡ p)
candidate_task p none c = cc
candidate_task p (some task) c = (task, refl, ground arith, ground arith)

abbrev pub Stepped : TaskTable → Option TaskStepReport × TaskTable → Type 0
Stepped w out =
    (AllTasks NotReady w.slots × (out ≡ (none, w)))
    ⊎ ((i : ℕ) × (task : TaskInfo) × Picks w i task
        × (out ≡ (some (report_of (start_task task)), ran w i task)))

-- `step` from the point at which the due tasks are awake.
step_awake :
    (now : ℕ) (t : TaskTable) → let w = (wake_due now t).1 in IsValid w → Stepped w (step now t)
step_awake now t v =
    let w = (wake_due now t).1 in
    elim (Option-cases (select_priority w.slots none)) [
      | inl e ↦ inl ((select_priority-none w.slots none e).0, unfold step in rw (e, step))
      | inr (p, e) ↦
          let (high, _, found) = select_priority-some w.slots none p e in
          elim (Option-cases (select_index w.slots w.next_rr_index p 0 max_tasks)) [
            | inl f ↦ elim found [
              | inl g ↦ cc
              | inr (i, lt, c) ↦ absurd (
                  select_index-none w.slots w.next_rr_index p 0 max_tasks f (turn w i) (omega arith)
                    (omega arith) (rw (at_turn w i v.in_ring (rw v.size at lt)) c))
            ]
            | inr (i, f) ↦
                let (k, _, hk, at, c, first) =
                  select_index-some w.slots w.next_rr_index p 0 max_tasks i f in
                let (task, here, can, same) = candidate_task p (get_or w.slots i none) c in
                inr (
                  i,
                  task,
                  record {
                    in_range = omega arith;
                    here = here;
                    can_run = can;
                    highest = rw same high;
                    first =
                        rw (same, turn_at w i k v.in_ring hk at) (λ j lt. first j (omega arith) lt);
                  },
                  unfold step in rw (e, step) (rw (f, step) (run_slot-ran w i task here)),
                )
          ]
    ]

pub stepped_lem : (now : ℕ) (t : TaskTable) → IsValid t → Stepped (wake_due now t).1 (step now t)
stepped_lem now t v = step_awake now t (wake_due-IsValid now t v)
