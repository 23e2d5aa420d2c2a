-- ===== src/Task/History.antt =====
-- kernel/src/task.rs: the invariant after every history of calls on the static table.
use jing_os.Base.{
  ℕ, ◌+◌, ◌≤◌, ◌<◌, inl, inr, List, [], ◌∷◌, arith, length, Bool-cases, Option-cases, ◌==◌, u64_max,
}
use jing_os.Task.Data.{TaskTable, kernel_monitor, TaskKind}
use jing_os.Task.Table.{
  new, any_id, ensure_bootstrap_task, position_none, spawn, wake_due, step, run_slot,
}
use jing_os.Task.Control.{
  with_task, sleep_body, sleep, wake_body, wake, remove_body, remove, priority_body, set_priority,
  Call, init, spawns, steps, sleeps, wakes, removes, sets_priority, perform, perform_all, history,
}
use jing_os.Task.Invariant.{
  IsValid, below-Absent, any_id-Absent, put-IsValid, wake_due-IsValid, step-IsValid,
  with_task-IsValid,
}
use jing_os.Task.Bodies.{
  sleep_body-Keeps, wake_body-Keeps, remove_body-Keeps, priority_body-Keeps, sleep_body-IsGood,
  wake_body-IsGood, remove_body-IsGood, priority_body-IsGood,
}

pub new-IsValid : IsValid new
new-IsValid = omega arith

ensure_bootstrap_task-IsValid : (t : TaskTable) → IsValid t → IsValid (ensure_bootstrap_task t)
unfolding ensure_bootstrap_task
ensure_bootstrap_task-IsValid t v = elim (Bool-cases (any_id 1 t.slots)) [
  | inl e ↦ rw e v
  | inr e ↦ rw e (
      put-IsValid t 0 1 _ kernel_monitor (any_id-Absent 1 t.slots e) (omega arith) (omega arith)
        (omega (arith, v.next_fits)) v)
]

pub spawn-IsValid :
    (kind : TaskKind) (t : TaskTable) → t.next_id < u64_max → IsValid t → IsValid (spawn kind t).1
unfolding spawn
spawn-IsValid kind t room v = elim (Option-cases (position_none 0 t.slots)) [
  | inl e ↦ rw (e, spawn) v
  | inr (i, e) ↦
      rw (e, spawn)
        (put-IsValid t i t.next_id _ kind (below-Absent t.next_id t.slots v.good) (omega arith)
          (omega arith) (omega arith) v)
]

module _ (t : TaskTable) (now : ℕ) (v : IsValid t) where
  awake-IsValid : IsValid (wake_due now t).1
  awake-IsValid = wake_due-IsValid now t v

  sleep-IsValid : (id n : ℕ) → IsValid (sleep id n now t).1
  unfolding sleep
  sleep-IsValid id n = elim (Bool-cases (n == 0)) [
    | inl e ↦ rw e v
    | inr e ↦ rw e (
        with_task-IsValid id (sleep_body n now) (wake_due now t).1 (sleep_body-Keeps id n now)
          (λ task. sleep_body-IsGood _ task n now) awake-IsValid)
  ]

  wake-IsValid : (id : ℕ) → IsValid (wake id now t).1
  unfolding wake
  wake-IsValid id =
      with_task-IsValid id wake_body (wake_due now t).1 (wake_body-Keeps id)
        (λ task. wake_body-IsGood _ task) awake-IsValid

  remove-IsValid : (id : ℕ) → IsValid (remove id now t).1
  unfolding remove
  remove-IsValid id = elim (Bool-cases (id == 1)) [
    | inl e ↦ rw e awake-IsValid
    | inr e ↦ rw e (
        with_task-IsValid id remove_body (wake_due now t).1 (remove_body-Keeps id)
          (λ task. remove_body-IsGood _ task) awake-IsValid)
  ]

  set_priority-IsValid : (id p : ℕ) → IsValid (set_priority id p now t).1
  unfolding set_priority
  set_priority-IsValid id p =
      with_task-IsValid id (priority_body p) (wake_due now t).1 (priority_body-Keeps id p)
        (λ task. priority_body-IsGood _ task p) awake-IsValid

-- Every call keeps the table valid, as long as the next identifier is below `u64::MAX`.
pub perform-IsValid :
    (c : Call) (t : TaskTable) → t.next_id < u64_max → IsValid t → IsValid (perform c t)
unfolding perform
perform-IsValid init t room v = ensure_bootstrap_task-IsValid t v
perform-IsValid (spawns kind) t room v = spawn-IsValid kind t room v
perform-IsValid (steps now) t room v = step-IsValid now t v
perform-IsValid (sleeps id n now) t room v = sleep-IsValid t now v id n
perform-IsValid (wakes id now) t room v = wake-IsValid t now v id
perform-IsValid (removes id now) t room v = remove-IsValid t now v id
perform-IsValid (sets_priority id p now) t room v = set_priority-IsValid t now v id p

-- A call moves the next identifier on by one at most.
next_id-perform :
    (c : Call) (t : TaskTable) (k : ℕ) → 2 ≤ k → t.next_id ≤ k → (perform c t).next_id ≤ k + 1
unfolding perform with_task wake_due
next_id-perform init t k two h = unfold ensure_bootstrap_task in ground arith
next_id-perform (spawns kind) t k two h = unfold spawn in ground arith
next_id-perform (steps now) t k two h = unfold step run_slot in ground arith
next_id-perform (sleeps id n now) t k two h = unfold sleep in ground arith
next_id-perform (wakes id now) t k two h = unfold wake in ground arith
next_id-perform (removes id now) t k two h = unfold remove in ground arith
next_id-perform (sets_priority id p now) t k two h = unfold set_priority in ground arith

perform_all-IsValid :
    (cs : List Call) (t : TaskTable) (k : ℕ)
    → 2 ≤ k
    → t.next_id ≤ k
    → k + length cs ≤ u64_max
    → IsValid t
    → IsValid (perform_all cs t)
unfolding perform_all
perform_all-IsValid [] t k two h room v = v
perform_all-IsValid (c ∷ cs) t k two h room v =
    perform_all-IsValid cs (perform c t) (k + 1) (omega arith) (next_id-perform c t k two h)
      (omega arith) (perform-IsValid c t (omega arith) v)

-- After any history of fewer than 2^64 - 2 calls, in any order and with any arguments, the static
-- table is valid: eight slots, distinct identifiers below the next one, no task left `Running`, and
-- a wake-up tick on exactly the sleeping tasks.
pub history-IsValid : (cs : List Call) → length cs + 2 ≤ u64_max → IsValid (history cs)
unfolding history
history-IsValid cs room =
    perform_all-IsValid cs new 2 (omega arith) (omega arith) (omega arith) new-IsValid
