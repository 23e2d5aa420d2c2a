-- ===== src/Task/Table.antt =====
-- kernel/src/task.rs: `TaskTable::{new, ensure_bootstrap_task, spawn, wake_due, step, snapshot, list}`.
-- A method on `&mut self` returns its result and the new table.
use jing_os.Base.{
  ℕ, zero, suc, ◌+◌, ◌%◌, max, Bool, true, false, ◌&&◌, ◌||◌, Option, none, some, List, [], ◌∷◌,
  Result, ok, err, leb, ◌==◌, if◌then◌else◌, saturating_add, get_or, set, replicate,
}
use jing_os.Task.Data.{
  max_tasks, default_task_priority, TaskState, ready, running, sleeping, TaskKind, kernel_monitor,
  TaskInfo, TaskStepReport, TaskTable, TaskError, table_full, is_ready, is_sleeping,
  SchedulerSnapshot,
}

abbrev pub new : TaskTable
new = record { slots = replicate max_tasks none; next_id = 1; next_rr_index = 0 }

-- `self.slots.iter().flatten().any(|task| task.id == id)`.
unfoldable pub any_id : ℕ → List (Option TaskInfo) → Bool
any_id id [] = false
any_id id (none ∷ rest) = any_id id rest
any_id id (some task ∷ rest) = task.id == id || any_id id rest

abbrev pub fresh_task : ℕ → TaskKind → TaskInfo
fresh_task id kind = record {
  id = id;
  kind = kind;
  state = ready;
  run_count = 0;
  priority = default_task_priority;
  sleep_until_tick = none;
}

unfoldable pub ensure_bootstrap_task : TaskTable → TaskTable
ensure_bootstrap_task t = if any_id 1 t.slots then t else record t {
  slots = set t.slots 0 (some (fresh_task 1 kernel_monitor));
  next_id = max t.next_id 2;
}

-- `self.slots.iter().position(Option::is_none)`, counted from `i`.
unfoldable pub position_none : ℕ → List (Option TaskInfo) → Option ℕ
position_none i [] = none
position_none i (none ∷ rest) = some i
position_none i (some task ∷ rest) = position_none (i + 1) rest

unfoldable pub spawn : TaskKind → TaskTable → Result ℕ TaskError × TaskTable
spawn kind t = elim (position_none 0 t.slots) [
  | none ↦ (err table_full, t)
  | some index ↦ (
    ok t.next_id,
    record t {
      slots = set t.slots index (some (fresh_task t.next_id kind));
      next_id = saturating_add t.next_id 1;
    },
  )
]

-- `sleep_until_tick.is_some_and(|until_tick| now_ticks >= until_tick)`.
abbrev pub is_due : ℕ → Option ℕ → Bool
is_due now none = false
is_due now (some until) = leb until now

-- A slot as the loop of `wake_due` leaves it, and whether it was counted.
unfoldable pub wake_slot : ℕ → Option TaskInfo → Option TaskInfo × Bool
wake_slot now none = (none, false)
wake_slot now (some task) =
    if is_sleeping task.state
    then (if is_due now task.sleep_until_tick
        then (some (record task { state = ready; sleep_until_tick = none }), true)
        else (some task, false))
    else (some task, false)

unfoldable pub wake_slots : ℕ → List (Option TaskInfo) → ℕ → ℕ × List (Option TaskInfo)
wake_slots now [] woke = (woke, [])
wake_slots now (slot ∷ rest) woke =
    let (slot', woken) = wake_slot now slot in
    let (total, rest') = wake_slots now rest (if woken then saturating_add woke 1 else woke) in
    (total, slot' ∷ rest')

unfoldable pub wake_due : ℕ → TaskTable → ℕ × TaskTable
wake_due now t = let (woke, slots) = wake_slots now t.slots 0 in (woke, record t { slots = slots })

-- The first loop of `step`: the highest priority of a ready task.
unfoldable pub select_priority : List (Option TaskInfo) → Option ℕ → Option ℕ
select_priority [] selected = selected
select_priority (none ∷ rest) selected = select_priority rest selected
select_priority (some task ∷ rest) selected = select_priority rest (
    if is_ready task.state
    then elim selected [
      | some current ↦ some (max current task.priority)
      | none ↦ some task.priority
    ]
    else selected)

abbrev pub is_candidate : ℕ → Option TaskInfo → Bool
is_candidate priority none = false
is_candidate priority (some task) = is_ready task.state && task.priority == priority

-- The second loop of `step`, with `n` offsets left.
unfoldable pub select_index : List (Option TaskInfo) → ℕ → ℕ → ℕ → ℕ → Option ℕ
select_index slots rr priority offset zero = none
select_index slots rr priority offset (suc n) =
    let rest = select_index slots rr priority (offset + 1) n in
    let index = (rr + offset) % max_tasks in
    if is_candidate priority (get_or slots index none) then some index else rest

abbrev pub report_of : TaskInfo → TaskStepReport
report_of task = record { id = task.id; kind = task.kind; run_count = task.run_count }

-- The task marked `Running` and counted, then `Ready` again.
abbrev pub start_task : TaskInfo → TaskInfo
start_task task = record task {
  state = running;
  run_count = saturating_add task.run_count 1;
  sleep_until_tick = none;
}

abbrev pub finish_task : TaskInfo → TaskInfo
finish_task task = record task { state = ready; sleep_until_tick = none }

-- `step` from the point at which `index` is chosen.
unfoldable pub run_slot : ℕ → TaskTable → Option TaskStepReport × TaskTable
run_slot index t = elim (get_or t.slots index none) [
  | none ↦ (none, record t { next_rr_index = (index + 1) % max_tasks })
  | some task ↦
      (let running_slots = set t.slots index (some (start_task task)) in
        (
          some (report_of (start_task task)),
          record t {
            slots = set running_slots index (some (finish_task (start_task task)));
            next_rr_index = (index + 1) % max_tasks;
          },
        ))
]

unfoldable pub step : ℕ → TaskTable → Option TaskStepReport × TaskTable
step now t =
    let woken = (wake_due now t).1 in
    elim (select_priority woken.slots none) [
      | none ↦ (none, woken)
      | some priority ↦ elim (select_index woken.slots woken.next_rr_index priority 0 max_tasks) [
        | none ↦ (none, woken)
        | some index ↦ run_slot index woken
      ]
    ]

unfoldable pub count_task : TaskState → SchedulerSnapshot → SchedulerSnapshot
count_task ready s = record s { total = s.total + 1; ready_tasks = s.ready_tasks + 1 }
count_task running s = record s { total = s.total + 1; running_tasks = s.running_tasks + 1 }
count_task sleeping s = record s { total = s.total + 1; sleeping_tasks = s.sleeping_tasks + 1 }

unfoldable pub count_slots : List (Option TaskInfo) → SchedulerSnapshot → SchedulerSnapshot
count_slots [] s = s
count_slots (none ∷ rest) s = count_slots rest s
count_slots (some task ∷ rest) s = count_slots rest (count_task task.state s)

abbrev pub empty_snapshot : ℕ → SchedulerSnapshot
empty_snapshot next_id = record {
  total = 0;
  ready_tasks = 0;
  running_tasks = 0;
  sleeping_tasks = 0;
  finished = 0;
  capacity = max_tasks;
  next_id = next_id;
}

unfoldable pub snapshot : TaskTable → SchedulerSnapshot
snapshot t = count_slots t.slots (empty_snapshot t.next_id)

-- `list` writes `output[count]`; a write past the end, which would panic, changes nothing here.
unfoldable pub list_slots :
    List (Option TaskInfo) → ℕ → List (Option TaskInfo) → ℕ × List (Option TaskInfo)
list_slots [] count output = (count, output)
list_slots (none ∷ rest) count output = list_slots rest count output
list_slots (some task ∷ rest) count output =
    list_slots rest (count + 1) (set output count (some task))

unfoldable pub list : TaskTable → List (Option TaskInfo) → ℕ × List (Option TaskInfo)
unfolding list_slots
list t output = list_slots t.slots 0 output
