-- ===== src/Task/Control.antt =====
-- kernel/src/task.rs: `TaskTable::{sleep, wake, remove, set_priority}`, and the calls that the rest of
-- the kernel makes on the static `TASK_TABLE`, each of which holds its lock throughout.
use jing_os.Base.{
  ℕ, Option, none, some, List, [], ◌∷◌, Result, ok, err, ◌==◌, if◌then◌else◌, saturating_add,
}
use jing_os.Task.Data.{
  ready, sleeping, TaskKind, TaskInfo, TaskTable, TaskError, sleep_ticks_zero, not_found,
  is_running_now, not_sleeping, bootstrap_task, is_running, is_sleeping,
}
use jing_os.Task.Table.{new, ensure_bootstrap_task, spawn, wake_due, step}

-- The loop that `sleep`, `wake`, `remove` and `set_priority` share: the first slot whose task has
-- the identifier is handed to the rest of the method, which answers and leaves a new slot.
abbrev pub Body {ℓ} : Type ℓ → Type ℓ
Body A = TaskInfo → Result A TaskError × Option TaskInfo

unfoldable pub for_task {ℓ} :
    {A : Type ℓ} → ℕ → Body A → List (Option TaskInfo) → Result A TaskError × List (Option TaskInfo)
for_task id body [] = (err not_found, [])
for_task id body (none ∷ rest) = let (r, rest') = for_task id body rest in (r, none ∷ rest')
for_task id body (some task ∷ rest) =
    let (r, rest') = for_task id body rest in
    if task.id == id
    then (let (q, slot) = body task in (q, slot ∷ rest))
    else (r, some task ∷ rest')

unfoldable pub with_task {ℓ} :
    {A : Type ℓ} → ℕ → Body A → TaskTable → Result A TaskError × TaskTable
with_task id body t = let (r, slots) = for_task id body t.slots in (r, record t { slots = slots })

unfoldable pub sleep_body : ℕ → ℕ → Body ℕ
sleep_body sleep_ticks now task =
    let until = saturating_add now sleep_ticks in
    if is_running task.state
    then (err is_running_now, some task)
    else (ok until, some (record task { state = sleeping; sleep_until_tick = some until }))

unfoldable pub sleep : ℕ → ℕ → ℕ → TaskTable → Result ℕ TaskError × TaskTable
sleep id sleep_ticks now t =
    if sleep_ticks == 0
    then (err sleep_ticks_zero, t)
    else with_task id (sleep_body sleep_ticks now) (wake_due now t).1

unfoldable pub wake_body : Body TaskInfo
wake_body task =
    let woken = record task { state = ready; sleep_until_tick = none } in
    if is_running task.state
    then (err is_running_now, some task)
    else (if is_sleeping task.state then (ok woken, some woken) else (err not_sleeping, some task))

unfoldable pub wake : ℕ → ℕ → TaskTable → Result TaskInfo TaskError × TaskTable
wake id now t = with_task id wake_body (wake_due now t).1

unfoldable pub remove_body : Body TaskInfo
remove_body task =
    if is_running task.state then (err is_running_now, some task) else (ok task, none)

unfoldable pub remove : ℕ → ℕ → TaskTable → Result TaskInfo TaskError × TaskTable
remove id now t =
    let woken = (wake_due now t).1 in
    if id == 1 then (err bootstrap_task, woken) else with_task id remove_body woken

unfoldable pub priority_body : ℕ → Body TaskInfo
priority_body priority task =
    let changed = record task { priority = priority } in
    if is_running task.state then (err is_running_now, some task) else (ok changed, some changed)

unfoldable pub set_priority : ℕ → ℕ → ℕ → TaskTable → Result TaskInfo TaskError × TaskTable
set_priority id priority now t = with_task id (priority_body priority) (wake_due now t).1

-- A call on the static table that may change it. Each but `init` and `spawn` has the tick count of
-- its moment.
pub data Call : Type 0 where
  init : Call
  spawns : TaskKind → Call
  steps : ℕ → Call
  sleeps : ℕ → ℕ → ℕ → Call
  wakes : ℕ → ℕ → Call
  removes : ℕ → ℕ → Call
  sets_priority : ℕ → ℕ → ℕ → Call

unfoldable pub perform : Call → TaskTable → TaskTable
perform init t = ensure_bootstrap_task t
perform (spawns kind) t = (spawn kind t).1
perform (steps now) t = (step now t).1
perform (sleeps id sleep_ticks now) t = (sleep id sleep_ticks now t).1
perform (wakes id now) t = (wake id now t).1
perform (removes id now) t = (remove id now t).1
perform (sets_priority id priority now) t = (set_priority id priority now t).1

unfoldable pub perform_all : List Call → TaskTable → TaskTable
perform_all [] t = t
perform_all (c ∷ cs) t = perform_all cs (perform c t)

-- The static table after a history of calls.
unfoldable pub history : List Call → TaskTable
history cs = perform_all cs new
