-- ===== src/Task/Spec.antt =====
-- kernel/src/task.rs: what a client sees of the table, a map from identifiers to tasks, and what each
-- call promises of that map. Slots and their order are forgotten.
use jing_os.Base.{leb, Bool, false, ℕ, Option, none, some, if◌then◌else◌, ◌==◌, Result, err}
use jing_os.Task.Data.{
  TaskState, ready, running, sleeping, TaskInfo, TaskTable, TaskError, not_found,
}
use jing_os.Task.Loops.{lookup}

abbrev pub TaskMap : Type 0
TaskMap = ℕ → Option TaskInfo

abbrev pub view : TaskTable → TaskMap
view t id = lookup id t.slots

abbrev pub made_ready : TaskInfo → TaskInfo
made_ready task = record task { state = ready; sleep_until_tick = none }

abbrev pub put_to_sleep : ℕ → TaskInfo → TaskInfo
put_to_sleep until task = record task { state = sleeping; sleep_until_tick = some until }

abbrev pub with_priority : ℕ → TaskInfo → TaskInfo
with_priority priority task = record task { priority = priority }

-- Whether the tick that a task waits for has come.
abbrev pub has_come : ℕ → Option ℕ → Bool
has_come now none = false
has_come now (some tick) = leb tick now

-- A task when the clock has reached `now`: a sleeper whose tick has come is ready.
abbrev pub awake_task : ℕ → TaskState → TaskInfo → TaskInfo
awake_task now ready task = task
awake_task now running task = task
awake_task now sleeping task = if has_come now task.sleep_until_tick then made_ready task else task

abbrev pub awake_at : ℕ → Option TaskInfo → Option TaskInfo
awake_at now none = none
awake_at now (some task) = some (awake_task now task.state task)

abbrev pub awake : ℕ → TaskMap → TaskMap
awake now m id = awake_at now (m id)

abbrev pub apply_to : (TaskInfo → TaskInfo) → Option TaskInfo → Option TaskInfo
apply_to f none = none
apply_to f (some task) = some (f task)

-- The map with the task of one identifier changed, if there is one.
abbrev pub update : ℕ → (TaskInfo → TaskInfo) → TaskMap → TaskMap
update id f m k = if k == id then apply_to f (m id) else m k

abbrev pub erase : ℕ → TaskMap → TaskMap
erase id m k = if k == id then none else m k

abbrev pub insert : ℕ → TaskInfo → TaskMap → TaskMap
insert id task m k = if k == id then some task else m k

-- A call's answer for an identifier: "task not found" if the map has none.
abbrev pub answer {ℓ} :
    {A : Type ℓ} → (TaskInfo → Result A TaskError) → Option TaskInfo → Result A TaskError
answer f none = err not_found
answer f (some task) = f task
