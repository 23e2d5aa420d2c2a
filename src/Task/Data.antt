-- ===== src/Task/Data.antt =====
-- kernel/src/task.rs: the data of the task table, and the names of kinds and states.
-- The array `slots` is a list, of `max_tasks` entries in a valid table.
use jing_os.Base.{
  ℕ, Bool, true, false, ◌||◌, Option, none, some, List, [], ◌∷◌, Bytes, bytes, str_eq,
  if◌then◌else◌,
}

abbrev pub max_tasks : ℕ
max_tasks = 8

abbrev pub default_task_priority : ℕ
default_task_priority = 10

pub data TaskState : Type 0 where
  ready running sleeping : TaskState

pub data TaskKind : Type 0 where
  kernel_monitor user_demo fast_syscall_success fast_syscall_error : TaskKind

pub record TaskInfo : Type 0 where
  pub id : ℕ
  pub kind : TaskKind
  pub state : TaskState
  pub run_count : ℕ
  pub priority : ℕ
  pub sleep_until_tick : Option ℕ

-- The counts `ready`, `running` and `sleeping` are named apart from the states.
pub record SchedulerSnapshot : Type 0 where
  pub total : ℕ
  pub ready_tasks : ℕ
  pub running_tasks : ℕ
  pub sleeping_tasks : ℕ
  pub finished : ℕ
  pub capacity : ℕ
  pub next_id : ℕ

pub record TaskStepReport : Type 0 where
  pub id : ℕ
  pub kind : TaskKind
  pub run_count : ℕ

pub record TaskTable : Type 0 where
  pub slots : List (Option TaskInfo)
  pub next_id : ℕ
  pub next_rr_index : ℕ

-- The messages of the `Err` results: "task table full", "sleep ticks must be > 0",
-- "task not found", "task is running", "task is not sleeping", "cannot remove bootstrap task".
pub data TaskError : Type 0 where
  table_full sleep_ticks_zero not_found is_running_now not_sleeping bootstrap_task : TaskError

-- `==` and `!=` on `TaskState`.
abbrev pub is_ready : TaskState → Bool
is_ready ready = true
is_ready running = false
is_ready sleeping = false

abbrev pub is_running : TaskState → Bool
is_running ready = false
is_running running = true
is_running sleeping = false

abbrev pub is_sleeping : TaskState → Bool
is_sleeping ready = false
is_sleeping running = false
is_sleeping sleeping = true

unfoldable pub task_kind_name : TaskKind → Bytes
task_kind_name kernel_monitor = bytes "kernel_monitor"
task_kind_name user_demo = bytes "user_demo"
task_kind_name fast_syscall_success = bytes "fast_syscall_success"
task_kind_name fast_syscall_error = bytes "fast_syscall_error"

unfoldable pub task_state_name : TaskState → Bytes
task_state_name ready = bytes "ready"
task_state_name running = bytes "running"
task_state_name sleeping = bytes "sleeping"

-- An or-pattern of literals.
abbrev pub is_one_of : Bytes → List Bytes → Bool
is_one_of text [] = false
is_one_of text (name ∷ names) = str_eq text name || is_one_of text names

abbrev pub monitor_names : List Bytes
monitor_names = bytes "monitor" ∷ bytes "kernel" ∷ bytes "kernel_monitor" ∷ []

abbrev pub user_names : List Bytes
user_names = bytes "userdemo" ∷ bytes "user" ∷ bytes "user_demo" ∷ []

abbrev pub fast_success_names : List Bytes
fast_success_names =
    bytes "fastsyscall"
    ∷ bytes "fast"
    ∷ bytes "fast_ok"
    ∷ bytes "fastsyscall_ok"
    ∷ bytes "fast_syscall_success"
    ∷ []

abbrev pub fast_error_names : List Bytes
fast_error_names =
    bytes "fastfail"
    ∷ bytes "fastsyscall_fail"
    ∷ bytes "fast_syscall_error"
    ∷ bytes "fast_error"
    ∷ []

unfoldable pub parse_task_kind : Bytes → Option TaskKind
parse_task_kind text =
    if is_one_of text monitor_names
    then some kernel_monitor
    else (if is_one_of text user_names
        then some user_demo
        else (if is_one_of text fast_success_names
            then some fast_syscall_success
            else (if is_one_of text fast_error_names then some fast_syscall_error else none)))
