-- ===== src/Task/Names.antt =====
-- kernel/src/task.rs: `task_kind_name` against `parse_task_kind`.
use jing_os.Base.{◌≡◌, refl, some}
use jing_os.Task.Data.{
  TaskKind, kernel_monitor, user_demo, fast_syscall_success, fast_syscall_error, task_kind_name,
  parse_task_kind,
}

-- The printed name of each kind is read back as that kind.
pub parse-name : (kind : TaskKind) → parse_task_kind (task_kind_name kind) ≡ some kind
unfolding parse_task_kind task_kind_name
parse-name kernel_monitor = refl
parse-name user_demo = refl
parse-name fast_syscall_success = refl
parse-name fast_syscall_error = refl
