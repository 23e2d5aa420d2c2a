-- ===== src/Task/Bodies.antt =====
-- kernel/src/task.rs: what `sleep`, `wake`, `remove` and `set_priority` do to the task they find.
use jing_os.Base.{ℕ, arith}
use jing_os.Task.Data.{TaskInfo}
use jing_os.Task.Control.{sleep_body, wake_body, remove_body, priority_body}
use jing_os.Task.Slots.{Holds}
use jing_os.Task.Loops.{Keeps}
use jing_os.Task.Invariant.{IsGood}

pub sleep_body-Keeps : (id n now : ℕ) → Keeps id (sleep_body n now)
unfolding sleep_body
sleep_body-Keeps id n now task = ground arith

pub wake_body-Keeps : (id : ℕ) → Keeps id wake_body
unfolding wake_body
wake_body-Keeps id task = ground arith

pub remove_body-Keeps : (id : ℕ) → Keeps id remove_body
unfolding remove_body
remove_body-Keeps id task = ground arith

pub priority_body-Keeps : (id p : ℕ) → Keeps id (priority_body p)
unfolding priority_body
priority_body-Keeps id p task = ground arith

module _ (n : ℕ) (task : TaskInfo) where
  pub sleep_body-IsGood : (k now : ℕ) → IsGood n task → Holds (IsGood n) (sleep_body k now task).1
  unfolding sleep_body
  sleep_body-IsGood k now g = ground arith

  pub wake_body-IsGood : IsGood n task → Holds (IsGood n) (wake_body task).1
  unfolding wake_body
  wake_body-IsGood g = ground arith

  pub remove_body-IsGood : IsGood n task → Holds (IsGood n) (remove_body task).1
  unfolding remove_body
  remove_body-IsGood g = ground arith

  pub priority_body-IsGood : (p : ℕ) → IsGood n task → Holds (IsGood n) (priority_body p task).1
  unfolding priority_body
  priority_body-IsGood p g = ground arith
