-- ===== src/Monitor/StepCommands.antt =====
-- kernel/src/main.rs: the steps that `taskstep` and `taskrun` make.
use jing_os.Base.{
  ℕ, zero, suc, ◌≡◌, refl, ap, ◌∙◌, Bool, true, false, Option, none, some, List, [], ◌∷◌, Bytes,
  min, ◌==◌, if◌then◌else◌, Bool-cases, Option-cases, inl, inr, ok, err, arith,
}
use jing_os.Task.Data.{
  TaskKind, kernel_monitor, user_demo, fast_syscall_success, fast_syscall_error, TaskTable,
  TaskStepReport,
}
use jing_os.Task.Table.{step}
use jing_os.Task.Control.{perform, perform_all, steps}
use jing_os.UserMode.Session.{
  Started, run_fast_syscall_demo, run_fast_syscall_error_demo, UserModeContext,
}
use jing_os.Monitor.Numbers.{parse_u64}
use jing_os.Monitor.Commands.{
  World, Outcome, done, of_started, run_task_payload, after_step, run_task_step_with_label, run_on,
  run_steps, taskrun,
}
use jing_os.Monitor.Promised.{numbers, turns, step_calls, LeadsTo, EndsIdle, SomeSteps}

of_started_lem : (w : World) (s : Started) → (of_started w s).1.tasks ≡ w.tasks
of_started_lem w (ok c, u, memory) = refl
of_started_lem w (err e, u, memory) = refl

payload_lem : (kind : TaskKind) (w : World) → (run_task_payload kind w).1.tasks ≡ w.tasks
unfolding run_task_payload
payload_lem kernel_monitor w = refl
payload_lem user_demo w = refl
payload_lem fast_syscall_success w = of_started_lem w (run_fast_syscall_demo w.session w.memory)
payload_lem fast_syscall_error w = of_started_lem w (run_fast_syscall_error_demo w.session w.memory)

after_step_lem :
    (w : World) (r : Option TaskStepReport × TaskTable) → (after_step w r).2.tasks ≡ r.1
after_step_lem w (none, t) = refl
after_step_lem w (some report, t) = payload_lem report.kind (record w { tasks = t })

pub step_tasks :
    (now : ℕ) (w : World) → (run_task_step_with_label now w).2.tasks ≡ perform (steps now) w.tasks
unfolding run_task_step_with_label perform
step_tasks now w = after_step_lem w (step now w.tasks)

-- A turn in which no task ran found the scheduler idle.
after_step_idle :
    (w : World) (r : Option TaskStepReport × TaskTable) → (after_step w r).0 ≡ false → r.0 ≡ none
after_step_idle w (none, t) e = refl
after_step_idle w (some report, t) e = ground (arith, e)

step_idle :
    (now : ℕ) (w : World) → (run_task_step_with_label now w).0 ≡ false → (step now w.tasks).0 ≡ none
unfolding run_task_step_with_label
step_idle now w e = after_step_idle w (step now w.tasks) e

EndsIdle-suc :
    (clock : ℕ → ℕ) (n m : ℕ) (t t' : TaskTable)
    → t' ≡ perform (steps (clock n)) t
    → EndsIdle clock n m t'
    → EndsIdle clock (suc n) (suc m) t
unfolding perform
EndsIdle-suc clock n zero t t' e h = absurd h
EndsIdle-suc clock n (suc m) t t' e h = rw e at h

-- The end of a turn: what is behind it runs only if a task ran that did not enter user mode.
run_on_lem :
    (clock : ℕ → ℕ) (n : ℕ) (w : World) (k : World → Outcome × World)
    (r : Bool × Option UserModeContext × World)
    → r.2.tasks ≡ perform (steps (clock n)) w.tasks
    → (r.0 ≡ false → (step (clock n) w.tasks).0 ≡ none)
    → ((w' : World) → SomeSteps clock n w' (k w'))
    → SomeSteps clock (suc n) w (run_on k r)
unfolding perform_all
run_on_lem clock n w k (ran, some c, w') e idle h = (1, omega arith, (e, refl), inr (inl tt))
run_on_lem clock n w k (true, none, w') e idle h =
    let (m, le, (t, s), end) = h w' in
    (
      suc m,
      omega arith,
      (t ∙ ap (perform_all (step_calls clock n m)) e, s),
      elim end [
        | inl all ↦ inl (ap suc all)
        | inr (inl entered) ↦ inr (inl entered)
        | inr (inr last) ↦ inr (inr (EndsIdle-suc clock n m w.tasks w'.tasks e last))
      ],
    )
run_on_lem clock n w k (false, none, w') e idle h =
    (1, omega arith, (e, refl), inr (inr (idle refl)))

run_steps_lem : (clock : ℕ → ℕ) (n : ℕ) (w : World) → SomeSteps clock n w (run_steps clock n w)
unfolding run_steps perform_all
run_steps_lem clock zero w = (0, omega arith, (refl, refl), inl refl)
run_steps_lem clock (suc n) w =
    run_on_lem clock n w (run_steps clock n) (run_task_step_with_label (clock n) w)
      (step_tasks (clock n) w) (step_idle (clock n) w) (run_steps_lem clock n)

pub run_once_lem :
    (now : ℕ) (w : World) (r : Bool × Option UserModeContext × World)
    → r.2.tasks ≡ perform (steps now) w.tasks
    → LeadsTo (steps now ∷ []) w (run_on done r)
unfolding perform_all
run_once_lem now w (ran, some c, w') e = (e, refl)
run_once_lem now w (true, none, w') e = (e, refl)
run_once_lem now w (false, none, w') e = (e, refl)

none_lem : (n : ℕ) → (n == 0) ≡ true → n ≡ 0
none_lem n e = ground (arith, e)

run_number_lem :
    (clock : ℕ → ℕ) (n : ℕ) (w : World)
    → SomeSteps clock (min n 256) w (if n == 0 then done w else run_steps clock (min n 256) w)
unfolding perform_all
run_number_lem clock n w = elim (Bool-cases (n == 0)) [
  | inl e ↦ rw e (0, omega arith, (refl, refl), inl (omega (arith, none_lem n e)))
  | inr e ↦ rw e (run_steps_lem clock (min n 256) w)
]

pub taskrun_lem :
    (clock : ℕ → ℕ) (args : List Bytes) (w : World)
    → SomeSteps clock (turns (numbers args)) w (taskrun clock args w)
unfolding perform_all
taskrun_lem clock [] w = run_number_lem clock 4 w
taskrun_lem clock (text ∷ rest) w = elim (Option-cases (parse_u64 text)) [
  | inl e ↦ rw e (0, omega arith, (refl, refl), inl refl)
  | inr (n, e) ↦ rw e (run_number_lem clock n w)
]
