-- ===== src/Monitor/TaskCommands.antt =====
-- kernel/src/main.rs: the call on the task table that a command names.
use jing_os.Base.{ℕ, refl, List, [], ◌∷◌, Bytes, ◌==◌, Bool-cases, Option-cases, inl, inr}
use jing_os.Task.Data.{parse_task_kind}
use jing_os.Task.Control.{perform, perform_all}
use jing_os.Monitor.Numbers.{parse_u64}
use jing_os.Monitor.Commands.{World, tasknew, tasksleep, taskwake, taskrm, taskprio}
use jing_os.Monitor.Promised.{
  numbers, new_calls, sleep_calls, wake_calls, remove_calls, priority_calls, Calls,
}

module _ (now : ℕ) (w : World) where
  pub tasknew_lem : (args : List Bytes) → Calls new_calls args w (tasknew args w)
  unfolding perform_all perform parse_task_kind
  tasknew_lem [] = refl
  tasknew_lem (text ∷ rest) = elim (Option-cases (parse_task_kind text)) [
    | inl e ↦ rw e refl
    | inr (kind, e) ↦ rw e refl
  ]

  pub wake_lem :
      (args : List Bytes) → Calls (λ a. wake_calls now (numbers a)) args w (taskwake now args w)
  unfolding perform_all perform
  wake_lem [] = refl
  wake_lem (text ∷ rest) = elim (Option-cases (parse_u64 text)) [
    | inl e ↦ rw e refl
    | inr (id, e) ↦ rw e refl
  ]

  pub remove_lem :
      (args : List Bytes) → Calls (λ a. remove_calls now (numbers a)) args w (taskrm now args w)
  unfolding perform_all perform
  remove_lem [] = refl
  remove_lem (text ∷ rest) = elim (Option-cases (parse_u64 text)) [
    | inl e ↦ rw e refl
    | inr (id, e) ↦ rw e refl
  ]

  pub priority_lem :
      (args : List Bytes) → Calls (λ a. priority_calls now (numbers a)) args w (taskprio now args w)
  unfolding perform_all perform
  priority_lem [] = refl
  priority_lem (text ∷ []) = elim (Option-cases (parse_u64 text)) [
    | inl e ↦ rw e refl
    | inr (id, e) ↦ rw e refl
  ]
  priority_lem (text ∷ (number ∷ rest)) = elim (Option-cases (parse_u64 text)) [
    | inl e ↦ rw e refl
    | inr (id, e) ↦ elim (Option-cases (parse_u64 number)) [
      | inl f ↦ rw (e, f) refl
      | inr (n, f) ↦ rw (e, f) refl
    ]
  ]

  pub sleep_lem :
      (args : List Bytes) → Calls (λ a. sleep_calls now (numbers a)) args w (tasksleep now args w)
  unfolding perform_all perform
  sleep_lem [] = refl
  sleep_lem (text ∷ []) = elim (Option-cases (parse_u64 text)) [
    | inl e ↦ rw e refl
    | inr (id, e) ↦ rw e refl
  ]
  sleep_lem (text ∷ (number ∷ rest)) = elim (Option-cases (parse_u64 text)) [
    | inl e ↦ rw e refl
    | inr (id, e) ↦ elim (Option-cases (parse_u64 number)) [
      | inl f ↦ rw (e, f) refl
      | inr (n, f) ↦ elim (Bool-cases (n == 0)) [
        | inl g ↦ rw (e, f, g) refl
        | inr g ↦ rw (e, f, g) refl
      ]
    ]
  ]
