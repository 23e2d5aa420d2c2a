-- ===== src/Task/Refine.antt =====
-- kernel/src/task.rs: `sleep`, `wake`, `remove` and `set_priority` against the map of the tasks.
use mathlib.Core.Path.{fun_ext}
use jing_os.Base.{
  ℕ, ◌<◌, ◌≡◌, ◌≢◌, refl, ap, ◌∙◌, true, false, Option, none, some, arith, ◌==◌, if◌then◌else◌,
  saturating_add, ok, err,
}
use jing_os.Task.Data.{TaskInfo, TaskTable, not_found, not_sleeping, bootstrap_task, is_sleeping}
use jing_os.Task.Table.{wake_due}
use jing_os.Task.Control.{
  Body, with_task, sleep_body, sleep, wake_body, wake, remove_body, remove, priority_body,
  set_priority,
}
use jing_os.Task.Loops.{Keeps}
use jing_os.Task.Invariant.{IsValid, IsGood, wake_due-IsValid}
use jing_os.Task.Bodies.{sleep_body-Keeps, wake_body-Keeps, remove_body-Keeps, priority_body-Keeps}
use jing_os.Task.Spec.{
  view, made_ready, put_to_sleep, with_priority, awake, apply_to, update, erase, answer,
}
use jing_os.Task.View.{view-wake_due, with_task-answer, view-with_task}

-- What each body does to a settled task: the branch for a running task is dead.
abbrev slept : ℕ → Body ℕ
slept until task = (ok until, some (put_to_sleep until task))

abbrev woke_up : Body TaskInfo
woke_up task = (
  if is_sleeping task.state then ok (made_ready task) else err not_sleeping,
  some (made_ready task),
)

abbrev removed : Body TaskInfo
removed task = (ok task, none)

abbrev reprioritized : ℕ → Body TaskInfo
reprioritized p task = (ok (with_priority p task), some (with_priority p task))

module _ (n : ℕ) (task : TaskInfo) where
  sleep_settled :
      (k now : ℕ) → IsGood n task → sleep_body k now task ≡ slept (saturating_add now k) task
  unfolding sleep_body
  sleep_settled k now g = ground arith

  wake_settled : IsGood n task → wake_body task ≡ woke_up task
  unfolding wake_body
  wake_settled g = ground arith

  remove_settled : IsGood n task → remove_body task ≡ removed task
  unfolding remove_body
  remove_settled g = ground arith

  priority_settled : (p : ℕ) → IsGood n task → priority_body p task ≡ reprioritized p task
  unfolding priority_body
  priority_settled p g = ground arith

apply_to_lem :
    (g : TaskInfo → TaskInfo) (o : Option TaskInfo)
    → elim o [ none ↦ none | some task ↦ some (g task) ] ≡ apply_to g o
apply_to_lem g none = refl
apply_to_lem g (some task) = refl

erase_lem :
    (o : Option TaskInfo)
    → ◌≡◌ {A = Option TaskInfo} (elim o [ none ↦ none | some task ↦ none ]) none
erase_lem none = refl
erase_lem (some task) = refl

module _ (t : TaskTable) (id now : ℕ) (v : IsValid t) where
  abbrev w : TaskTable
  w = (wake_due now t).1

  w-IsValid : IsValid w
  w-IsValid = wake_due-IsValid now t v

  seen : (k : ℕ) → view w k ≡ awake now (view t) k
  seen k = ap (λ m. m k) (view-wake_due now t)

  answers {ℓ} :
      {A : Type ℓ} (body f : Body A)
      → ((task : TaskInfo) → IsGood w.next_id task → body task ≡ f task)
      → (with_task id body w).0 ≡ answer (λ task. (f task).0) (awake now (view t) id)
  answers body f same =
      with_task-answer id body f w same w-IsValid ∙ ap (answer (λ task. (f task).0)) (seen id)

  updates {ℓ} :
      {A : Type ℓ} (body : Body A) (g : TaskInfo → TaskInfo)
      → Keeps id body
      → ((task : TaskInfo) → IsGood w.next_id task → (body task).1 ≡ some (g task))
      → view (with_task id body w).1 ≡ update id g (awake now (view t))
  updates body g keeps same = fun_ext λ k.
      view-with_task id body (λ task. (err not_found, some (g task))) w same keeps w-IsValid k
      ∙ rw (seen k, seen id, apply_to_lem g)

  -- `sleep` for at least one tick first wakes the tasks that are due, and then puts the task, if
  -- there is one, to sleep until `now + sleep_ticks`, which it answers; every other task is as it was.
  pub sleep_refines :
      (sleep_ticks : ℕ)
      → 0 < sleep_ticks
      → let m = awake now (view t) in
        let until = saturating_add now sleep_ticks in
        ((sleep id sleep_ticks now t).0 ≡ answer (λ _. ok until) (m id))
        × (view (sleep id sleep_ticks now t).1 ≡ update id (put_to_sleep until) m)
  unfolding sleep
  sleep_refines k h =
      let e : (k == 0) ≡ false = ground arith in
      let until = saturating_add now k in
      rw e (
        answers (sleep_body k now) (slept until) (λ task. sleep_settled _ task k now),
        updates (sleep_body k now) (put_to_sleep until) (sleep_body-Keeps id k now)
            (λ task g. ap (λ q. q.1) (sleep_settled _ task k now g)),
      )

  -- `wake` first wakes the tasks that are due; it answers the task if it still sleeps then, which is
  -- ready from now on, and refuses one that is ready already. No other task changes.
  pub wake_refines :
      let m = awake now (view t) in
      ((wake id now t).0
        ≡ answer
            (λ task. if is_sleeping task.state then ok (made_ready task) else err not_sleeping)
            (m id))
      × (view (wake id now t).1 ≡ update id made_ready m)
  unfolding wake
  wake_refines = (
    answers wake_body woke_up (wake_settled _),
    updates wake_body made_ready (wake_body-Keeps id)
        (λ task g. ap (λ q. q.1) (wake_settled _ task g)),
  )

  -- `remove` of any task but the bootstrap task answers the task, if there is one, and takes it out
  -- of the map; every other task is as it was, but for the tasks that were due.
  pub remove_refines :
      id ≢ 1
      → let m = awake now (view t) in
        ((remove id now t).0 ≡ answer (λ task. ok task) (m id))
        × (view (remove id now t).1 ≡ erase id m)
  unfolding remove
  remove_refines h =
      let e : (id == 1) ≡ false = ground arith in
      rw e (
        answers remove_body removed (remove_settled _),
        fun_ext λ k.
            view-with_task id remove_body removed w
              (λ task g. ap (λ q. q.1) (remove_settled _ task g)) (remove_body-Keeps id) w-IsValid k
            ∙ rw (seen k, seen id, erase_lem),
      )

  -- `remove` of the bootstrap task is refused, and only wakes the tasks that are due.
  pub remove_bootstrap :
      id ≡ 1
      → ((remove id now t).0 ≡ err bootstrap_task) × (view (remove id now t).1 ≡ awake now (view t))
  unfolding remove
  remove_bootstrap h = let e : (id == 1) ≡ true = ground arith in rw e (refl, view-wake_due now t)

  -- `set_priority` answers the task with its new priority, if there is one; it changes nothing else,
  -- but for the tasks that were due.
  pub set_priority_refines :
      (p : ℕ)
      → let m = awake now (view t) in
        ((set_priority id p now t).0 ≡ answer (λ task. ok (with_priority p task)) (m id))
        × (view (set_priority id p now t).1 ≡ update id (with_priority p) m)
  unfolding set_priority
  set_priority_refines p = (
    answers (priority_body p) (reprioritized p) (λ task. priority_settled _ task p),
    updates (priority_body p) (with_priority p) (priority_body-Keeps id p)
        (λ task g. ap (λ q. q.1) (priority_settled _ task p g)),
  )
