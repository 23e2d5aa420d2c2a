-- ===== src/Task/View.antt =====
-- kernel/src/task.rs: how the slots of a valid table give the map of its tasks, and how a call by
-- identifier acts on it.
use mathlib.Core.Path.{fun_ext}
use jing_os.Base.{
  ℕ, ◌≡◌, refl, ap, ◌∙◌, inl, inr, Option, none, some, List, [], ◌∷◌, map, arith, ◌==◌,
  if◌then◌else◌, Bool-cases, Option-cases,
}
use jing_os.Task.Data.{TaskInfo, TaskTable}
use jing_os.Task.Table.{wake_slot, wake_due}
use jing_os.Task.Control.{Body, with_task}
use jing_os.Task.Slots.{AllTasks}
use jing_os.Task.Loops.{lookup, woken, wake_slots-map, Keeps, for_task-result, for_task-lookup}
use jing_os.Task.Invariant.{IsValid, IsGood}
use jing_os.Task.Spec.{view, awake_at, awake, answer}

pub lookup-wake :
    (now k : ℕ) (slots : List (Option TaskInfo))
    → lookup k (map (woken now) slots) ≡ awake_at now (lookup k slots)
unfolding wake_slot
lookup-wake now k [] = refl
lookup-wake now k (none ∷ rest) = lookup-wake now k rest
lookup-wake now k (some task ∷ rest) = ground (arith, lookup-wake now k rest)

pub view-wake_due : (now : ℕ) (t : TaskTable) → view (wake_due now t).1 ≡ awake now (view t)
unfolding wake_due
view-wake_due now t = fun_ext λ k. rw (wake_slots-map now t.slots 0) (lookup-wake now k t.slots)

-- A task that the table holds is settled.
pub lookup-IsGood :
    (n k : ℕ) (slots : List (Option TaskInfo)) {task : TaskInfo}
    → AllTasks (IsGood n) slots
    → lookup k slots ≡ some task
    → IsGood n task × (task.id ≡ k)
lookup-IsGood n k [] h e = cc
lookup-IsGood n k (none ∷ rest) h e = lookup-IsGood n k rest h e
lookup-IsGood n k (some t ∷ rest) {task} h e = elim (Bool-cases (t.id == k)) [
  | inl hit ↦
      let e' : some t ≡ some task = rw hit at e in
      let q : t ≡ task = cc in (rw (← q) h.0, rw (← q) (ground arith))
  | inr miss ↦ lookup-IsGood n k rest h.1 (rw miss at e)
]

-- A call by identifier on a valid table, whose body acts as `f` on settled tasks.
module _ {ℓ} {A : Type ℓ} (id : ℕ) (body f : Body A) (w : TaskTable) where
  pub with_task-answer :
      ((task : TaskInfo) → IsGood w.next_id task → body task ≡ f task)
      → IsValid w
      → (with_task id body w).0 ≡ answer (λ task. (f task).0) (view w id)
  unfolding with_task
  with_task-answer same v = for_task-result id body w.slots ∙ (elim (Option-cases (view w id)) [
    | inl e ↦ rw e
    | inr (task, e) ↦
        rw e (ap (λ q. q.0) (same task (lookup-IsGood w.next_id id w.slots v.good e).0))
  ])

  pub view-with_task :
      ((task : TaskInfo) → IsGood w.next_id task → (body task).1 ≡ (f task).1)
      → Keeps id body
      → IsValid w
      → (k : ℕ)
      → view (with_task id body w).1 k
        ≡ (if k == id then elim (view w id) [ none ↦ none | some task ↦ (f task).1 ] else view w k)
  unfolding with_task
  view-with_task same keeps v k =
      for_task-lookup id body keeps k w.slots v.distinct ∙ (elim (Option-cases (view w id)) [
        | inl e ↦ rw e
        | inr (task, e) ↦ rw (e, same task (lookup-IsGood w.next_id id w.slots v.good e).0)
      ])
