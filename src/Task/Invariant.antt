-- ===== src/Task/Invariant.antt =====
-- kernel/src/task.rs: the invariant of the task table, kept by every call.
use jing_os.Base.{
  ℕ, ◌≤◌, ◌<◌, ◌≡◌, ap, ◌∙◌, inl, inr, false, Option, none, some, List, [], ◌∷◌, arith, length,
  length-set, length-map, set-set, get_or, set, Option-cases, u64_max,
}
use jing_os.Task.Data.{
  TaskState, ready, running, sleeping, TaskKind, TaskInfo, TaskTable, max_tasks,
}
use jing_os.Task.Table.{
  any_id, fresh_task, wake_slot, wake_due, select_priority, select_index, start_task, finish_task,
  run_slot, step,
}
use jing_os.Task.Control.{Body, with_task}
use jing_os.Task.Slots.{
  id_of, ids, Absent, Distinct, AllTasks, AllTasks-mono, AllTasks-set, AllTasks-get_or, Holds,
  ids-set, ids-set_same, Distinct-set,
}
use jing_os.Task.Loops.{
  woken, wake_slots-map, ids-wake, AllTasks-wake, Keeps, Distinct-for_task, AllTasks-for_task,
  length-for_task,
}

-- Between two calls no task is `Running`, and exactly the sleeping tasks have a wake-up tick.
abbrev pub Settled : TaskState → Option ℕ → Type 0
Settled ready none = Unit {0}
Settled ready (some until) = ⊥
Settled running until = ⊥
Settled sleeping none = ⊥
Settled sleeping (some until) = until ≤ u64_max

pub record IsGood (next_id : ℕ) (task : TaskInfo) : Type 0 where
  pub below : task.id < next_id
  pub settled : Settled task.state task.sleep_until_tick
  pub counted : task.run_count ≤ u64_max

pub record IsValid (t : TaskTable) : Type 0 where
  pub size : length t.slots ≡ max_tasks
  pub in_ring : t.next_rr_index < max_tasks
  pub next_fits : t.next_id ≤ u64_max
  pub distinct : Distinct (ids t.slots)
  pub good : AllTasks (IsGood t.next_id) t.slots

IsGood-mono : (m n : ℕ) (task : TaskInfo) → m ≤ n → IsGood m task → IsGood n task
IsGood-mono m n task h g = record { below = omega arith; settled = g.settled; counted = g.counted }

IsGood-start : (n : ℕ) (task : TaskInfo) → IsGood n task → IsGood n (finish_task (start_task task))
IsGood-start n task g = record { below = g.below; settled = tt; counted = omega arith }

woken-IsGood :
    (n now : ℕ) (slot : Option TaskInfo) → Holds (IsGood n) slot → Holds (IsGood n) (woken now slot)
unfolding wake_slot
woken-IsGood n now none h = tt
woken-IsGood n now (some task) h = ground arith

-- The slots that hold an identifier below a bound do not hold the bound.
pub below-Absent :
    (n : ℕ) (slots : List (Option TaskInfo)) → AllTasks (IsGood n) slots → Absent n (ids slots)
below-Absent n [] h = tt
below-Absent n (none ∷ rest) h = below-Absent n rest h
below-Absent n (some task ∷ rest) h = (omega arith, below-Absent n rest h.1)

pub any_id-Absent :
    (n : ℕ) (slots : List (Option TaskInfo)) → any_id n slots ≡ false → Absent n (ids slots)
unfolding any_id
any_id-Absent n [] h = tt
any_id-Absent n (none ∷ rest) h = any_id-Absent n rest h
any_id-Absent n (some task ∷ rest) h = (ground arith, any_id-Absent n rest (ground arith))

-- A new task in a slot.
pub put-IsValid :
    (t : TaskTable) (i id n : ℕ) (kind : TaskKind)
    → Absent id (ids t.slots)
    → id < n
    → t.next_id ≤ n
    → n ≤ u64_max
    → IsValid t
    → IsValid (record t { slots = set t.slots i (some (fresh_task id kind)); next_id = n })
put-IsValid t i id n kind a lt le fits v = record {
  size = length-set t.slots i _ ∙ v.size;
  in_ring = v.in_ring;
  next_fits = fits;
  distinct =
      rw (ids-set t.slots i (some (fresh_task id kind)))
        (Distinct-set id (ids t.slots) i a v.distinct);
  good =
      AllTasks-set (IsGood n) t.slots i (some (fresh_task id kind))
        (record { below = lt; settled = tt; counted = omega arith })
        (AllTasks-mono (IsGood t.next_id) (IsGood n) t.slots
          (λ task. IsGood-mono t.next_id n task le) v.good);
}

pub wake_due-IsValid : (now : ℕ) (t : TaskTable) → IsValid t → IsValid (wake_due now t).1
unfolding wake_due
wake_due-IsValid now t v = rw (wake_slots-map now t.slots 0) (record {
  size = length-map (woken now) t.slots ∙ v.size;
  in_ring = v.in_ring;
  next_fits = v.next_fits;
  distinct = rw (ids-wake now t.slots) v.distinct;
  good = AllTasks-wake (IsGood t.next_id) now t.slots (woken-IsGood t.next_id now) v.good;
})

pub run_slot-IsValid : (i : ℕ) (t : TaskTable) → IsValid t → IsValid (run_slot i t).1
unfolding run_slot
run_slot-IsValid i t v = elim (Option-cases (get_or t.slots i none)) [
  | inl e ↦
      rw (e, run_slot)
        (record {
          size = v.size;
          in_ring = omega arith;
          next_fits = v.next_fits;
          distinct = v.distinct;
          good = v.good;
        })
  | inr (task, e) ↦
      rw (e, run_slot)
        (rw (set-set t.slots i (some (start_task task))) (record {
          size = length-set t.slots i _ ∙ v.size;
          in_ring = omega arith;
          next_fits = v.next_fits;
          distinct =
              rw (ids-set_same t.slots i (finish_task (start_task task)) (ap id_of e)) v.distinct;
          good =
              AllTasks-set (IsGood t.next_id) t.slots i _
                (IsGood-start t.next_id task
                  (rw e at (AllTasks-get_or (IsGood t.next_id) t.slots i v.good)))
                v.good;
        }))
]

pub step-IsValid : (now : ℕ) (t : TaskTable) → IsValid t → IsValid (step now t).1
unfolding step
step-IsValid now t v =
    let awake = (wake_due now t).1 in
    let w : IsValid awake = wake_due-IsValid now t v in
    elim (Option-cases (select_priority awake.slots none)) [
      | inl e ↦ rw (e, step) w
      | inr (p, e) ↦
          elim (Option-cases (select_index awake.slots awake.next_rr_index p 0 max_tasks)) [
            | inl f ↦ rw (e, step) (rw (f, step) w)
            | inr (i, f) ↦ rw (e, step) (rw (f, step) (run_slot-IsValid i awake w))
          ]
    ]

pub with_task-IsValid {ℓ} :
    {A : Type ℓ} (id : ℕ) (body : Body A) (t : TaskTable)
    → Keeps id body
    → ((task : TaskInfo) → IsGood t.next_id task → Holds (IsGood t.next_id) (body task).1)
    → IsValid t
    → IsValid (with_task id body t).1
unfolding with_task
with_task-IsValid id body t keeps good v = record {
  size = length-for_task id body t.slots ∙ v.size;
  in_ring = v.in_ring;
  next_fits = v.next_fits;
  distinct = Distinct-for_task id body keeps t.slots v.distinct;
  good = AllTasks-for_task id body (IsGood t.next_id) t.slots good v.good;
}
