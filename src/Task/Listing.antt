-- ===== src/Task/Listing.antt =====
-- kernel/src/task.rs: `snapshot` and `list`, what the monitor prints of the table.
use mathlib.Core.Path.{ap₂}
use native.Mathlib.Nat.{add-zero, zero-add}
use jing_os.Base.{
  append_assoc, ℕ, suc, ◌+◌, ◌≤◌, ◌≡◌, refl, ◌∙◌, Bool, Option, none, some, List, [], ◌∷◌, ◌++◌,
  map, arith, length, length-append, set-append, drop, if◌then◌else◌,
}
use jing_os.Task.Data.{
  TaskState, TaskInfo, TaskTable, SchedulerSnapshot, max_tasks, is_ready, is_running, is_sleeping,
}
use jing_os.Task.Table.{count_task, count_slots, empty_snapshot, snapshot, list_slots, list}
use jing_os.Task.Slots.{AllTasks}
use jing_os.Task.Invariant.{IsValid, IsGood}

-- The tasks of the slots, in order.
abbrev pub tasks : List (Option TaskInfo) → List TaskInfo
tasks [] = []
tasks (none ∷ rest) = tasks rest
tasks (some task ∷ rest) = task ∷ tasks rest

abbrev pub count_if : (TaskState → Bool) → List TaskInfo → ℕ
count_if p [] = 0
count_if p (task ∷ rest) = if p task.state then suc (count_if p rest) else count_if p rest

-- What the loop of `snapshot` adds to its counts.
record Counts (slots : List (Option TaskInfo)) (s r : SchedulerSnapshot) : Type 0 where
  totals : r.total ≡ s.total + length (tasks slots)
  readies : r.ready_tasks ≡ s.ready_tasks + count_if is_ready (tasks slots)
  runnings : r.running_tasks ≡ s.running_tasks + count_if is_running (tasks slots)
  sleepings : r.sleeping_tasks ≡ s.sleeping_tasks + count_if is_sleeping (tasks slots)
  finisheds : r.finished ≡ s.finished
  capacities : r.capacity ≡ s.capacity
  nexts : r.next_id ≡ s.next_id

count_slots-Counts :
    (slots : List (Option TaskInfo)) (s : SchedulerSnapshot) → Counts slots s (count_slots slots s)
unfolding count_slots count_task
count_slots-Counts [] s = omega arith
count_slots-Counts (none ∷ rest) s = omega (arith, count_slots-Counts rest s)
count_slots-Counts (some task ∷ rest) s =
    ground (arith, count_slots-Counts rest (count_task task.state s))

tasks_fit : (slots : List (Option TaskInfo)) → length (tasks slots) ≤ length slots
tasks_fit [] = omega arith
tasks_fit (none ∷ rest) = omega (arith, tasks_fit rest)
tasks_fit (some task ∷ rest) = omega (arith, tasks_fit rest)

none_running :
    (n : ℕ) (slots : List (Option TaskInfo))
    → AllTasks (IsGood n) slots
    → count_if is_running (tasks slots) ≡ 0
none_running n [] h = refl
none_running n (none ∷ rest) h = none_running n rest h
none_running n (some task ∷ rest) h = ground (arith, none_running n rest h.1)

count_split :
    (ts : List TaskInfo)
    → count_if is_ready ts + count_if is_running ts + count_if is_sleeping ts ≡ length ts
count_split [] = refl
count_split (task ∷ rest) = ground (arith, count_split rest)

-- The snapshot of a valid table counts its ready and its sleeping tasks, which make up the total,
-- and no running one.
pub snapshot_lem :
    (t : TaskTable)
    → IsValid t
    → ((snapshot t).ready_tasks ≡ count_if is_ready (tasks t.slots))
      × ((snapshot t).sleeping_tasks ≡ count_if is_sleeping (tasks t.slots))
      × ((snapshot t).running_tasks ≡ 0)
      × ((snapshot t).total ≡ (snapshot t).ready_tasks + (snapshot t).sleeping_tasks)
      × ((snapshot t).total ≤ (snapshot t).capacity)
      × ((snapshot t).next_id ≡ t.next_id)
unfolding snapshot
snapshot_lem t v = omega (
  arith,
  count_slots-Counts t.slots (empty_snapshot t.next_id),
  none_running t.next_id t.slots v.good,
  count_split (tasks t.slots),
  tasks_fit t.slots,
  v.size,
)

list_slots_lem :
    (slots out done : List (Option TaskInfo))
    → length (tasks slots) ≤ length out
    → list_slots slots (length done) (done ++ out) ≡ (
      length done + length (tasks slots),
      done ++ (map some (tasks slots) ++ drop (length (tasks slots)) out),
    )
unfolding list_slots
list_slots_lem [] out done h = rw add-zero
list_slots_lem (none ∷ rest) out done h = list_slots_lem rest out done h
list_slots_lem (some task ∷ rest) [] done h = absurd (omega arith)
list_slots_lem (some task ∷ rest) (o ∷ out) done h =
    let last : List (Option TaskInfo) = some task ∷ [] in
    let len : length (done ++ last) ≡ length done + 1 = length-append done last in
    let ih = list_slots_lem rest out (done ++ last) (omega arith) in
    rw (set-append done o out (some task), ← len, ← append_assoc done last out)
      (ih
        ∙ ap₂ (λ n (l : List (Option TaskInfo)). (n, l)) (omega arith)
            (append_assoc done last (map some (tasks rest) ++ drop (length (tasks rest)) out)))

-- `list` on a valid table writes the tasks, in the order of the slots, to the front of the output and
-- answers their number; it never writes out of bounds, and leaves the rest of the output.
pub list_lem :
    (t : TaskTable) (output : List (Option TaskInfo))
    → IsValid t
    → length output ≡ max_tasks
    → list t output
      ≡ (length (tasks t.slots), map some (tasks t.slots) ++ drop (length (tasks t.slots)) output)
unfolding list
list_lem t output v full =
    rw zero-add at (list_slots_lem t.slots output [] (omega (arith, tasks_fit t.slots, v.size)))
