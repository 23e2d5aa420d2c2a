-- ===== src/Task/Spawn.antt =====
-- kernel/src/task.rs: `spawn` and `step` against the map of the tasks.
use mathlib.Core.Path.{fun_ext}
use jing_os.Base.{
  ℕ, zero, suc, ◌+◌, ◌≤◌, ◌<◌, ◌≡◌, refl, ap, ◌∙◌, inl, inr, Option, none, some, List, [], ◌∷◌,
  arith, length, length-set, get_or, set, ◌==◌, if◌then◌else◌, Option-cases, saturating_add, ok,
  err, u64_max,
}
use jing_os.Task.Data.{ready, TaskKind, TaskInfo, TaskTable, table_full, max_tasks}
use jing_os.Task.Table.{position_none, fresh_task, spawn}
use jing_os.Task.Slots.{ids, Absent}
use jing_os.Task.Loops.{lookup, lookup-Absent}
use jing_os.Task.Invariant.{IsValid, below-Absent}
use jing_os.Task.Spec.{view, insert}

-- How many tasks the slots hold.
abbrev pub occupied : List (Option TaskInfo) → ℕ
occupied [] = 0
occupied (none ∷ rest) = occupied rest
occupied (some task ∷ rest) = suc (occupied rest)

occupied-le-length : (slots : List (Option TaskInfo)) → occupied slots ≤ length slots
occupied-le-length [] = omega arith
occupied-le-length (none ∷ rest) = omega (arith, occupied-le-length rest)
occupied-le-length (some task ∷ rest) = omega (arith, occupied-le-length rest)

-- `position` finds no empty slot exactly if all slots are occupied.
position_none_full :
    (slots : List (Option TaskInfo)) (o : ℕ)
    → position_none o slots ≡ none
    → occupied slots ≡ length slots
unfolding position_none
position_none_full [] o e = refl
position_none_full (none ∷ rest) o e = cc
position_none_full (some task ∷ rest) o e = ap suc (position_none_full rest (o + 1) e)

position_none_empty :
    (slots : List (Option TaskInfo)) (o i : ℕ)
    → position_none o slots ≡ some i
    → (j : ℕ) × (i ≡ o + j) × (j < length slots) × (get_or slots j none ≡ none)
unfolding position_none
position_none_empty [] o i e = cc
position_none_empty (none ∷ rest) o i e = (0, ground arith, omega arith, refl)
position_none_empty (some task ∷ rest) o i e =
    let (j, a, b, c) = position_none_empty rest (o + 1) i e in (suc j, omega arith, omega arith, c)

-- A new task in an empty slot.
lookup-set_new :
    (k : ℕ) (slots : List (Option TaskInfo)) (i : ℕ) (task : TaskInfo)
    → i < length slots
    → get_or slots i none ≡ none
    → Absent task.id (ids slots)
    → lookup k (set slots i (some task)) ≡ (if k == task.id then some task else lookup k slots)
lookup-set_new k [] i task lt e a = absurd (omega arith)
lookup-set_new k (none ∷ rest) zero task lt e a = ground arith
lookup-set_new k (some old ∷ rest) zero task lt e a = cc
lookup-set_new k (none ∷ rest) (suc i) task lt e a = lookup-set_new k rest i task (omega arith) e a
lookup-set_new k (some old ∷ rest) (suc i) task lt e a =
    ground (arith, lookup-set_new k rest i task (omega arith) e a.1)

occupied-set_new :
    (slots : List (Option TaskInfo)) (i : ℕ) (task : TaskInfo)
    → i < length slots
    → get_or slots i none ≡ none
    → occupied (set slots i (some task)) ≡ suc (occupied slots)
occupied-set_new [] i task lt e = absurd (omega arith)
occupied-set_new (none ∷ rest) zero task lt e = refl
occupied-set_new (some old ∷ rest) zero task lt e = cc
occupied-set_new (none ∷ rest) (suc i) task lt e = occupied-set_new rest i task (omega arith) e
occupied-set_new (some old ∷ rest) (suc i) task lt e =
    ap suc (occupied-set_new rest i task (omega arith) e)

-- `spawn` on a table with eight tasks is refused and changes nothing.
pub spawn_full :
    (kind : TaskKind) (t : TaskTable)
    → IsValid t
    → occupied t.slots ≡ max_tasks
    → spawn kind t ≡ (err table_full, t)
unfolding spawn
spawn_full kind t v full = elim (Option-cases (position_none 0 t.slots)) [
  | inl e ↦ rw (e, spawn)
  | inr (i, e) ↦
      let (j, a, b, c) = position_none_empty t.slots 0 i e in
      absurd (
        omega (
          arith,
          occupied-set_new t.slots j (fresh_task 0 kind) b c,
          occupied-le-length (set t.slots j (some (fresh_task 0 kind))),
          length-set t.slots j (some (fresh_task 0 kind)),
          v.size,
        ))
]

-- `spawn` on a valid table with fewer than eight tasks answers a new identifier, under which the map
-- then has a ready task of that kind that never ran, with the priority 10; no task is lost or
-- changed.
pub spawn_refines :
    (kind : TaskKind) (t : TaskTable)
    → IsValid t
    → occupied t.slots < max_tasks
    → (view t t.next_id ≡ none)
      × ((spawn kind t).0 ≡ ok t.next_id)
      × (view (spawn kind t).1
          ≡ insert t.next_id
              (record {
                id = t.next_id;
                kind = kind;
                state = ready;
                run_count = 0;
                priority = 10;
                sleep_until_tick = none;
              })
              (view t))
      × (occupied (spawn kind t).1.slots ≡ occupied t.slots + 1)
unfolding spawn
spawn_refines kind t v room = elim (Option-cases (position_none 0 t.slots)) [
  | inl e ↦ absurd (omega (arith, position_none_full t.slots 0 e, v.size))
  | inr (i, e) ↦
      let (j, a, b, c) = position_none_empty t.slots 0 i e in
      let absent = below-Absent t.next_id t.slots v.good in
      let task = fresh_task t.next_id kind in
      let same : i ≡ j = omega arith in
      rw (e, spawn)
        (rw same (
          lookup-Absent t.next_id t.slots absent,
          refl,
          fun_ext (λ k. lookup-set_new k t.slots j task b c absent),
          omega (arith, occupied-set_new t.slots j task b c),
        ))
]

spawn_open :
    (kind : TaskKind) (t : TaskTable)
    → length t.slots ≡ max_tasks
    → occupied t.slots < max_tasks
    → ((spawn kind t).0 ≡ ok t.next_id)
      × ((spawn kind t).1.next_id ≡ saturating_add t.next_id 1)
      × (length (spawn kind t).1.slots ≡ max_tasks)
      × (occupied (spawn kind t).1.slots ≡ occupied t.slots + 1)
unfolding spawn
spawn_open kind t size room = elim (Option-cases (position_none 0 t.slots)) [
  | inl e ↦ absurd (omega (arith, position_none_full t.slots 0 e))
  | inr (i, e) ↦
      let (j, a, b, c) = position_none_empty t.slots 0 i e in
      let task = fresh_task t.next_id kind in
      let same : i ≡ j = omega arith in
      rw (e, spawn)
        (rw same (
          refl,
          refl,
          length-set t.slots j _ ∙ size,
          omega (arith, occupied-set_new t.slots j task b c),
        ))
]

-- Identifiers run out without an error: from `u64::MAX` on, two spawns answer the same identifier,
-- as long as there is room for both.
pub spawn_at_limit :
    (kind other : TaskKind) (t : TaskTable)
    → IsValid t
    → t.next_id ≡ u64_max
    → occupied t.slots + 1 < max_tasks
    → ((spawn kind t).0 ≡ ok u64_max) × ((spawn other (spawn kind t).1).0 ≡ ok u64_max)
spawn_at_limit kind other t v last room =
    let (a, b, c, d) = spawn_open kind t v.size (omega arith) in
    let a' = (spawn_open other (spawn kind t).1 c (omega arith)).0 in
    (a ∙ ap ok last, a' ∙ ap ok (omega arith))
