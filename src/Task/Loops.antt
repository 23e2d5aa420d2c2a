-- ===== src/Task/Loops.antt =====
-- kernel/src/task.rs: what the loops of `wake_due` and of the calls by identifier do to the slots.
use jing_os.Base.{
  ℕ, suc, ◌≡◌, refl, ap, ◌⊎◌, inl, inr, Option, none, some, List, [], ◌∷◌, map, arith, err, length,
  ◌==◌, if◌then◌else◌, Bool-cases,
}
use jing_os.Task.Data.{TaskInfo, not_found}
use jing_os.Task.Table.{wake_slot, wake_slots}
use jing_os.Task.Control.{Body, for_task}
use jing_os.Task.Slots.{id_of, ids, Absent, Distinct, AllTasks, Holds}

-- The first task with the identifier.
abbrev pub lookup : ℕ → List (Option TaskInfo) → Option TaskInfo
lookup id [] = none
lookup id (none ∷ rest) = lookup id rest
lookup id (some task ∷ rest) = if task.id == id then some task else lookup id rest

abbrev pub woken : ℕ → Option TaskInfo → Option TaskInfo
woken now slot = (wake_slot now slot).0

pub wake_slots-map :
    (now : ℕ) (slots : List (Option TaskInfo)) (woke : ℕ)
    → (wake_slots now slots woke).1 ≡ map (woken now) slots
unfolding wake_slots
wake_slots-map now [] woke = refl
wake_slots-map now (slot ∷ rest) woke = ap (woken now slot ∷◌) (wake_slots-map now rest _)

pub id_of-woken : (now : ℕ) (slot : Option TaskInfo) → id_of (woken now slot) ≡ id_of slot
unfolding wake_slot
id_of-woken now none = refl
id_of-woken now (some task) = ground arith

pub ids-wake : (now : ℕ) (slots : List (Option TaskInfo)) → ids (map (woken now) slots) ≡ ids slots
ids-wake now [] = refl
ids-wake now (slot ∷ rest) = cc (id_of-woken now slot, ids-wake now rest)

pub length-ids : (slots : List (Option TaskInfo)) → length (ids slots) ≡ length slots
length-ids [] = refl
length-ids (s ∷ rest) = ap suc (length-ids rest)

AllTasks-cons :
    (P : TaskInfo → Type 0) (slot : Option TaskInfo) (rest : List (Option TaskInfo))
    → Holds P slot
    → AllTasks P rest
    → AllTasks P (slot ∷ rest)
AllTasks-cons P none rest p h = h
AllTasks-cons P (some task) rest p h = (p, h)

AllTasks-uncons :
    (P : TaskInfo → Type 0) (slot : Option TaskInfo) (rest : List (Option TaskInfo))
    → AllTasks P (slot ∷ rest)
    → Holds P slot × AllTasks P rest
AllTasks-uncons P none rest h = (tt, h)
AllTasks-uncons P (some task) rest h = h

pub AllTasks-wake :
    (P : TaskInfo → Type 0) (now : ℕ) (slots : List (Option TaskInfo))
    → ((slot : Option TaskInfo) → Holds P slot → Holds P (woken now slot))
    → AllTasks P slots
    → AllTasks P (map (woken now) slots)
AllTasks-wake P now [] f h = tt
AllTasks-wake P now (slot ∷ rest) f h =
    let (p, q) = AllTasks-uncons P slot rest h in
    AllTasks-cons P (woken now slot) _ (f slot p) (AllTasks-wake P now rest f q)

pub lookup-Absent :
    (id : ℕ) (slots : List (Option TaskInfo)) → Absent id (ids slots) → lookup id slots ≡ none
lookup-Absent id [] h = refl
lookup-Absent id (none ∷ rest) h = lookup-Absent id rest h
lookup-Absent id (some task ∷ rest) h = ground (arith, lookup-Absent id rest h.1)

module _ {ℓ} {A : Type ℓ} (id : ℕ) (body : Body A) where
  -- The body answers for the first task with the identifier, and only its slot changes.
  pub for_task-result :
      (slots : List (Option TaskInfo))
      → (for_task id body slots).0
        ≡ elim (lookup id slots) [ none ↦ err not_found | some task ↦ (body task).0 ]
  unfolding for_task
  for_task-result [] = refl
  for_task-result (none ∷ rest) = for_task-result rest
  for_task-result (some task ∷ rest) = elim (Bool-cases (task.id == id)) [
    | inl e ↦ rw e refl
    | inr e ↦ rw e (for_task-result rest)
  ]

  -- The body leaves the slot empty, or with a task of the same identifier.
  abbrev pub Keeps : Type 0
  Keeps =
      (task : TaskInfo)
      → ((body task).1 ≡ none) ⊎ ((t : TaskInfo) × ((body task).1 ≡ some t) × (t.id ≡ task.id))

  pub for_task-lookup :
      Keeps
      → (k : ℕ) (slots : List (Option TaskInfo)) → Distinct (ids slots)
      → lookup k (for_task id body slots).1 ≡ (
          if k == id
          then elim (lookup id slots) [ none ↦ none | some task ↦ (body task).1 ]
          else lookup k slots)
  unfolding for_task
  for_task-lookup keeps k [] d = ground arith
  for_task-lookup keeps k (none ∷ rest) d = for_task-lookup keeps k rest d
  for_task-lookup keeps k (some task ∷ rest) d = elim (Bool-cases (task.id == id)) [
    | inl e ↦ elim (keeps task) [
      | inl gone ↦ rw e (ground (arith, lookup-Absent k rest))
      | inr (t, kept, same) ↦ rw e (ground arith)
    ]
    | inr e ↦ rw e (ground (arith, for_task-lookup keeps k rest d.1))
  ]

  Absent-for_task :
      Keeps
      → (n : ℕ) (slots : List (Option TaskInfo)) → Absent n (ids slots)
      → Absent n (ids (for_task id body slots).1)
  unfolding for_task
  Absent-for_task keeps n [] h = tt
  Absent-for_task keeps n (none ∷ rest) h = Absent-for_task keeps n rest h
  Absent-for_task keeps n (some task ∷ rest) h = elim (Bool-cases (task.id == id)) [
    | inl e ↦ elim (keeps task) [
      | inl gone ↦ rw e (rw gone h.1)
      | inr (t, kept, same) ↦ rw e (rw (kept, same) h)
    ]
    | inr e ↦ rw e (h.0, Absent-for_task keeps n rest h.1)
  ]

  pub Distinct-for_task :
      Keeps
      → (slots : List (Option TaskInfo)) → Distinct (ids slots)
      → Distinct (ids (for_task id body slots).1)
  unfolding for_task
  Distinct-for_task keeps [] d = tt
  Distinct-for_task keeps (none ∷ rest) d = Distinct-for_task keeps rest d
  Distinct-for_task keeps (some task ∷ rest) d = elim (Bool-cases (task.id == id)) [
    | inl e ↦ elim (keeps task) [
      | inl gone ↦ rw e (rw gone d.1)
      | inr (t, kept, same) ↦ rw e (rw (kept, same) d)
    ]
    | inr e ↦ rw e (Absent-for_task keeps task.id rest d.0, Distinct-for_task keeps rest d.1)
  ]

  pub AllTasks-for_task :
      (P : TaskInfo → Type 0) (slots : List (Option TaskInfo))
      → ((task : TaskInfo) → P task → Holds P (body task).1)
      → AllTasks P slots
      → AllTasks P (for_task id body slots).1
  unfolding for_task
  AllTasks-for_task P [] f h = tt
  AllTasks-for_task P (none ∷ rest) f h = AllTasks-for_task P rest f h
  AllTasks-for_task P (some task ∷ rest) f h = elim (Bool-cases (task.id == id)) [
    | inl e ↦ rw e (AllTasks-cons P (body task).1 rest (f task h.0) h.1)
    | inr e ↦ rw e (h.0, AllTasks-for_task P rest f h.1)
  ]

  pub length-for_task :
      (slots : List (Option TaskInfo)) → length (for_task id body slots).1 ≡ length slots
  unfolding for_task
  length-for_task [] = refl
  length-for_task (none ∷ rest) = ap suc (length-for_task rest)
  length-for_task (some task ∷ rest) = ground (arith, length-for_task rest)
