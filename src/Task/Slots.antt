-- ===== src/Task/Slots.antt =====
-- kernel/src/task.rs: lists of slots, their identifiers, and what the loops over them keep.
use jing_os.Base.{
  ℕ, zero, suc, ◌≡◌, refl, sym, ap, ◌≢◌, Option, none, some, List, [], ◌∷◌, map, get_or, set,
}
use jing_os.Task.Data.{TaskInfo}

abbrev pub id_of : Option TaskInfo → Option ℕ
id_of none = none
id_of (some task) = some task.id

abbrev pub ids : List (Option TaskInfo) → List (Option ℕ)
ids = map id_of

abbrev pub Absent : ℕ → List (Option ℕ) → Type 0
Absent n [] = Unit {0}
Absent n (none ∷ rest) = Absent n rest
Absent n (some m ∷ rest) = (m ≢ n) × Absent n rest

-- No two slots hold the same identifier.
abbrev pub Distinct : List (Option ℕ) → Type 0
Distinct [] = Unit {0}
Distinct (none ∷ rest) = Distinct rest
Distinct (some m ∷ rest) = Absent m rest × Distinct rest

abbrev pub AllTasks : (TaskInfo → Type 0) → List (Option TaskInfo) → Type 0
AllTasks P [] = Unit {0}
AllTasks P (none ∷ rest) = AllTasks P rest
AllTasks P (some task ∷ rest) = P task × AllTasks P rest

-- `P` of the task in a slot, if one is there.
abbrev pub Holds : (TaskInfo → Type 0) → Option TaskInfo → Type 0
Holds P none = Unit {0}
Holds P (some task) = P task

pub AllTasks-mono :
    (P Q : TaskInfo → Type 0) (slots : List (Option TaskInfo))
    → ((task : TaskInfo) → P task → Q task)
    → AllTasks P slots
    → AllTasks Q slots
AllTasks-mono P Q [] f h = tt
AllTasks-mono P Q (none ∷ rest) f h = AllTasks-mono P Q rest f h
AllTasks-mono P Q (some task ∷ rest) f h = (f task h.0, AllTasks-mono P Q rest f h.1)

pub AllTasks-set :
    (P : TaskInfo → Type 0) (slots : List (Option TaskInfo)) (i : ℕ) (slot : Option TaskInfo)
    → Holds P slot
    → AllTasks P slots
    → AllTasks P (set slots i slot)
AllTasks-set P [] i slot p h = tt
AllTasks-set P (none ∷ rest) zero none p h = h
AllTasks-set P (none ∷ rest) zero (some task) p h = (p, h)
AllTasks-set P (some old ∷ rest) zero none p h = h.1
AllTasks-set P (some old ∷ rest) zero (some task) p h = (p, h.1)
AllTasks-set P (none ∷ rest) (suc i) slot p h = AllTasks-set P rest i slot p h
AllTasks-set P (some old ∷ rest) (suc i) slot p h = (h.0, AllTasks-set P rest i slot p h.1)

pub AllTasks-get_or :
    (P : TaskInfo → Type 0) (slots : List (Option TaskInfo)) (i : ℕ)
    → AllTasks P slots
    → Holds P (get_or slots i none)
AllTasks-get_or P [] i h = tt
AllTasks-get_or P (none ∷ rest) zero h = tt
AllTasks-get_or P (some task ∷ rest) zero h = h.0
AllTasks-get_or P (none ∷ rest) (suc i) h = AllTasks-get_or P rest i h
AllTasks-get_or P (some task ∷ rest) (suc i) h = AllTasks-get_or P rest i h.1

pub ids-set :
    (slots : List (Option TaskInfo)) (i : ℕ) (slot : Option TaskInfo)
    → ids (set slots i slot) ≡ set (ids slots) i (id_of slot)
ids-set [] i slot = refl
ids-set (s ∷ rest) zero slot = refl
ids-set (s ∷ rest) (suc i) slot = ap (id_of s ∷◌) (ids-set rest i slot)

-- A task may be changed in place, if it keeps its identifier.
pub ids-set_same :
    (slots : List (Option TaskInfo)) (i : ℕ) (task : TaskInfo)
    → id_of (get_or slots i none) ≡ some task.id
    → ids (set slots i (some task)) ≡ ids slots
ids-set_same [] i task e = refl
ids-set_same (s ∷ rest) zero task e = ap (◌∷ ids rest) (sym e)
ids-set_same (s ∷ rest) (suc i) task e = ap (id_of s ∷◌) (ids-set_same rest i task e)

pub Absent-set-none :
    (n : ℕ) (is : List (Option ℕ)) (i : ℕ) → Absent n is → Absent n (set is i none)
Absent-set-none n [] i h = tt
Absent-set-none n (none ∷ rest) zero h = h
Absent-set-none n (some m ∷ rest) zero h = h.1
Absent-set-none n (none ∷ rest) (suc i) h = Absent-set-none n rest i h
Absent-set-none n (some m ∷ rest) (suc i) h = (h.0, Absent-set-none n rest i h.1)

Absent-set :
    (n k : ℕ) (is : List (Option ℕ)) (i : ℕ) → k ≢ n → Absent n is → Absent n (set is i (some k))
Absent-set n k [] i ne h = tt
Absent-set n k (none ∷ rest) zero ne h = (ne, h)
Absent-set n k (some m ∷ rest) zero ne h = (ne, h.1)
Absent-set n k (none ∷ rest) (suc i) ne h = Absent-set n k rest i ne h
Absent-set n k (some m ∷ rest) (suc i) ne h = (h.0, Absent-set n k rest i ne h.1)

-- A new identifier keeps the slots distinct, wherever it is put.
pub Distinct-set :
    (k : ℕ) (is : List (Option ℕ)) (i : ℕ)
    → Absent k is
    → Distinct is
    → Distinct (set is i (some k))
Distinct-set k [] i h d = tt
Distinct-set k (none ∷ rest) zero h d = (h, d)
Distinct-set k (some m ∷ rest) zero h d = (h.1, d.1)
Distinct-set k (none ∷ rest) (suc i) h d = Distinct-set k rest i h d
Distinct-set k (some m ∷ rest) (suc i) h d =
    (Absent-set m k rest i (λ e. h.0 (sym e)) d.0, Distinct-set k rest i h.1 d.1)
