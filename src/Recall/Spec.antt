-- ===== src/Recall/Spec.antt =====
-- What the history promises: the last sixteen lines, the newest first, none of them equal to the one
-- entered just before it, and a place among them while the user browses.
use jing_os.Base.{
  ℕ, zero, suc, ◌+◌, ◌-◌, min, Bool, false, Option, none, some, List, [], ◌∷◌, ◌==◌, if◌then◌else◌,
  length, take, Bytes, str_eq,
}
use jing_os.Recall.Ring.{history_capacity}

pub record Recalled : Type 0 where
  pub lines : List Bytes
  pub browsing : Option ℕ

abbrev pub nothing : Recalled
nothing = record { lines = []; browsing = none }

abbrev pub nth : List Bytes → ℕ → Option Bytes
nth [] i = none
nth (x ∷ xs) zero = some x
nth (x ∷ xs) (suc i) = nth xs i

abbrev pub is_newest : Bytes → Option Bytes → Bool
is_newest s none = false
is_newest s (some x) = str_eq x s

abbrev pub remember : Bytes → Recalled → Recalled
remember s r =
    if length s == 0
    then r
    else (if is_newest s (nth r.lines 0)
        then record r { browsing = none }
        else record { lines = take history_capacity (s ∷ r.lines); browsing = none })

-- The age one step older, the newest first, and no older than the oldest.
abbrev pub older_age : Option ℕ → ℕ → ℕ
older_age none count = 0
older_age (some age) count = min (age + 1) (count - 1)

abbrev pub older : Recalled → Option Bytes × Recalled
older r =
    if length r.lines == 0
    then (none, r)
    else (let age = older_age r.browsing (length r.lines) in
        (nth r.lines age, record r { browsing = some age }))

abbrev pub newer : Recalled → Option Bytes × Recalled
newer r = elim r.browsing [
  | none ↦ (none, r)
  | some age ↦
      if age == 0
      then (none, record r { browsing = none })
      else (nth r.lines (age - 1), record r { browsing = some (age - 1) })
]
