-- ===== src/Task/Select.antt =====
-- kernel/src/task.rs: which task a step runs: one of the highest ready priority, and the first such
-- in the ring of slots from `next_rr_index` on.
use jing_os.Base.{
  ℕ, zero, suc, ◌+◌, ◌%◌, ◌≤◌, ◌<◌, max, ◌≡◌, sym, ◌⊎◌, inl, inr, true, false, Option, none, some,
  List, [], ◌∷◌, arith, length, get_or, ◌==◌, Bool-cases, leb,
}
use jing_os.Task.Data.{TaskInfo, max_tasks, is_ready}
use jing_os.Task.Table.{select_priority, is_candidate, select_index}
use jing_os.Task.Slots.{AllTasks}

abbrev pub ReadyLe : ℕ → TaskInfo → Type 0
ReadyLe p task = is_ready task.state ≡ true → task.priority ≤ p

abbrev pub NotReady : TaskInfo → Type 0
NotReady task = is_ready task.state ≡ false

-- The slot at an index holds a ready task of priority `p`.
abbrev pub Candidate : ℕ → List (Option TaskInfo) → ℕ → Type 0
Candidate p slots i = is_candidate p (get_or slots i none) ≡ true

abbrev pub Found : List (Option TaskInfo) → Option ℕ → ℕ → Type 0
Found slots acc p = (acc ≡ some p) ⊎ ((i : ℕ) × (i < length slots) × Candidate p slots i)

abbrev pub AtMost : Option ℕ → ℕ → Type 0
AtMost none p = Unit {0}
AtMost (some c) p = c ≤ p

Found-cons :
    (acc acc' : Option ℕ) (task : TaskInfo) (rest : List (Option TaskInfo)) (p : ℕ)
    → Found rest acc p
    → (acc ≡ some p → Found (some task ∷ rest) acc' p)
    → Found (some task ∷ rest) acc' p
Found-cons acc acc' task rest p (inl f) g = g f
Found-cons acc acc' task rest p (inr (i, lt, c)) g = inr (suc i, omega arith, c)

Found-max :
    (c : ℕ) (task : TaskInfo) (rest : List (Option TaskInfo)) (p : ℕ)
    → is_ready task.state ≡ true
    → some (max c task.priority) ≡ some p
    → Found (some task ∷ rest) (some c) p
Found-max c task rest p r f = elim (Bool-cases (leb task.priority c)) [
  | inl h ↦ inl (ground arith)
  | inr h ↦ inr (0, omega arith, ground arith)
]

-- The first loop finds the maximum of the ready priorities, and it is reached.
pub select_priority-some :
    (slots : List (Option TaskInfo)) (acc : Option ℕ) (p : ℕ)
    → select_priority slots acc ≡ some p
    → AllTasks (ReadyLe p) slots × AtMost acc p × Found slots acc p
unfolding select_priority
select_priority-some [] acc p e = (tt, ground arith, inl e)
select_priority-some (none ∷ rest) acc p e =
    let (all, most, found) = select_priority-some rest acc p e in
    (all, most, elim found [ inl f ↦ inl f | inr (i, lt, c) ↦ inr (suc i, omega arith, c) ])
select_priority-some (some task ∷ rest) none p e = elim (Bool-cases (is_ready task.state)) [
  | inl r ↦
      let (all, most, found) = select_priority-some rest (some task.priority) p (rw r at e) in
      (
        ((λ _. most), all),
        tt,
        Found-cons (some task.priority) none task rest p found
            (λ f. inr (0, omega arith, ground arith)),
      )
  | inr r ↦
      let (all, most, found) = select_priority-some rest none p (rw r at e) in
      (((λ q. cc), all), tt, Found-cons none none task rest p found (λ f. inl f))
]
select_priority-some (some task ∷ rest) (some c) p e = elim (Bool-cases (is_ready task.state)) [
  | inl r ↦
      let (all, most, found) =
        select_priority-some rest (some (max c task.priority)) p (rw r at e) in
      (
        ((λ _. omega arith), all),
        omega arith,
        Found-cons (some (max c task.priority)) (some c) task rest p found
            (λ f. Found-max c task rest p r f),
      )
  | inr r ↦
      let (all, most, found) = select_priority-some rest (some c) p (rw r at e) in
      (((λ q. cc), all), most, Found-cons (some c) (some c) task rest p found (λ f. inl f))
]

pub select_priority-none :
    (slots : List (Option TaskInfo)) (acc : Option ℕ)
    → select_priority slots acc ≡ none
    → AllTasks NotReady slots × (acc ≡ none)
unfolding select_priority
select_priority-none [] acc e = (tt, e)
select_priority-none (none ∷ rest) acc e = select_priority-none rest acc e
select_priority-none (some task ∷ rest) acc e =
    let (all, e') = select_priority-none rest _ e in ground arith

-- The second loop: the candidate found is the first from `offset` on.
module _ (slots : List (Option TaskInfo)) (rr p : ℕ) where
  abbrev pub at : ℕ → ℕ
  at k = (rr + k) % max_tasks

  skip :
      (offset k j : ℕ)
      → is_candidate p (get_or slots (at offset) none) ≡ false
      → offset ≤ j
      → j < k
      → (offset + 1 ≤ j → j < k → ¬ Candidate p slots (at j))
      → ¬ Candidate p slots (at j)
  skip offset k j c a b g h = elim (Bool-cases (j == offset)) [
    | inl e ↦ let e' : j ≡ offset = ground arith in absurd (ground arith)
    | inr e ↦ g (ground arith) b h
  ]

  pub select_index-some :
      (offset n i : ℕ)
      → select_index slots rr p offset n ≡ some i
      → (k : ℕ) × (offset ≤ k)
        × (k < offset + n)
        × (i ≡ at k)
        × Candidate p slots i
        × ((j : ℕ) → offset ≤ j → j < k → ¬ Candidate p slots (at j))
  unfolding select_index
  select_index-some offset zero i e = cc
  select_index-some offset (suc n) i e =
      elim (Bool-cases (is_candidate p (get_or slots (at offset) none))) [
        | inl c ↦
            let e' : at offset ≡ i = ground arith in
            (offset, omega arith, omega arith, sym e', rw e' at c, λ j a b. absurd (omega arith))
        | inr c ↦
            let e' : select_index slots rr p (offset + 1) n ≡ some i = ground arith in
            let (k, a, b, d, f, g) = select_index-some (offset + 1) n i e' in
            (k, omega arith, omega arith, d, f, λ j u w. skip offset k j c u w (g j))
      ]

  pub select_index-none :
      (offset n : ℕ)
      → select_index slots rr p offset n ≡ none
      → (k : ℕ) → offset ≤ k
      → k < offset + n
      → ¬ Candidate p slots (at k)
  unfolding select_index
  select_index-none offset zero e k a b = absurd (omega arith)
  select_index-none offset (suc n) e k a b =
      elim (Bool-cases (is_candidate p (get_or slots (at offset) none))) [
        | inl c ↦ absurd (ground arith)
        | inr c ↦
            let e' : select_index slots rr p (offset + 1) n ≡ none = ground arith in
            skip offset (offset + suc n) k c a b
              (λ u w. select_index-none (offset + 1) n e' k u (omega arith))
      ]
