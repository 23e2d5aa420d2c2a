-- ===== src/Task/Fairness.antt =====
-- kernel/src/task.rs: the round robin of `step` starves no task of the highest priority.
use jing_os.Base.{
  ℕ, ◌+◌, ◌%◌, ◌≤◌, ◌<◌, ◌≡◌, ◌≢◌, refl, sym, ap, ◌∙◌, ◌⊎◌, inl, inr, true, Option, none, some,
  List, [], ◌∷◌, map, arith, length, get_or, get_or-set_ne, ◌==◌, Bool-cases, ltb, ltb→lt, ltb→le,
}
use jing_os.Task.Data.{
  TaskState, ready, running, sleeping, TaskInfo, TaskTable, TaskStepReport, max_tasks, is_ready,
}
use jing_os.Task.Table.{wake_slot, wake_due, step, report_of, start_task}
use jing_os.Task.Slots.{AllTasks, AllTasks-mono, AllTasks-set, AllTasks-get_or, Holds}
use jing_os.Task.Loops.{woken, wake_slots-map}
use jing_os.Task.Invariant.{IsValid, step-IsValid}
use jing_os.Task.Select.{ReadyLe, NotReady, Candidate}
use jing_os.Task.Step.{turn, Picks, ran, stepped_lem}

abbrev pub AllAbove : ℕ → List ℕ → Type 0
AllAbove until [] = Unit {0}
AllAbove until (now ∷ nows) = (now < until) × AllAbove until nows

-- Over these ticks the task neither falls asleep nor wakes: it is ready, or sleeps beyond them.
abbrev pub StaysPut : List ℕ → TaskState → Option ℕ → Type 0
StaysPut nows ready u = Unit {0}
StaysPut nows running u = ⊥
StaysPut nows sleeping none = ⊥
StaysPut nows sleeping (some until) = AllAbove until nows

abbrev pub Quiet : List ℕ → TaskInfo → Type 0
Quiet nows task = StaysPut nows task.state task.sleep_until_tick

-- The task in slot `i` is ready and no ready task has a higher priority, at all of these ticks.
pub record Contends (nows : List ℕ) (t : TaskTable) (i : ℕ) (task : TaskInfo) : Type 0 where
  pub in_range : i < max_tasks
  pub here : get_or t.slots i none ≡ some task
  pub can_run : is_ready task.state ≡ true
  pub highest : AllTasks (ReadyLe task.priority) t.slots
  pub quiet : AllTasks (Quiet nows) t.slots

-- The reports of one step at each of the ticks.
abbrev pub reports : List ℕ → TaskTable → List (Option TaskStepReport)
reports [] t = []
reports (now ∷ nows) t = (step now t).0 ∷ reports nows (step now t).1

abbrev pub Reported : ℕ → List (Option TaskStepReport) → Type 0
Reported id [] = ⊥
Reported id (none ∷ rest) = Reported id rest
Reported id (some report ∷ rest) = (report.id ≡ id) ⊎ Reported id rest

Quiet-tail : (now : ℕ) (nows : List ℕ) (task : TaskInfo) → Quiet (now ∷ nows) task → Quiet nows task
Quiet-tail now nows task q = ground arith

map-woken-Quiet :
    (now : ℕ) (nows : List ℕ) (slots : List (Option TaskInfo))
    → AllTasks (Quiet (now ∷ nows)) slots
    → map (woken now) slots ≡ slots
unfolding wake_slot
map-woken-Quiet now nows [] q = refl
map-woken-Quiet now nows (none ∷ rest) q = ap (none ∷◌) (map-woken-Quiet now nows rest q)
map-woken-Quiet now nows (some task ∷ rest) q = ground (arith, map-woken-Quiet now nows rest q.1)

wake_due-Quiet :
    (now : ℕ) (nows : List ℕ) (t : TaskTable)
    → AllTasks (Quiet (now ∷ nows)) t.slots
    → (wake_due now t).1 ≡ t
unfolding wake_due
wake_due-Quiet now nows t q =
    rw (wake_slots-map now t.slots 0)
      (ap (λ slots. record t { slots = slots }) (map-woken-Quiet now nows t.slots q))

turn-ran :
    (t : TaskTable) (i j : ℕ) (task : TaskInfo)
    → t.next_rr_index < 8
    → i < 8
    → j < 8
    → turn t j ≤ turn t i
    → i ≢ j
    → turn (ran t j task) i < turn t i
turn-ran t i j task h hi hj le ne = omega arith

module _ (now : ℕ) (nows : List ℕ) (t : TaskTable) (i : ℕ) (task : TaskInfo)
    (c : Contends (now ∷ nows) t i task) (j : ℕ) (other : TaskInfo) (p : Picks t j other) where
  contender : Candidate task.priority t.slots i
  contender = rw c.here (ground (arith, c.can_run))

  same_priority : other.priority ≡ task.priority
  same_priority =
      let a : Holds (ReadyLe other.priority) (some task) =
        rw c.here at (AllTasks-get_or (ReadyLe other.priority) t.slots i p.highest) in
      let b : Holds (ReadyLe task.priority) (some other) =
        rw p.here at (AllTasks-get_or (ReadyLe task.priority) t.slots j c.highest) in
      omega (arith, a c.can_run, b p.can_run)

  picked_first : t.next_rr_index < 8 → turn t j ≤ turn t i
  picked_first h = elim (Bool-cases (ltb (turn t i) (turn t j))) [
    | inl lt ↦
        let e : (t.next_rr_index + turn t i) % 8 ≡ i = let hi : i < 8 = c.in_range in omega arith in
        absurd (p.first (turn t i) (ltb→lt _ _ lt) (rw (same_priority, e) contender))
    | inr ge ↦ ltb→le _ _ ge
  ]

  Contends-ran : i ≢ j → Contends nows (ran t j other) i task
  Contends-ran ne = record {
    in_range = c.in_range;
    here = get_or-set_ne t.slots {i = j} {j = i} _ none (λ e. ne (sym e)) ∙ c.here;
    can_run = c.can_run;
    highest =
        AllTasks-set (ReadyLe task.priority) t.slots j _ (λ _. omega (arith, same_priority))
          c.highest;
    quiet =
        AllTasks-set (Quiet nows) t.slots j _ tt
          (AllTasks-mono (Quiet (now ∷ nows)) (Quiet nows) t.slots (Quiet-tail now nows) c.quiet);
  }

-- A step with the task in the contest reports it, or brings it closer in the ring.
fair_step :
    (now : ℕ) (nows : List ℕ) (t : TaskTable) (i : ℕ) (task : TaskInfo)
    → IsValid t
    → Contends (now ∷ nows) t i task
    → ((r : TaskStepReport) × ((step now t).0 ≡ some r) × (r.id ≡ task.id))
      ⊎ (Contends nows (step now t).1 i task × (turn (step now t).1 i < turn t i))
fair_step now nows t i task v c =
    elim (rw (wake_due-Quiet now nows t c.quiet) at (stepped_lem now t v)) [
      | inl (idle, e) ↦
          let q : Holds NotReady (some task) =
            rw c.here at (AllTasks-get_or NotReady t.slots i idle) in
          let r : is_ready task.state ≡ true = c.can_run in cc
      | inr (j, other, p, e) ↦ elim (Bool-cases (i == j)) [
        | inl same ↦
            let s : i ≡ j = ground arith in
            let o : some other ≡ some task =
              sym p.here ∙ (ap (λ k. get_or t.slots k none) (sym s) ∙ c.here) in
            let q : other ≡ task = cc in inl (report_of (start_task other), rw e, ap (λ u. u.id) q)
        | inr ne ↦
            let apart : i ≢ j = ground arith in
            inr (
              rw e (Contends-ran now nows t i task c j other p apart),
              rw e (
                  turn-ran t i j other v.in_ring c.in_range p.in_range
                    (picked_first now nows t i task c j other p v.in_ring) apart),
            )
      ]
    ]

Reported-cons :
    (id : ℕ) (r : Option TaskStepReport) (rest : List (Option TaskStepReport))
    → Reported id rest
    → Reported id (r ∷ rest)
Reported-cons id none rest h = h
Reported-cons id (some report) rest h = inr h

fair_run :
    (nows : List ℕ) (t : TaskTable) (i : ℕ) (task : TaskInfo)
    → IsValid t
    → Contends nows t i task
    → turn t i < length nows
    → Reported task.id (reports nows t)
fair_run [] t i task v c h = absurd (omega arith)
fair_run (now ∷ nows) t i task v c h = elim (fair_step now nows t i task v c) [
  | inl (r, e, same) ↦ rw e (inl same)
  | inr (c', closer) ↦
      Reported-cons task.id (step now t).0 _
        (fair_run nows (step now t).1 i task (step-IsValid now t v) c' (omega arith))
]

-- Round robin is fair: while no task falls asleep or wakes, eight steps in a row, at whatever ticks,
-- report every ready task of the highest ready priority at least once.
pub eight_steps_fair :
    (nows : List ℕ) (t : TaskTable) (i : ℕ) (task : TaskInfo)
    → IsValid t
    → Contends nows t i task
    → max_tasks ≤ length nows
    → Reported task.id (reports nows t)
eight_steps_fair nows t i task v c h = fair_run nows t i task v c (omega arith)
