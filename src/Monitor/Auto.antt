-- ===== src/Monitor/Auto.antt =====
-- kernel/src/main.rs: `SchedulerAutoMode`, `run_task_step_with_label_internal` and `wait_for_ticks`.
-- What is printed, and the payload of the task that ran, are left out.
use jing_os.Base.{
  ℕ, zero, suc, ◌+◌, ◌≤◌, ◌<◌, ◌≡◌, refl, Bool, true, false, not, ◌||◌, ◌⊎◌, inl, inr, Option, none,
  some, List, [], ◌∷◌, ltb, leb, if◌then◌else◌, saturating_add, arith, Bool-cases,
}
use jing_os.Task.Data.{TaskTable, TaskStepReport}
use jing_os.Task.Table.{step}

pub record SchedulerAutoMode : Type 0 where
  pub enabled : Bool
  pub interval_ticks : ℕ
  pub next_run_tick : ℕ

abbrev pub default_interval_ticks : ℕ
default_interval_ticks = 100

abbrev pub new : ℕ → SchedulerAutoMode
new now_tick = record {
  enabled = false;
  interval_ticks = default_interval_ticks;
  next_run_tick = now_tick;
}

unfoldable pub enable : ℕ → ℕ → SchedulerAutoMode → SchedulerAutoMode
enable interval_ticks now_tick a = record {
  enabled = true;
  interval_ticks = interval_ticks;
  next_run_tick = saturating_add now_tick interval_ticks;
}

abbrev pub disable : SchedulerAutoMode → SchedulerAutoMode
disable a = record a { enabled = false }

-- Whether a task ran, with the table after it; `ticks` is the clock as the step reads it.
abbrev pub run_task_step_with_label_internal : ℕ → TaskTable → Option TaskStepReport × TaskTable
run_task_step_with_label_internal ticks t = step ticks t

-- The scheduler and the table after a call at `now_tick`, and whether a step was made.
unfoldable pub maybe_run :
    ℕ → ℕ → SchedulerAutoMode × TaskTable → Bool × SchedulerAutoMode × TaskTable
maybe_run now_tick ticks (a, t) =
    if not a.enabled || ltb now_tick a.next_run_tick then (false, a, t) else (
      true,
      record a { next_run_tick = saturating_add now_tick a.interval_ticks },
      (run_task_step_with_label_internal ticks t).1,
    )

-- The times of the calls at which a step was made.
abbrev pub run_times : List ℕ → SchedulerAutoMode × TaskTable → List ℕ
run_times [] s = []
run_times (now ∷ nows) s =
    let (ran, a, t) = maybe_run now now s in
    let rest = run_times nows (a, t) in if ran then now ∷ rest else rest

-- Every time is at least `gap` behind the one before it, the first one at least `from`.
abbrev pub Spaced : ℕ → ℕ → List ℕ → Type 0
Spaced gap from [] = from ≡ from
Spaced gap from (t ∷ ts) = (from ≤ t) × Spaced gap (saturating_add t gap) ts

run_times-Spaced :
    (nows : List ℕ) (a : SchedulerAutoMode) (t : TaskTable)
    → Spaced a.interval_ticks a.next_run_tick (run_times nows (a, t))
unfolding maybe_run
run_times-Spaced [] a t = refl
run_times-Spaced (now ∷ nows) a t = elim (Bool-cases (not a.enabled || ltb now a.next_run_tick)) [
  | inl e ↦ rw (run_times, e) (run_times-Spaced nows a t)
  | inr e ↦
      rw (run_times, e)
        (
          ground arith,
          run_times-Spaced nows (record a { next_run_tick = saturating_add now a.interval_ticks })
              (run_task_step_with_label_internal now t).1,
        )
]

-- The automatic scheduler, enabled at some time with some interval, makes its first step no sooner
-- than the interval after that, and every further step no sooner than the interval after the one
-- before it, whatever the times at which the loop calls it; times stop at the greatest 64-bit number.
pub auto-Spaced :
    (nows : List ℕ) (interval now : ℕ) (a : SchedulerAutoMode) (t : TaskTable)
    → Spaced interval (saturating_add now interval) (run_times nows (enable interval now a, t))
unfolding enable
auto-Spaced nows interval now a t =
    run_times-Spaced nows
      (record {
        enabled = true;
        interval_ticks = interval;
        next_run_tick = saturating_add now interval;
      })
      t

-- `wait_for_ticks`, with the clock as it is read in each round, from round `i` on.
unfoldable pub wait_from : (ℕ → ℕ) → ℕ → ℕ → ℕ → Option ℕ
wait_from clock target i zero = none
wait_from clock target i (suc spins) =
    let rest = wait_from clock target (suc i) spins in
    if leb target (clock i) then some (clock i) else rest

abbrev pub wait_for_ticks : (ℕ → ℕ) → ℕ → ℕ → Option ℕ
wait_for_ticks clock target max_spins = wait_from clock target 0 max_spins

abbrev pub Waited : (ℕ → ℕ) → ℕ → ℕ → ℕ → Option ℕ → Type 0
Waited clock target i n none = (j : ℕ) → i ≤ j → j < i + n → clock j < target
Waited clock target i n (some t) =
    (k : ℕ) × (i ≤ k)
    × (k < i + n)
    × (t ≡ clock k)
    × (target ≤ t)
    × ((j : ℕ) → i ≤ j → j < k → clock j < target)

earlier :
    (clock : ℕ → ℕ) (target i : ℕ)
    → clock i < target
    → (n : ℕ) (o : Option ℕ) → Waited clock target (suc i) n o
    → Waited clock target i (suc n) o
earlier clock target i h n none w =
    λ j lo hi. elim (at_or_behind i j lo) [ inl e ↦ rw (← e) h | inr q ↦ w j q (omega arith) ]
  where
    at_or_behind : (i j : ℕ) → i ≤ j → (i ≡ j) ⊎ (i < j)
    at_or_behind i j h = ground arith
earlier clock target i h n (some t) (k, lo, hi, at, reached, before) = (
  k,
  omega arith,
  omega arith,
  at,
  reached,
  λ j lo' hi'. elim (at_or_behind i j lo') [ inl e ↦ rw (← e) h | inr q ↦ before j q hi' ],
)
  where
    at_or_behind : (i j : ℕ) → i ≤ j → (i ≡ j) ⊎ (i < j)
    at_or_behind i j h = ground arith

wait_from-Waited :
    (clock : ℕ → ℕ) (target i n : ℕ) → Waited clock target i n (wait_from clock target i n)
unfolding wait_from
wait_from-Waited clock target i zero = λ j lo hi. absurd (omega arith)
wait_from-Waited clock target i (suc n) = elim (Bool-cases (leb target (clock i))) [
  | inl e ↦
      rw (wait_from, e)
        (i, omega arith, omega arith, refl, ground arith, λ j lo hi. absurd (omega arith))
  | inr e ↦
      rw (wait_from, e)
        (earlier clock target i (ground arith) n (wait_from clock target (suc i) n)
          (wait_from-Waited clock target (suc i) n))
]

-- The wait ends with the first reading of the clock, among those of the given number of rounds, that
-- has reached the target; it gives up exactly if none of them has.
pub wait_for_ticks_lem :
    (clock : ℕ → ℕ) (target max_spins : ℕ)
    → Waited clock target 0 max_spins (wait_for_ticks clock target max_spins)
wait_for_ticks_lem clock target max_spins = wait_from-Waited clock target 0 max_spins
