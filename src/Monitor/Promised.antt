-- ===== src/Monitor/Promised.antt =====
-- kernel/src/main.rs: what each command of the monitor promises, by the word that a line starts with.
use jing_os.Base.{
  ◌⊎◌, ℕ, zero, suc, ◌≤◌, ◌≡◌, Bool, true, false, not, ◌&&◌, ◌||◌, Option, none, some, List, [],
  ◌∷◌, map, Bytes, bytes, str_eq, min, ltb, leb, ◌==◌, if◌then◌else◌,
}
use jing_os.Task.Table.{step}
use jing_os.Task.Data.{TaskTable, TaskKind, user_demo, parse_task_kind}
use jing_os.Task.Control.{Call, spawns, steps, sleeps, wakes, removes, sets_priority, perform_all}
use jing_os.Monitor.Numbers.{parse_u64}
use jing_os.Monitor.Commands.{World, Platform, Outcome, returns, enters, stops}

-- The arguments of a command, each as a number if it is one.
abbrev pub numbers : List Bytes → List (Option ℕ)
numbers args = map parse_u64 args

abbrev pub spawn_calls : Option TaskKind → List Call
spawn_calls none = []
spawn_calls (some kind) = spawns kind ∷ []

-- `tasknew [kind]`.
abbrev pub new_calls : List Bytes → List Call
new_calls [] = spawns user_demo ∷ []
new_calls (text ∷ rest) = spawn_calls (parse_task_kind text)

-- `tasksleep <id> [ticks]`.
abbrev pub sleep_calls : ℕ → List (Option ℕ) → List Call
sleep_calls now (some id ∷ []) = sleeps id 100 now ∷ []
sleep_calls now (some id ∷ (some n ∷ rest)) = if n == 0 then [] else sleeps id n now ∷ []
sleep_calls now _ = []

-- `taskwake <id>`.
abbrev pub wake_calls : ℕ → List (Option ℕ) → List Call
wake_calls now (some id ∷ rest) = wakes id now ∷ []
wake_calls now _ = []

-- `taskrm <id>`.
abbrev pub remove_calls : ℕ → List (Option ℕ) → List Call
remove_calls now (some id ∷ rest) = removes id now ∷ []
remove_calls now _ = []

-- `taskprio <id> <priority>`.
abbrev pub priority_calls : ℕ → List (Option ℕ) → List Call
priority_calls now (some id ∷ (some n ∷ rest)) = sets_priority id (min n 255) now ∷ []
priority_calls now _ = []

-- `taskrun [n]`: how many steps it may make, and the first `m` of them.
abbrev pub turns : List (Option ℕ) → ℕ
turns [] = 4
turns (none ∷ rest) = 0
turns (some n ∷ rest) = min n 256

abbrev pub step_calls : (ℕ → ℕ) → ℕ → ℕ → List Call
step_calls clock n zero = []
step_calls clock zero (suc m) = []
step_calls clock (suc n) (suc m) = steps (clock n) ∷ step_calls clock n m

-- The two halves of the addresses that the processor accepts.
abbrev pub is_half : ℕ → Bool
is_half v = ltb v 0x8000_0000_0000 || leb 0xffff_8000_0000_0000 v

-- `vm [addr]`: whether it comes to its end.
abbrev pub vm_ends : Platform → Option ℕ → List (Option ℕ) → Bool
vm_ends k none args = true
vm_ends k (some offset) [] = is_half offset && (is_half k.stack_probe && is_half k.code_probe)
vm_ends k (some offset) (none ∷ rest) = true
vm_ends k (some offset) (some v ∷ rest) = is_half offset && is_half v

-- `fault [addr]`: whether it comes to its end.
abbrev pub fault_ends : Platform → List (Option ℕ) → Bool
fault_ends k [] = k.readable 0xDEAD_BEEF
fault_ends k (none ∷ rest) = true
fault_ends k (some v ∷ rest) = k.readable v

-- The monitor goes on, in place or after user mode.
abbrev pub stays : Outcome → Bool
stays (returns b) = not b
stays (enters c) = true
stays stops = false

abbrev pub Promise : Type 1
Promise = List Bytes → World → Outcome × World → Type 0

-- Some calls on the task table, and no other change.
abbrev pub Calls : (List Bytes → List Call) → Promise
Calls f args w out = out ≡ (returns false, record w { tasks = perform_all (f args) w.tasks })

-- The same task table, and the monitor goes on.
abbrev pub SameTasks : Promise
SameTasks args w out = (out.1.tasks ≡ w.tasks) × (stays out.0 ≡ true)

-- The calls lead to the task table, and the monitor goes on.
abbrev pub LeadsTo : List Call → World → Outcome × World → Type 0
LeadsTo cs w out = (out.1.tasks ≡ perform_all cs w.tasks) × (stays out.0 ≡ true)

-- The last of the first `m` steps finds no task to run.
abbrev pub EndsIdle : (ℕ → ℕ) → ℕ → ℕ → TaskTable → Type 0
EndsIdle clock n zero t = ⊥
EndsIdle clock zero (suc m) t = ⊥
EndsIdle clock (suc n) (suc zero) t = (step (clock n) t).0 ≡ none
EndsIdle clock (suc n) (suc (suc m)) t = EndsIdle clock n (suc m) (step (clock n) t).1

abbrev pub Entered : Outcome → Type 0
Entered (returns b) = ⊥
Entered (enters c) = Unit {0}
Entered stops = ⊥

-- The first `m` steps lead to the task table: all of them, unless user mode is entered or the last one
-- found the scheduler idle.
abbrev pub SomeSteps : (ℕ → ℕ) → ℕ → World → Outcome × World → Type 0
SomeSteps clock n w out =
    (m : ℕ) × (m ≤ n)
    × LeadsTo (step_calls clock n m) w out
    × ((m ≡ n) ⊎ (Entered out.0) ⊎ EndsIdle clock n m w.tasks)

abbrev pub Leaves : Promise
Leaves args w out = out ≡ (returns true, w)

-- The commands that do more than print, by their words.
abbrev pub promises : Platform → List (Bytes × Promise)
promises k =
    (bytes "timerhz", SameTasks)
    ∷ (
      bytes "vm",
      λ args w out.
          out
          ≡ (if vm_ends k k.physical_memory_offset (numbers args) then returns false else stops, w),
    )
    ∷ (
      bytes "fault",
      λ args w out. out ≡ (if fault_ends k (numbers args) then returns false else stops, w),
    )
    ∷ (bytes "tasknew", Calls new_calls)
    ∷ (bytes "taskstep", λ args w out. LeadsTo (steps (k.clock 0) ∷ []) w out)
    ∷ (bytes "taskrun", λ args w out. SomeSteps k.clock (turns (numbers args)) w out)
    ∷ (bytes "tasksleep", Calls (λ args. sleep_calls (k.clock 0) (numbers args)))
    ∷ (bytes "taskwake", Calls (λ args. wake_calls (k.clock 0) (numbers args)))
    ∷ (bytes "taskrm", Calls (λ args. remove_calls (k.clock 0) (numbers args)))
    ∷ (bytes "taskprio", Calls (λ args. priority_calls (k.clock 0) (numbers args)))
    ∷ (bytes "taskauto", SameTasks)
    ∷ (bytes "usermode", SameTasks)
    ∷ (bytes "usermode_syscall", SameTasks)
    ∷ (bytes "usermode_syscall_fail", SameTasks)
    ∷ (bytes "clear", SameTasks)
    ∷ (bytes "exit", Leaves)
    ∷ (bytes "quit", Leaves)
    ∷ []

-- Any other command changes nothing, and the monitor goes on.
abbrev pub promise_of : List (Bytes × Promise) → Bytes → Promise
promise_of [] word args w out = out ≡ (returns false, w)
promise_of ((name, p) ∷ rows) word args w out =
    if str_eq word name then p args w out else promise_of rows word args w out

abbrev pub Kept : Platform → List Bytes → World → Outcome × World → Type 0
Kept k [] w out = out ≡ (returns false, w)
Kept k (word ∷ args) w out = promise_of (promises k) word args w out
