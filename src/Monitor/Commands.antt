-- ===== src/Monitor/Commands.antt =====
-- kernel/src/main.rs: `execute_command`, `run_task_payload` and `run_task_step_with_label`, without what is
-- printed. The commands that only print are one case.
use jing_os.Base.{
  ℕ, zero, suc, ◌+◌, Bool, true, false, Option, none, some, List, [], ◌∷◌, ok, err, Bytes, bytes,
  str_eq, min, ◌==◌, if◌then◌else◌, u8_max, u32_max,
}
use jing_os.Memory.Mapper.{Mapper}
use jing_os.Memory.Mapping.{demo_page_start, translate_virtual_address}
use jing_os.Memory.Heap.{heap_start}
use jing_os.Task.Data.{
  TaskKind, kernel_monitor, user_demo, fast_syscall_success, fast_syscall_error, TaskTable,
  TaskStepReport, parse_task_kind,
}
use jing_os.Task.Table.{spawn, step}
use jing_os.Task.Control.{sleep, wake, remove, set_priority}
use jing_os.Interrupts.Handlers.{Statics, set_pit_hz}
use jing_os.UserMode.Session.{
  UserModeContext, Session, Started, run_demo, run_fast_syscall_demo, run_fast_syscall_error_demo,
}
use jing_os.Screen.Writer.{FrameBufferWriter, clear_screen}
use jing_os.Monitor.Words.{split_whitespace}
use jing_os.Monitor.Numbers.{parse_u64}
use jing_os.Monitor.Auto.{SchedulerAutoMode, default_interval_ticks, enable, disable}

-- What the commands change.
pub record World : Type 0 where
  pub tasks : TaskTable
  pub auto_scheduler : SchedulerAutoMode
  pub statics : Statics
  pub session : Session
  pub memory : ℕ → ℕ
  pub screen : Option FrameBufferWriter

-- What the commands read: the tick counts, one for each reading of the clock; what the boot loader
-- says of the physical memory; the page tables; whether eight bytes can be read at an address; and the
-- pages of the stack and of the code.
pub record Platform : Type 1 where
  pub clock : ℕ → ℕ
  pub physical_memory_offset : Option ℕ
  pub mapper : Mapper
  pub pages : mapper.Pages
  pub readable : ℕ → Bool
  pub stack_probe : ℕ
  pub code_probe : ℕ

-- A command returns whether the monitor is left, or enters user mode, from where the monitor starts
-- anew, or stops the machine: the panic handler and the handlers of the faults end in
-- `exit_qemu(Failed)`.
pub data Outcome : Type 0 where
  returns : Bool → Outcome
  enters : UserModeContext → Outcome
  stops : Outcome

abbrev pub done : World → Outcome × World
done w = (returns false, w)

-- An argument of a command, and what an invalid one leads to.
abbrev pub on : Option ℕ → World → (ℕ → Outcome × World) → Outcome × World
on none w f = done w
on (some n) w f = f n

abbrev pub on_first : List Bytes → World → (ℕ → List Bytes → Outcome × World) → Outcome × World
on_first [] w f = done w
on_first (text ∷ parts) w f = on (parse_u64 text) w (λ n. f n parts)

abbrev pub number_or : ℕ → List Bytes → Option ℕ
number_or default [] = some default
number_or default (text ∷ parts) = parse_u64 text

-- The start of a demo by a task: whether user mode is entered.
abbrev pub of_started : World → Started → Option UserModeContext × World
of_started w (ok c, u, memory) = (some c, record w { session = u; memory = memory })
of_started w (err e, u, memory) = (none, record w { session = u; memory = memory })

unfoldable pub run_task_payload : TaskKind → World → Option UserModeContext × World
run_task_payload kernel_monitor w = (none, w)
run_task_payload user_demo w = (none, w)
run_task_payload fast_syscall_success w = of_started w (run_fast_syscall_demo w.session w.memory)
run_task_payload fast_syscall_error w =
    of_started w (run_fast_syscall_error_demo w.session w.memory)

-- Behind a step of the table: whether a task ran, and whether its payload entered user mode.
abbrev pub after_step :
    World → Option TaskStepReport × TaskTable → Bool × Option UserModeContext × World
after_step w (none, t) = (false, none, record w { tasks = t })
after_step w (some report, t) =
    let (entered, w') = run_task_payload report.kind (record w { tasks = t }) in (true, entered, w')

unfoldable pub run_task_step_with_label : ℕ → World → Bool × Option UserModeContext × World
run_task_step_with_label now w = after_step w (step now w.tasks)

-- A turn of the loop of `taskrun`, and those behind it.
abbrev pub run_on :
    (World → Outcome × World) → Bool × Option UserModeContext × World → Outcome × World
run_on k (ran, some c, w) = (enters c, w)
run_on k (true, none, w) = k w
run_on k (false, none, w) = done w

-- `clock i` is the tick count at the `i`th reading of the clock, from the last one down.
unfoldable pub run_steps : (ℕ → ℕ) → ℕ → World → Outcome × World
run_steps clock zero w = done w
run_steps clock (suc n) w = run_on (run_steps clock n) (run_task_step_with_label (clock n) w)

abbrev pub timerhz : List Bytes → World → Outcome × World
timerhz parts w =
    on_first parts w
      (λ n rest. done (record w { statics = (set_pit_hz (min n u32_max) w.statics).1 }))

abbrev pub new_task : Option TaskKind → World → Outcome × World
new_task none w = done w
new_task (some kind) w = done (record w { tasks = (spawn kind w.tasks).1 })

abbrev pub first_or : Bytes → List Bytes → Bytes
first_or default [] = default
first_or default (text ∷ parts) = text

abbrev pub tasknew : List Bytes → World → Outcome × World
tasknew parts w = new_task (parse_task_kind (first_or (bytes "userdemo") parts)) w

abbrev pub taskrun : (ℕ → ℕ) → List Bytes → World → Outcome × World
taskrun clock parts w =
    on (number_or 4 parts) w (λ n. if n == 0 then done w else run_steps clock (min n 256) w)

abbrev pub tasksleep : ℕ → List Bytes → World → Outcome × World
tasksleep now parts w = on_first parts w (λ id rest.
    on (number_or 100 rest) w
      (λ n. if n == 0 then done w else done (record w { tasks = (sleep id n now w.tasks).1 })))

abbrev pub taskwake : ℕ → List Bytes → World → Outcome × World
taskwake now parts w =
    on_first parts w (λ id rest. done (record w { tasks = (wake id now w.tasks).1 }))

abbrev pub taskrm : ℕ → List Bytes → World → Outcome × World
taskrm now parts w =
    on_first parts w (λ id rest. done (record w { tasks = (remove id now w.tasks).1 }))

abbrev pub taskprio : ℕ → List Bytes → World → Outcome × World
taskprio now parts w = on_first parts w (λ id rest.
    on_first rest w
      (λ n last. done (record w { tasks = (set_priority id (min n u8_max) now w.tasks).1 })))

abbrev pub taskauto : ℕ → List Bytes → World → Outcome × World
taskauto now [] w = done w
taskauto now (mode ∷ rest) w =
    if str_eq mode (bytes "off")
    then done (record w { auto_scheduler = disable w.auto_scheduler })
    else (if str_eq mode (bytes "on")
        then on (number_or default_interval_ticks rest) w (λ n.
          if n == 0
          then done w
          else done (record w { auto_scheduler = enable n now w.auto_scheduler }))
        else done w)

-- `print_vm_translation`, or the same without a label, for one address after the other.
abbrev pub print_vm_translations : Platform → ℕ → List ℕ → World → Outcome × World
print_vm_translations k offset [] w = done w
print_vm_translations k offset (v ∷ vs) w =
    let rest = print_vm_translations k offset vs w in
    elim (translate_virtual_address k.mapper k.pages offset v) [
      | none ↦ (stops, w)
      | some physical_address ↦ rest
    ]

abbrev pub vm_at : Platform → ℕ → List Bytes → World → Outcome × World
vm_at k offset [] w =
    print_vm_translations k offset
      (demo_page_start ∷ heap_start ∷ (heap_start + 4096) ∷ k.stack_probe ∷ k.code_probe ∷ []) w
vm_at k offset (text ∷ parts) w =
    on (parse_u64 text) w (λ v. print_vm_translations k offset (v ∷ []) w)

abbrev pub vm : Platform → List Bytes → World → Outcome × World
vm k parts w = on k.physical_memory_offset w (λ offset. vm_at k offset parts w)

abbrev pub fault : Platform → List Bytes → World → Outcome × World
fault k parts w =
    on (number_or 0xDEAD_BEEF parts) w
      (λ address. if k.readable address then done w else (stops, w))

-- A command that starts a demo.
abbrev pub of_demo : Option UserModeContext × World → Outcome × World
of_demo (none, w) = done w
of_demo (some c, w) = (enters c, w)

pub data Command : Type 0 where
  leave_monitor set_timer new_task_command step_once step_many put_to_sleep wake_up remove_task :
      Command
  change_priority automatic user_mode user_mode_syscall user_mode_syscall_fail : Command
  clear_the_screen translate_address read_address prints : Command

-- The strings of the `match`, but for the commands that only print.
abbrev pub command_table : List (Bytes × Command)
command_table =
    (bytes "timerhz", set_timer)
    ∷ (bytes "vm", translate_address)
    ∷ (bytes "fault", read_address)
    ∷ (bytes "tasknew", new_task_command)
    ∷ (bytes "taskstep", step_once)
    ∷ (bytes "taskrun", step_many)
    ∷ (bytes "tasksleep", put_to_sleep)
    ∷ (bytes "taskwake", wake_up)
    ∷ (bytes "taskrm", remove_task)
    ∷ (bytes "taskprio", change_priority)
    ∷ (bytes "taskauto", automatic)
    ∷ (bytes "usermode", user_mode)
    ∷ (bytes "usermode_syscall", user_mode_syscall)
    ∷ (bytes "usermode_syscall_fail", user_mode_syscall_fail)
    ∷ (bytes "clear", clear_the_screen)
    ∷ (bytes "exit", leave_monitor)
    ∷ (bytes "quit", leave_monitor)
    ∷ []

abbrev pub find_command : List (Bytes × Command) → Bytes → Command
find_command [] word = prints
find_command ((name, c) ∷ table) word =
    let rest = find_command table word in if str_eq word name then c else rest

abbrev pub command_of : Bytes → Command
command_of word = find_command command_table word

unfoldable pub perform_command : Platform → Command → List Bytes → World → Outcome × World
perform_command k leave_monitor parts w = (returns true, w)
perform_command k set_timer parts w = timerhz parts w
perform_command k new_task_command parts w = tasknew parts w
perform_command k step_once parts w = run_on done (run_task_step_with_label (k.clock 0) w)
perform_command k step_many parts w = taskrun k.clock parts w
perform_command k put_to_sleep parts w = tasksleep (k.clock 0) parts w
perform_command k wake_up parts w = taskwake (k.clock 0) parts w
perform_command k remove_task parts w = taskrm (k.clock 0) parts w
perform_command k change_priority parts w = taskprio (k.clock 0) parts w
perform_command k automatic parts w = taskauto (k.clock 0) parts w
perform_command k user_mode parts w = of_demo (of_started w (run_demo w.session w.memory))
perform_command k user_mode_syscall parts w =
    of_demo (of_started w (run_fast_syscall_demo w.session w.memory))
perform_command k user_mode_syscall_fail parts w =
    of_demo (of_started w (run_fast_syscall_error_demo w.session w.memory))
perform_command k clear_the_screen parts w = done (record w { screen = clear_screen w.screen })
perform_command k translate_address parts w = vm k parts w
perform_command k read_address parts w = fault k parts w
perform_command k prints parts w = done w

abbrev pub perform_words : Platform → List Bytes → World → Outcome × World
perform_words k [] w = done w
perform_words k (word ∷ parts) w = perform_command k (command_of word) parts w

unfoldable pub execute_command : Platform → Bytes → World → Outcome × World
execute_command k line w = perform_words k (split_whitespace line) w
