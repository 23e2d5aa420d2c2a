-- ===== src/Lib.antt =====
-- A verification library for jingOS, a small x86_64 kernel in Rust with an interactive monitor.
--
-- The program. The kernel (kernel/src) boots, sums up the memory map, maps a heap and the user pages,
-- programs the timer and the interrupt controller, and enters the monitor's input loop. Timer and
-- keyboard interrupts feed the tick counter and a ring of scancodes (interrupts.rs); the loop decodes
-- scancodes into key events (keyboard.rs), edits a line with a history and runs commands (main.rs).
-- Commands drive the task table (task.rs), the system calls (syscall.rs) and the user-mode demos
-- (usermode.rs).
--
-- Which file models which part.
-- - Base: the shared names, lists indexed by native numbers, words, results, bytes of text.
-- - Task: kernel/src/task.rs. Data has the records and names, Table `ensure_bootstrap_task`, `spawn`,
--   `wake_due`, `step`, `snapshot` and `list`, Control the calls by identifier and `history`, the
--   static table after a sequence of calls. Spec is the client's view, a map from identifiers to
--   tasks; Invariant and History keep the table valid, Select, Step, Ran and Fairness are about the
--   choice of a task and its run, View, Refine and Spawn relate the calls to the map, Listing is about what is printed.
-- - Interrupts: kernel/src/interrupts.rs. Scancodes is `ScancodeBuffer`, Fifo its specification and
--   Ring the refinement; Pit is `program_pit`, Handlers the statics with the interrupt handlers, and
--   Timing keeps the frequency in its bounds.
-- - Syscall: kernel/src/syscall.rs and the assembly stubs of kernel/src/interrupts.rs. Abi has
--   `dispatch` and the encoding of its answers, Entry the two entries, Laws their properties; Fast is
--   the set-up of `syscall` on a processor that is a parameter, and Stages what its status means.
-- - Keyboard: kernel/src/keyboard.rs. Tables and Decoder are the code, Modifiers relates the flags to
--   the keys held, Typing the scancodes to a text.
-- - Line: `InputLine` of kernel/src/main.rs. Buffer is the code, with its copying loops, Spec a text
--   with a cursor; Slices and Shifts are about the loops, Edits, Pastes, Deletes, Words and Moves about
--   one method each or a few, and Refine about every sequence of edits.
-- - Recall: `CommandHistory` of kernel/src/main.rs. Ring is the code, Spec the list of lines, Ages the
--   slots by age, Refine every sequence of calls; the lines that are entered come from Line.
-- - Monitor: the rest of kernel/src/main.rs, as far as it is modelled. Auto is `SchedulerAutoMode` and
--   `wait_for_ticks`, Keys the key events with completion, Ready their invariant, Completion the tab
--   key, Typed the way from a typist's scancodes to a command; Numbers is `parse_u64` and Printed its
--   inverse; Words takes a line apart, Commands is `execute_command`, Promised what each command promises,
--   and SameTasks, StepCommands, TaskCommands, Addresses and Effects show that it is kept.
-- - User: kernel/src/user_program.rs, the demo that makes every system call once.
-- - Memory: kernel/src/memory.rs and kernel/src/heap.rs. Region has the summary of the memory map, Summary its
--   meaning, Frames the frame allocator, Inside which frames there are, Fresh which it hands out; Walk is the page-table walk and
--   Translation relates it to the processor's; Mapper is the page tables as a parameter, Mapping and
--   Heap map pages into them, MappingLaws, Backing, Joined and HeapLaws
--   say what is mapped then.
-- - UserMode: kernel/src/usermode.rs. Builder emits the machine code of the demos, Session has the statics, the
--   starts and the exit interrupt; Cpu is the processor as a parameter with the kernel's side of its
--   traps, Runs and Demos run the code, Phases is the state machine of the statics, Refused and
--   Setup are about `init_memory`.
-- - Screen: kernel/src/framebuffer.rs. Writer is the code, Spec a grid of glyphs with a cursor; Pixels, Drawing,
--   Glyphs, Scroll and Cells go from a pixel's bytes to the grid, Refine and Console from a character
--   to any calls of the console.
-- - Host: src/main.rs, the launcher. Forwarder is the thread that forwards the serial output, Marker what it
--   looks for.
--
-- Conventions. A machine integer is a number, with its saturation (`saturating_add`) or wrap written
-- out. A Rust array is a list, and a fixed length a field of the invariant; a read past the end gives
-- a default and a write there does nothing, and the theorems show that neither happens in a valid
-- state. A method on `&mut self` returns its result and the new state. `&'static str` errors are the
-- constructors of an error type, or their texts. A text is its list of bytes. A lock is held for one
-- whole call, so that calls on a static are a sequence.
--
-- Bounds and fuel. The loops over slots and bytes recurse on what is left of them. The search for a
-- task looks at each of the eight slots once, and the wait for the timer at as many readings of the
-- clock as the caller allows. A demo in user mode is run for a number of steps, of which fifteen are
-- enough. Printed, the specification of a numeral, makes at most 64 digits, which any number of 64 bits
-- fits. No other fuel is used.
--
-- Not modelled: what is printed, and so what stands on the screen while a line is edited; port I/O, the loading of descriptor tables, the formatting of output, and the crates
-- that the kernel calls. Nor are the monitor's input loop and the boot sequence
-- (main.rs), and of the host launcher (src/main.rs) the options, the serial script and the emulator's
-- start.
pub mod Base
pub mod Task
pub mod Interrupts
pub mod Syscall
pub mod Keyboard
pub mod Line
pub mod Recall
pub mod Monitor
pub mod User
pub mod Memory
pub mod UserMode
pub mod Screen
pub mod Host
