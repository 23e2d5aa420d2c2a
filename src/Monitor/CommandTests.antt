-- ===== src/Monitor/CommandTests.antt =====
-- Runs of the monitor's commands, and the theorems on `execute_command` and `parse_u64` at such inputs.
use jing_os.Base.{◌≡◌, refl, true, false, none, some, [], ◌∷◌, bytes, arith}
use jing_os.Task.Control.{history, init}
use jing_os.Interrupts.Handlers.{boot}
use jing_os.UserMode.Session.{no_session}
use jing_os.Monitor.Numbers.{parse_u64, from_str_radix, digits_value, hexadecimal}
use jing_os.Monitor.Printed.{parse_u64_lem}
use jing_os.Monitor.Auto
use jing_os.Monitor.Commands.{World, Platform, returns, stops, execute_command, perform_command}
use jing_os.Monitor.Words.{Words, split_whitespace}
use jing_os.Memory.PageList.{mapper}
use jing_os.Memory.Mapping.{translate_virtual_address}

decimal_runs : parse_u64 (bytes "18446744073709551615") ≡ some 0xffff_ffff_ffff_ffff
unfolding parse_u64 from_str_radix digits_value
decimal_runs = refl

overflow_runs : parse_u64 (bytes "18446744073709551616") ≡ none
unfolding parse_u64 from_str_radix digits_value
overflow_runs = refl

hexadecimal_runs : parse_u64 (bytes "0xDeadBeef") ≡ some 0xDEAD_BEEF
unfolding parse_u64 from_str_radix digits_value
hexadecimal_runs = refl

parse_u64_runs : parse_u64 (hexadecimal 4096) ≡ some 4096
parse_u64_runs = (parse_u64_lem 4096 (omega arith)).1

words_run :
    split_whitespace (bytes "  tasksleep 1\t200 ")
    ≡ bytes "tasksleep" ∷ bytes "1" ∷ bytes "200" ∷ []
words_run = refl

abbrev world : World
world = record {
  tasks = history (init ∷ []);
  auto_scheduler = Auto.new 0;
  statics = boot;
  session = no_session;
  memory = λ a. 0;
  screen = none;
}

abbrev platform : Platform
platform = record {
  clock = λ i. 7;
  physical_memory_offset = some 0x1000_0000_0000;
  mapper = mapper;
  pages = [];
  readable = λ address. false;
  stack_probe = 0x2000;
  code_probe = 0x3000;
}

exit_runs : (execute_command platform (bytes " quit now") world).0 ≡ returns true
unfolding execute_command perform_command
exit_runs = refl

-- An address that is not canonical.
vm_runs : (execute_command platform (bytes "vm 0x800000000000") world).0 ≡ stops
unfolding execute_command perform_command translate_virtual_address parse_u64 from_str_radix
    digits_value
vm_runs = refl

vm_probes_run : (execute_command platform (bytes "vm") world).0 ≡ returns false
unfolding execute_command perform_command translate_virtual_address
vm_probes_run = refl
