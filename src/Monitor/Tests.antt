-- ===== src/Monitor/Tests.antt =====
-- Runs of the monitor, and the theorems on its part of main.rs at such inputs.
use jing_os.Base.{List, ◌≡◌, refl, [], ◌∷◌, false, bytes, arith, str_eq}
use jing_os.Keyboard.Decoder.{char, enter, tab, arrow_up, escape, home, insert, KeyEvent}
use jing_os.Keyboard.Decoder
use jing_os.Keyboard.Typing.{run, type_text, no_text, a_char}
use jing_os.Line.Buffer
use jing_os.Line.Buffer.{
  as_str, append_str, insert_char, insert_or_overwrite_char, set_from_str, move_home,
}
use jing_os.Line.Refine as Edits
use jing_os.Recall.Ring
use jing_os.Recall.Ring.{push_line, previous, entry_by_age}
use jing_os.Recall.Refine as Recalls
use jing_os.Task.Table
use jing_os.Monitor.Auto
use jing_os.Monitor.Auto.{
  SchedulerAutoMode, run_times, enable, Spaced, Waited, auto-Spaced, wait_for_ticks,
  wait_for_ticks_lem, maybe_run,
}
use jing_os.Monitor.Keys.{Monitor, Execute, handle_key_event, complete_command}
use jing_os.Monitor.Ready.{IsReady, handle_all, keys_IsReady}
use jing_os.Monitor.Typed.{typed_command}
use jing_os.Monitor.Completion.{completes}

abbrev fresh : Monitor
fresh = record {
  line = Buffer.new;
  history = Ring.new;
  rendered_len = 8;
  overwrite_mode = false;
  auto_scheduler = Auto.new 0;
}

fresh-IsReady : IsReady fresh
fresh-IsReady = record {
  line_valid = Edits.new-IsValid;
  history_valid = Recalls.new-IsValid;
  rendered = refl;
}

-- Commands that do nothing but `exit`.
abbrev execute : Execute
execute line history auto = (str_eq line (bytes "exit"), auto)

abbrev keys : List KeyEvent
keys = char 117 ∷ char 112 ∷ tab ∷ enter ∷ arrow_up ∷ home ∷ insert ∷ char 85 ∷ []

keys_run : as_str (handle_all execute keys fresh).1.line ≡ bytes "Uptime"
unfolding handle_key_event complete_command append_str insert_char insert_or_overwrite_char
    push_line previous entry_by_age set_from_str move_home
keys_run = refl

keys_IsReady_example : IsReady (handle_all execute (char 117 ∷ enter ∷ arrow_up ∷ []) fresh).1
unfolding handle_key_event insert_char insert_or_overwrite_char push_line previous entry_by_age
    set_from_str
keys_IsReady_example =
    keys_IsReady execute (char 117 ∷ enter ∷ arrow_up ∷ []) fresh fresh-IsReady refl

typed_command_example :
    as_str (handle_all execute (run (type_text (72 ∷ 105 ∷ [])) Decoder.new).0 fresh).1.line
    ≡ 72 ∷ 105 ∷ []
typed_command_example =
    (typed_command execute (72 ∷ 105 ∷ []) fresh
      (a_char (omega arith) (omega arith) (a_char (omega arith) (omega arith) no_text))
      (omega arith) fresh-IsReady refl).1

auto-Spaced_example :
    Spaced 10 15 (run_times (12 ∷ 16 ∷ 20 ∷ 30 ∷ []) (enable 10 5 (Auto.new 0), Table.new))
auto-Spaced_example = auto-Spaced (12 ∷ 16 ∷ 20 ∷ 30 ∷ []) 10 5 (Auto.new 0) Table.new

wait_for_ticks_lem_example : Waited (λ i. i) 5 0 100 (wait_for_ticks (λ i. i) 5 100)
wait_for_ticks_lem_example = wait_for_ticks_lem (λ i. i) 5 100

-- "upt", which starts one command only.
abbrev half : Monitor
half = record fresh { line = (set_from_str (bytes "upt") Buffer.new).1; rendered_len = 11 }

half-IsReady : IsReady half
unfolding set_from_str
half-IsReady = record {
  line_valid = (Edits.apply_refines (Edits.sets (bytes "upt")) Buffer.new Edits.new-IsValid).valid;
  history_valid = Recalls.new-IsValid;
  rendered = refl;
}

completes_example : as_str (complete_command half).line ≡ bytes "uptime"
unfolding set_from_str
completes_example = completes half half-IsReady refl (bytes "uptime") refl refl
