-- ===== src/Monitor/Keys.antt =====
-- kernel/src/main.rs: `serial_byte_to_key_event`, `complete_command`, `redraw_prompt_with_line` and
-- `handle_key_event`. What is printed is left out. `execute_command` is an argument: it is handed the
-- line and reads the history, answers whether to leave, and may change the automatic scheduler.
use jing_os.Base.{
  ℕ, ◌+◌, Bool, true, false, not, ◌&&◌, ◌||◌, Option, none, some, List, [], ◌∷◌, ltb, leb, ◌==◌,
  if◌then◌else◌, length, drop, Bytes, bytes, starts_with,
}
use jing_os.Keyboard.Decoder.{
  KeyEvent, char, ctrl, alt, ctrl_alt, enter, backspace, tab, escape, arrow_up, arrow_down,
  arrow_left, arrow_right, word_left, word_right, insert, delete, word_delete_left,
  word_delete_right, home, end, page_up, page_down, function, unknown,
}
use jing_os.Line.Buffer.{
  InputLine, as_str, clear, append_str, set_from_str, is_cursor_at_end, move_left, move_right,
  move_home, move_end, move_word_left, move_word_right, delete_word_left, delete_word_right,
  insert_or_overwrite_char,
}
use jing_os.Line.Buffer
use jing_os.Recall.Ring.{CommandHistory, HistoryEntry, push_line, previous, next, reset_browsing}
use jing_os.Recall.Ring
use jing_os.Monitor.Auto.{SchedulerAutoMode}

unfoldable pub serial_byte_to_key_event : ℕ → Option KeyEvent
serial_byte_to_key_event byte =
    if byte == 13 || byte == 10
    then some enter
    else (if byte == 0x08 || byte == 0x7f
        then some backspace
        else (if byte == 9
            then some tab
            else (if byte == 0x1b
                then some escape
                else (if leb 0x20 byte && leb byte 0x7e then some (char byte) else none))))

abbrev pub monitor_prompt : Bytes
monitor_prompt = bytes "jingos> "

abbrev pub command_names : List Bytes
command_names =
    bytes "help"
    ∷ bytes "status"
    ∷ bytes "ticks"
    ∷ bytes "uptime"
    ∷ bytes "timerhz"
    ∷ bytes "irq"
    ∷ bytes "mem"
    ∷ bytes "maps"
    ∷ bytes "heap"
    ∷ bytes "vm"
    ∷ bytes "vmmap"
    ∷ bytes "fault"
    ∷ bytes "syscall"
    ∷ bytes "sysabi"
    ∷ bytes "tasks"
    ∷ bytes "tasknew"
    ∷ bytes "taskstep"
    ∷ bytes "taskrun"
    ∷ bytes "tasksleep"
    ∷ bytes "taskwake"
    ∷ bytes "taskrm"
    ∷ bytes "taskprio"
    ∷ bytes "taskauto"
    ∷ bytes "userdemo"
    ∷ bytes "usermode"
    ∷ bytes "usermode_syscall"
    ∷ bytes "usermode_syscall_fail"
    ∷ bytes "echo"
    ∷ bytes "history"
    ∷ bytes "clear"
    ∷ bytes "exit"
    ∷ bytes "quit"
    ∷ []

pub record Monitor : Type 0 where
  pub line : InputLine
  pub history : CommandHistory
  pub rendered_len : ℕ
  pub overwrite_mode : Bool
  pub auto_scheduler : SchedulerAutoMode

-- `redraw_prompt_with_line`, but for what it prints. `rendered_len` counts what it printed last; the
-- other keys that print (`<FULL>`, `<C-x>`, `<Fn>`) leave it as it is.
abbrev pub redraw_prompt_with_line : Monitor → Monitor
redraw_prompt_with_line m = record m { rendered_len = length monitor_prompt + m.line.len }

-- `text.contains(' ')`.
abbrev pub contains_space : Bytes → Bool
contains_space [] = false
contains_space (c ∷ cs) = c == 32 || contains_space cs

-- The loop of `complete_command`: how many commands start with the text, and the first of them.
abbrev pub count_matches : Bytes → List Bytes → ℕ × Bytes → ℕ × Bytes
count_matches text [] found = found
count_matches text (command ∷ rest) (matched_count, first_match) = count_matches text rest (
    if starts_with text command
    then (matched_count + 1, if matched_count + 1 == 1 then command else first_match)
    else (matched_count, first_match))

abbrev pub redraw_if : Bool × InputLine → Monitor → Monitor
redraw_if (true, line) m = redraw_prompt_with_line (record m { line = line })
redraw_if (false, line) m = record m { line = line }

unfoldable pub complete_command : Monitor → Monitor
complete_command m =
    let text = as_str m.line in
    if contains_space text || not (is_cursor_at_end m.line)
    then m
    else (let (matched_count, first_match) = count_matches text command_names (0, []) in
        if matched_count == 0
        then m
        else (if matched_count == 1
            then (if ltb (length text) (length first_match)
                then redraw_if (append_str (drop (length text) first_match) m.line) m
                else m)
            else redraw_prompt_with_line m))

-- An edit, after which the history is at its newest line again.
abbrev pub edited : Bool × InputLine → Monitor → Monitor
edited (true, line) m =
    redraw_prompt_with_line (record m { line = line; history = reset_browsing m.history })
edited (false, line) m = record m { line = line }

abbrev pub recall_older : Option HistoryEntry × CommandHistory → Monitor → Monitor
recall_older (none, history) m = record m { history = history }
recall_older (some entry, history) m =
    redraw_prompt_with_line
      (record m { line = (set_from_str (Ring.as_str entry) m.line).1; history = history })

abbrev pub recall_newer : Option HistoryEntry × CommandHistory → Monitor → Monitor
recall_newer (none, history) m =
    redraw_prompt_with_line (record m { line = clear m.line; history = history })
recall_newer (some entry, history) m =
    redraw_prompt_with_line
      (record m { line = (set_from_str (Ring.as_str entry) m.line).1; history = history })

-- The type of `execute_command`.
abbrev pub Execute : Type 0
Execute = Bytes → CommandHistory → SchedulerAutoMode → Bool × SchedulerAutoMode

-- The answer of `execute_command` and what follows it.
abbrev pub entered : Bool × SchedulerAutoMode → CommandHistory → Monitor → Bool × Monitor
entered (should_exit, auto) history m = (
  should_exit,
  record m {
    line = clear m.line;
    history = reset_browsing history;
    rendered_len = if should_exit then m.rendered_len else length monitor_prompt;
    auto_scheduler = auto;
  },
)

unfoldable pub handle_key_event : Execute → KeyEvent → Monitor → Bool × Monitor
handle_key_event execute (char c) m =
    (false, edited (insert_or_overwrite_char c m.overwrite_mode m.line) m)
handle_key_event execute (ctrl c) m = (false, m)
handle_key_event execute (alt c) m = (false, m)
handle_key_event execute (ctrl_alt c) m = (false, m)
handle_key_event execute enter m =
    let history = push_line m.line m.history in
    entered (execute (as_str m.line) history m.auto_scheduler) history m
handle_key_event execute tab m = (false, complete_command m)
handle_key_event execute backspace m = (false, edited (Buffer.backspace m.line) m)
handle_key_event execute arrow_up m = (false, recall_older (previous m.history) m)
handle_key_event execute arrow_down m = (false, recall_newer (next m.history) m)
handle_key_event execute arrow_left m = (false, redraw_if (move_left m.line) m)
handle_key_event execute arrow_right m = (false, redraw_if (move_right m.line) m)
handle_key_event execute word_left m = (false, redraw_if (move_word_left m.line) m)
handle_key_event execute word_right m = (false, redraw_if (move_word_right m.line) m)
handle_key_event execute insert m =
    (false, redraw_prompt_with_line (record m { overwrite_mode = not m.overwrite_mode }))
handle_key_event execute delete m = (false, edited (Buffer.delete m.line) m)
handle_key_event execute word_delete_left m = (false, edited (delete_word_left m.line) m)
handle_key_event execute word_delete_right m = (false, edited (delete_word_right m.line) m)
handle_key_event execute home m = (false, redraw_if (move_home m.line) m)
handle_key_event execute end m = (false, redraw_if (move_end m.line) m)
handle_key_event execute page_up m = (false, m)
handle_key_event execute page_down m = (false, m)
handle_key_event execute (function n) m = (false, m)
handle_key_event execute escape m = (true, m)
handle_key_event execute (unknown code) m = (false, m)
