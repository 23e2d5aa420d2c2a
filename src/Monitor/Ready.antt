-- ===== src/Monitor/Ready.antt =====
-- kernel/src/main.rs: whatever keys are pressed, the line, the history and `rendered_len`
-- stay in order. What is printed is not modelled.
use jing_os.Base.{
  ◌+◌, ◌≡◌, refl, sym, ap, ◌∙◌, Bool, true, false, not, ◌||◌, Option, none, some, List, [], ◌∷◌,
  ltb, ◌==◌, if◌then◌else◌, length, drop, arith, Bool-cases, inl, inr,
}
use jing_os.Keyboard.Decoder.{
  KeyEvent, char, ctrl, alt, ctrl_alt, enter, backspace, tab, escape, arrow_up, arrow_down,
  arrow_left, arrow_right, word_left, word_right, insert, delete, word_delete_left,
  word_delete_right, home, end, page_up, page_down, function, unknown,
}
use jing_os.Line.Buffer.{InputLine, as_str, is_cursor_at_end}
use jing_os.Line.Edits
use jing_os.Line.Refine.{
  Edit, types, inserts, sets, erases, deletes, left, right, line_home, line_end, word_left_of,
  word_right_of, erases_word, deletes_word, clears, apply, apply_refines, meaning,
}
use jing_os.Line.Spec.{
  Text, replace, refuse, go, cut, insert_text, type_char, replace_all, erase_left, erase_right,
}
use jing_os.Line.Spec
use jing_os.Recall.Ring.{CommandHistory, HistoryEntry, previous, next}
use jing_os.Recall.Ring
use jing_os.Recall.Refine.{IsValid, push_line_refines, previous_refines, next_refines, browsed}
use jing_os.Monitor.Auto.{SchedulerAutoMode}
use jing_os.Monitor.Keys.{
  Monitor, monitor_prompt, Execute, handle_key_event, edited, redraw_if, recall_older, recall_newer,
  entered, redraw_prompt_with_line, complete_command, count_matches, command_names, contains_space,
}

pub record IsReady (m : Monitor) : Type 0 where
  pub line_valid : Edits.IsValid m.line
  pub history_valid : IsValid m.history
  pub rendered : m.rendered_len ≡ length monitor_prompt + m.line.len

-- A refused edit leaves the text as it was.
meaning-refused : (e : Edit) (t : Text) → (meaning e t).0 ≡ false → (meaning e t).1 ≡ t
unfolding type_char Spec.insert insert_text replace_all erase_left erase_right
meaning-refused (types c overwrite) t h = ground arith
meaning-refused (inserts s) t h = ground arith
meaning-refused (sets s) t h = ground arith
meaning-refused erases t h = ground arith
meaning-refused deletes t h = ground arith
meaning-refused left t h = ground arith
meaning-refused right t h = ground arith
meaning-refused line_home t h = ground arith
meaning-refused line_end t h = ground arith
meaning-refused word_left_of t h = ground arith
meaning-refused word_right_of t h = ground arith
meaning-refused erases_word t h = ground arith
meaning-refused deletes_word t h = ground arith
meaning-refused clears t h = ground arith

refused_len :
    (e : Edit) (l : InputLine) → Edits.IsValid l → (apply e l).0 ≡ false → (apply e l).1.len ≡ l.len
refused_len e l v h =
    let r = apply_refines e l v in
    let same = meaning-refused e (Edits.view l) (sym r.answer ∙ h) in
    let size = Edits.length-view l v in
    let size' = Edits.length-view (apply e l).1 r.valid in
    sym size' ∙ ap (λ t. length (Text.content t)) (r.text ∙ same) ∙ size

-- An edit keeps the monitor ready, with the history at its newest line or as it was.
edited-IsReady : (e : Edit) (m : Monitor) → IsReady m → IsReady (edited (apply e m.line) m)
edited-IsReady e m v =
    go (apply e m.line) (apply_refines e m.line v.line_valid).valid
      (refused_len e m.line v.line_valid)
  where
    go :
        (r : Bool × InputLine)
        → Edits.IsValid r.1
        → (r.0 ≡ false → r.1.len ≡ m.line.len)
        → IsReady (edited r m)
    go (true, l) w keep = record {
      line_valid = w;
      history_valid = browsed m.history v.history_valid none;
      rendered = refl;
    }
    go (false, l) w keep = record {
      line_valid = w;
      history_valid = v.history_valid;
      rendered = v.rendered ∙ ap (λ n. 8 + n) (sym (keep refl));
    }

moved-IsReady : (e : Edit) (m : Monitor) → IsReady m → IsReady (redraw_if (apply e m.line) m)
moved-IsReady e m v =
    go (apply e m.line) (apply_refines e m.line v.line_valid).valid
      (refused_len e m.line v.line_valid)
  where
    go :
        (r : Bool × InputLine)
        → Edits.IsValid r.1
        → (r.0 ≡ false → r.1.len ≡ m.line.len)
        → IsReady (redraw_if r m)
    go (true, l) w keep = record {
      line_valid = w;
      history_valid = v.history_valid;
      rendered = refl;
    }
    go (false, l) w keep = record {
      line_valid = w;
      history_valid = v.history_valid;
      rendered = v.rendered ∙ ap (λ n. 8 + n) (sym (keep refl));
    }

older-IsReady : (m : Monitor) → IsReady m → IsReady (recall_older (previous m.history) m)
older-IsReady m v = go (previous m.history) (previous_refines m.history v.history_valid).2
  where
    go : (r : Option HistoryEntry × CommandHistory) → IsValid r.1 → IsReady (recall_older r m)
    go (none, h) w = record { line_valid = v.line_valid; history_valid = w; rendered = v.rendered }
    go (some e, h) w = record {
      line_valid = (apply_refines (sets (Ring.as_str e)) m.line v.line_valid).valid;
      history_valid = w;
      rendered = refl;
    }

newer-IsReady : (m : Monitor) → IsReady m → IsReady (recall_newer (next m.history) m)
newer-IsReady m v = go (next m.history) (next_refines m.history v.history_valid).2
  where
    go : (r : Option HistoryEntry × CommandHistory) → IsValid r.1 → IsReady (recall_newer r m)
    go (none, h) w = record {
      line_valid = (apply_refines clears m.line v.line_valid).valid;
      history_valid = w;
      rendered = refl;
    }
    go (some e, h) w = record {
      line_valid = (apply_refines (sets (Ring.as_str e)) m.line v.line_valid).valid;
      history_valid = w;
      rendered = refl;
    }

choose-IsReady : (b : Bool) (x y : Monitor) → IsReady x → IsReady y → IsReady (if b then x else y)
choose-IsReady true x y v w = v
choose-IsReady false x y v w = w

complete-IsReady : (m : Monitor) → IsReady m → IsReady (complete_command m)
unfolding complete_command
complete-IsReady m v =
    let text = as_str m.line in
    let found = count_matches text command_names (0, []) in
    let shown = redraw_prompt_with_line m in
    let extended = redraw_if (apply (inserts (drop (length text) found.1)) m.line) m in
    let one = if ltb (length text) (length found.1) then extended else m in
    let some_match = if found.0 == 1 then one else shown in
    choose-IsReady (contains_space text || not (is_cursor_at_end m.line)) m
      (if found.0 == 0 then m else some_match) v
      (choose-IsReady (found.0 == 0) m some_match v (
        choose-IsReady (found.0 == 1) one shown
          (choose-IsReady (ltb (length text) (length found.1)) extended m
            (moved-IsReady (inserts (drop (length text) found.1)) m v) v)
          (record { line_valid = v.line_valid; history_valid = v.history_valid; rendered = refl })))

entered-IsReady :
    (r : Bool × SchedulerAutoMode) (h : CommandHistory) (m : Monitor)
    → IsReady m
    → IsValid h
    → (entered r h m).0 ≡ false
    → IsReady (entered r h m).1
entered-IsReady (true, auto) h m v w e = record {
  line_valid = (apply_refines clears m.line v.line_valid).valid;
  history_valid = browsed h w none;
  rendered = let e' : Path Bool true false = e in ground arith;
}
entered-IsReady (false, auto) h m v w e = record {
  line_valid = (apply_refines clears m.line v.line_valid).valid;
  history_valid = browsed h w none;
  rendered = refl;
}

module _ (execute : Execute) where
  key-IsReady :
      (e : KeyEvent) (m : Monitor)
      → IsReady m
      → (handle_key_event execute e m).0 ≡ false
      → IsReady (handle_key_event execute e m).1
  unfolding handle_key_event
  key-IsReady (char c) m v h = edited-IsReady (types c m.overwrite_mode) m v
  key-IsReady (ctrl c) m v h = v
  key-IsReady (alt c) m v h = v
  key-IsReady (ctrl_alt c) m v h = v
  key-IsReady enter m v h =
      entered-IsReady _ _ m v (push_line_refines m.line m.history v.history_valid v.line_valid).1 h
  key-IsReady tab m v h = complete-IsReady m v
  key-IsReady backspace m v h = edited-IsReady erases m v
  key-IsReady arrow_up m v h = older-IsReady m v
  key-IsReady arrow_down m v h = newer-IsReady m v
  key-IsReady arrow_left m v h = moved-IsReady left m v
  key-IsReady arrow_right m v h = moved-IsReady right m v
  key-IsReady word_left m v h = moved-IsReady word_left_of m v
  key-IsReady word_right m v h = moved-IsReady word_right_of m v
  key-IsReady insert m v h = record {
    line_valid = v.line_valid;
    history_valid = v.history_valid;
    rendered = refl;
  }
  key-IsReady delete m v h = edited-IsReady deletes m v
  key-IsReady word_delete_left m v h = edited-IsReady erases_word m v
  key-IsReady word_delete_right m v h = edited-IsReady deletes_word m v
  key-IsReady home m v h = moved-IsReady line_home m v
  key-IsReady end m v h = moved-IsReady line_end m v
  key-IsReady page_up m v h = v
  key-IsReady page_down m v h = v
  key-IsReady (function n) m v h = v
  key-IsReady escape m v h = v
  key-IsReady (unknown code) m v h = v

  -- Key events in their order, up to the one that leaves the monitor.
  abbrev pub handle_all : List KeyEvent → Monitor → Bool × Monitor
  handle_all [] m = (false, m)
  handle_all (e ∷ es) m =
      let (exit, m') = handle_key_event execute e m in
      let rest = handle_all es m' in if exit then (true, m') else rest

  -- Whatever keys are pressed, and whatever the commands do, the monitor stays ready until it is left:
  -- the line is valid, the history is valid, and `rendered_len`, the count of characters that the next
  -- redraw compares with, is the length of the prompt and of the line together.
  pub keys_IsReady :
      (es : List KeyEvent) (m : Monitor)
      → IsReady m
      → (handle_all es m).0 ≡ false
      → IsReady (handle_all es m).1
  keys_IsReady [] m v h = v
  keys_IsReady (e ∷ es) m v h = elim (Bool-cases (handle_key_event execute e m).0) [
    | inl f ↦ let h' : Path Bool true false = rw (handle_all, f) at h in ground arith
    | inr f ↦
        let h' = rw (handle_all, f) at h in
        rw (handle_all, f)
          (keys_IsReady es (handle_key_event execute e m).1 (key-IsReady e m v f) h')
  ]
