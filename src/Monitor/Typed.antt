-- ===== src/Monitor/Typed.antt =====
-- kernel/src/main.rs with kernel/src/keyboard.rs: what is typed on the keyboard is what is executed.
use jing_os.Base.{
  ℕ, zero, suc, ◌+◌, ◌≤◌, ◌<◌, ◌≡◌, refl, ap, ◌∙◌, Bool, true, false, ◌&&◌, [], ◌∷◌, ◌++◌, map, ltb,
  length, take, drop, length-append, append-nil, Bytes, arith,
}
use jing_os.Keyboard.Decoder.{KeyEvent, char, enter, feed}
use jing_os.Keyboard.Decoder
use jing_os.Keyboard.Typing.{run, type_text, type_text_lem, Printable, no_text, a_char}
use jing_os.Line.Buffer.{InputLine, as_str, insert_or_overwrite_char, is_ascii}
use jing_os.Line.Edits
use jing_os.Line.Edits.{view, length-view, insert_or_overwrite_char_refines}
use jing_os.Line.Spec.{Text, replace, refuse, type_char}
use jing_os.Line.Spec
use jing_os.Recall.Ring.{push_line}
use jing_os.Monitor.Keys.{Monitor, Execute, handle_key_event, edited}
use jing_os.Monitor.Ready.{IsReady, handle_all}

pub take-length : (xs : Bytes) → take (length xs) xs ≡ xs
take-length [] = refl
take-length (x ∷ xs) = ap (x ∷◌) (take-length xs)

pub drop-length : (n : ℕ) (xs : Bytes) → length xs ≤ n → drop n xs ≡ []
drop-length zero [] h = refl
drop-length zero (x ∷ xs) h = absurd (omega arith)
drop-length (suc n) [] h = refl
drop-length (suc n) (x ∷ xs) h = drop-length n xs (omega arith)

-- A character typed at the end of a text.
type_char-end :
    (c : ℕ) (overwrite : Bool) (xs : Bytes)
    → c < 128
    → length xs < 128
    → type_char c overwrite (record { content = xs; position = length xs })
      ≡ (true, record { content = xs ++ (c ∷ []); position = length xs + 1 })
unfolding type_char Spec.insert
type_char-end c overwrite xs h h' =
    let t : (is_ascii c && overwrite && ltb (length xs) (length xs)) ≡ false = ground arith in
    let t' : (is_ascii c && ltb (length xs) 128) ≡ true = ground arith in
    rw (t, t', take-length xs, drop-length (length xs) xs (omega arith)) refl

append_cons : (xs : Bytes) (c : ℕ) (cs : Bytes) → (xs ++ (c ∷ [])) ++ cs ≡ xs ++ (c ∷ cs)
append_cons [] c cs = refl
append_cons (x ∷ xs) c cs = ap (x ∷◌) (append_cons xs c cs)

edited-line : (r : Bool × InputLine) (m : Monitor) → (edited r m).line ≡ r.1
edited-line (true, l) m = refl
edited-line (false, l) m = refl

module _ (execute : Execute) where
  -- The line with the cursor behind a text.
  abbrev Holds : Bytes → Monitor → Type 0
  Holds xs m = Edits.IsValid m.line × (view m.line ≡ record { content = xs; position = length xs })

  typed_line :
      (cs : Bytes) (xs : Bytes) (m : Monitor)
      → Printable cs
      → Holds xs m
      → length xs + length cs ≤ 128
      → ((handle_all execute (map char cs) m).0 ≡ false)
        × Holds (xs ++ cs) (handle_all execute (map char cs) m).1
  unfolding handle_key_event
  typed_line [] xs m no_text v h = rw (append-nil xs) (refl, v)
  typed_line (c ∷ cs) xs m (a_char lo hi p) v h =
      let r = insert_or_overwrite_char c m.overwrite_mode m.line in
      let a = insert_or_overwrite_char_refines c m.overwrite_mode m.line v.0 in
      let s : view r.1 ≡ record { content = xs ++ (c ∷ []); position = length xs + 1 } =
        a.text
        ∙ ap (λ t. (type_char c m.overwrite_mode t).1) v.1
        ∙ ap (λ q. q.1) (type_char-end c m.overwrite_mode xs (omega arith) (omega arith)) in
      let n : length (xs ++ (c ∷ [])) ≡ length xs + 1 = length-append xs (c ∷ []) in
      let w : Holds (xs ++ (c ∷ [])) (edited r m) = rw (edited-line r m, n) (a.valid, s) in
      rw (← append_cons xs c cs) (typed_line cs (xs ++ (c ∷ [])) (edited r m) p w (omega arith))

  -- What the monitor does with a printable text of at most 128 characters that is typed on the keyboard
  -- into an empty line, with shift where it is needed, and `enter`: none of the characters leaves the
  -- monitor, the line holds exactly the text, and `enter` hands it to `execute_command`, whose answer
  -- it gives, with the line pushed to the history.
  pub typed_command :
      (cs : Bytes) (m : Monitor)
      → Printable cs
      → length cs ≤ 128
      → IsReady m
      → m.line.len ≡ 0
      → let (exit, typed) = handle_all execute (run (type_text cs) Decoder.new).0 m in
        (exit ≡ false)
        × (as_str typed.line ≡ cs)
        × ((handle_key_event execute enter typed).0
            ≡ (execute cs (push_line typed.line typed.history) typed.auto_scheduler).0)
  unfolding handle_key_event
  typed_command cs m p h v e =
      let nothing : take m.line.len m.line.bytes ≡ [] = rw e refl in
      let start : m.line.cursor ≡ 0 = omega (arith, v.line_valid.inside) in
      let w : Holds [] m = (v.line_valid, rw (nothing, start) refl) in
      let (exit, (valid, shown)) = typed_line cs [] m p w (omega arith) in
      let same : as_str (handle_all execute (map char cs) m).1.line ≡ cs = ap Text.content shown in
      let typed = (handle_all execute (map char cs) m).1 in
      let history = push_line typed.line typed.history in
      rw (type_text_lem cs p)
        (exit, same, ap (λ s. (execute s history typed.auto_scheduler).0) same)
