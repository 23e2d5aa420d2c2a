-- ===== src/Monitor/Completion.antt =====
-- kernel/src/main.rs: what `complete_command` completes.
use jing_os.Base.{
  append-nil, ℕ, zero, suc, ◌+◌, ◌≤◌, ◌<◌, ◌≡◌, refl, sym, ap, ◌∙◌, Bool, true, false, not, ◌&&◌,
  ◌||◌, List, [], ◌∷◌, ◌++◌, ltb, leb, if◌then◌else◌, length, drop, length-drop, Bytes, starts_with,
  arith, Bool-cases, inl, inr,
}
use jing_os.Line.Buffer.{InputLine, as_str, append_str, str_is_ascii, is_cursor_at_end}
use jing_os.Line.Edits.{view, length-view}
use jing_os.Line.Spec.{Text, insert_text}
use jing_os.Line.Pastes.{append_str_refines}
use jing_os.Monitor.Keys.{
  Monitor, command_names, contains_space, count_matches, redraw_if, complete_command,
}
use jing_os.Monitor.Ready.{IsReady}
use jing_os.Monitor.Typed.{take-length, drop-length}

-- The commands that start with a text.
abbrev pub matches : Bytes → List Bytes → List Bytes
matches text [] = []
matches text (n ∷ ns) = let rest = matches text ns in if starts_with text n then n ∷ rest else rest

none_left :
    (text : Bytes) (ns : List Bytes) (k : ℕ) (f : Bytes)
    → matches text ns ≡ []
    → count_matches text ns (suc k, f) ≡ (suc k, f)
none_left text [] k f h = refl
none_left text (n ∷ ns) k f h = elim (Bool-cases (starts_with text n)) [
  | inl e ↦ let h' : n ∷ matches text ns ≡ [] = rw (matches, e) at h in ground arith
  | inr e ↦
      let h' : matches text ns ≡ [] = rw (matches, e) at h in
      rw (count_matches, e) (none_left text ns k f h')
]

only_one :
    (text : Bytes) (ns : List Bytes) (f c : Bytes)
    → matches text ns ≡ c ∷ []
    → count_matches text ns (0, f) ≡ (1, c)
only_one text [] f c h = ground arith
only_one text (n ∷ ns) f c h = elim (Bool-cases (starts_with text n)) [
  | inl e ↦
      let h' : n ∷ matches text ns ≡ c ∷ [] = rw (matches, e) at h in
      let same : n ≡ c = ground arith in
      let none : matches text ns ≡ [] = ground arith in
      rw (count_matches, e) (none_left text ns 0 n none ∙ ap (λ x. (1, x)) same)
  | inr e ↦
      let h' : matches text ns ≡ c ∷ [] = rw (matches, e) at h in
      rw (count_matches, e) (only_one text ns f c h')
]

abbrev fits_line : Bytes → Bool
fits_line c = str_is_ascii c && leb (length c) 128

abbrev all_fit : List Bytes → Bool
all_fit [] = true
all_fit (n ∷ ns) = fits_line n && all_fit ns

match_sound :
    (text : Bytes) (ns : List Bytes) (c : Bytes)
    → all_fit ns ≡ true
    → matches text ns ≡ c ∷ []
    → (fits_line c ≡ true) × (starts_with text c ≡ true)
match_sound text [] c a h = ground arith
match_sound text (n ∷ ns) c a h = elim (Bool-cases (starts_with text n)) [
  | inl e ↦
      let h' : n ∷ matches text ns ≡ c ∷ [] = rw (matches, e) at h in
      let same : n ≡ c = ground arith in rw (← same) (ground arith, e)
  | inr e ↦
      let h' : matches text ns ≡ c ∷ [] = rw (matches, e) at h in
      match_sound text ns c (ground arith) h'
]

starts_with-drop : (text c : Bytes) → starts_with text c ≡ true → text ++ drop (length text) c ≡ c
starts_with-drop [] c h = refl
starts_with-drop (x ∷ xs) [] h = ground arith
starts_with-drop (x ∷ xs) (y ∷ ys) h =
    let same : x ≡ y = ground arith in
    let rest = starts_with-drop xs ys (ground arith) in rw (same, rest) refl

str_is_ascii-drop : (n : ℕ) (c : Bytes) → str_is_ascii c ≡ true → str_is_ascii (drop n c) ≡ true
str_is_ascii-drop zero c h = h
str_is_ascii-drop (suc n) [] h = refl
str_is_ascii-drop (suc n) (x ∷ xs) h = str_is_ascii-drop n xs (ground arith)

insert_text-end :
    (s text : Bytes)
    → str_is_ascii s ≡ true
    → length text + length s ≤ 128
    → (insert_text s (record { content = text; position = length text })).1.content ≡ text ++ s
unfolding insert_text
insert_text-end s text h h' =
    let t : (str_is_ascii s && leb (length text + length s) 128) ≡ true = ground arith in
    rw (t, take-length text, drop-length (length text) text (omega arith), append-nil s) refl

redraw_if-line : (r : Bool × InputLine) (m : Monitor) → (redraw_if r m).line ≡ r.1
redraw_if-line (true, l) m = refl
redraw_if-line (false, l) m = refl

module _ (m : Monitor) (v : IsReady m) (at_end : m.line.cursor ≡ m.line.len) where
  suffix_appended :
      (s : Bytes)
      → str_is_ascii s ≡ true
      → length (as_str m.line) + length s ≤ 128
      → as_str (append_str s m.line).1 ≡ as_str m.line ++ s
  suffix_appended s h h' =
      let here : m.line.cursor ≡ length (as_str m.line) =
        at_end ∙ sym (length-view m.line v.line_valid) in
      let shown : view m.line
          ≡ record { content = as_str m.line; position = length (as_str m.line) } =
        ap (λ p. record { content = as_str m.line; position = p }) here in
      ap Text.content (append_str_refines s m.line v.line_valid).text
      ∙ ap (λ t. (insert_text s t).1.content) shown
      ∙ insert_text-end s (as_str m.line) h h'

  -- With the cursor at the end of a text without a space, with which exactly one command starts, the
  -- tab key completes the line to this command.
  pub completes :
      (c : Bytes)
      → contains_space (as_str m.line) ≡ false
      → matches (as_str m.line) command_names ≡ c ∷ []
      → as_str (complete_command m).line ≡ c
  unfolding complete_command
  completes c no_space one =
      let text = as_str m.line in
      let s = drop (length text) c in
      let cursor_at_end : (contains_space text || not (is_cursor_at_end m.line)) ≡ false =
        ground arith in
      let (fit, start) = match_sound text command_names c refl one in
      let joined = starts_with-drop text c start in
      let ascii : str_is_ascii c ≡ true = ground arith in
      let room : length c ≤ 128 = ground arith in
      rw (cursor_at_end, only_one text command_names [] c one)
        (elim (Bool-cases (ltb (length text) (length c))) [
          | inl e ↦
              let longer : length text < length c = ground arith in
              let size = length-drop (length text) c in
              rw (e, redraw_if-line (append_str s m.line) m)
                (suffix_appended s (str_is_ascii-drop (length text) c ascii) (omega arith) ∙ joined)
          | inr e ↦
              let longer : length c ≤ length text = ground arith in
              let nothing = drop-length (length text) c longer in
              rw e (sym (append-nil text) ∙ ap (text ++◌) (sym nothing) ∙ joined)
        ])
