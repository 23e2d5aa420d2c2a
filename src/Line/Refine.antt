-- ===== src/Line/Refine.antt =====
-- kernel/src/main.rs: every edit of the input line, and every sequence of edits, does what the
-- specification says.
use jing_os.Base.{
  ℕ, ◌+◌, ◌-◌, ◌≤◌, ◌≡◌, refl, ap, min, Bool, true, List, [], ◌∷◌, length, length-replicate, Bytes,
  arith,
}
use jing_os.Line.Buffer.{
  InputLine, new, input_line_max, insert_or_overwrite_char, append_str, set_from_str, backspace,
  delete, clear, move_left, move_right, move_home, move_end, move_word_left, move_word_right,
  delete_word_left, delete_word_right, str_is_ascii, as_str,
}
use jing_os.Line.Spec.{
  Text, empty, go, cut, type_char, insert_text, replace_all, erase_left, erase_right, word_left,
  word_right,
}
use jing_os.Line.Edits.{IsValid, view, Agrees, insert_or_overwrite_char_refines}
use jing_os.Line.Pastes.{append_str_refines, set_from_str_refines}
use jing_os.Line.Deletes.{backspace_refines, delete_refines}
use jing_os.Line.Moves.{
  move_left_refines, move_right_refines, move_home_refines, move_end_refines,
  move_word_left_refines, move_word_right_refines, delete_word_left_refines,
  delete_word_right_refines,
}

pub data Edit : Type 0 where
  types : ℕ → Bool → Edit
  inserts sets : Bytes → Edit
  erases deletes left right line_home line_end word_left_of word_right_of erases_word deletes_word
        clears :
      Edit

-- What the monitor calls for an edit.
abbrev pub apply : Edit → InputLine → Bool × InputLine
apply (types c overwrite) l = insert_or_overwrite_char c overwrite l
apply (inserts s) l = append_str s l
apply (sets s) l = set_from_str s l
apply erases l = backspace l
apply deletes l = delete l
apply left l = move_left l
apply right l = move_right l
apply line_home l = move_home l
apply line_end l = move_end l
apply word_left_of l = move_word_left l
apply word_right_of l = move_word_right l
apply erases_word l = delete_word_left l
apply deletes_word l = delete_word_right l
apply clears l = (true, clear l)

-- What the edit means on the text.
abbrev pub meaning : Edit → Text → Bool × Text
meaning (types c overwrite) t = type_char c overwrite t
meaning (inserts s) t = insert_text s t
meaning (sets s) t = replace_all s t
meaning erases t = erase_left t
meaning deletes t = erase_right t
meaning left t = go (t.position - 1) t
meaning right t = go (min (t.position + 1) (length t.content)) t
meaning line_home t = go 0 t
meaning line_end t = go (length t.content) t
meaning word_left_of t = go (word_left t) t
meaning word_right_of t = go (word_right t) t
meaning erases_word t = cut (word_left t) t.position t
meaning deletes_word t = cut t.position (word_right t) t
meaning clears t = (true, empty)

pub new-IsValid : IsValid new
new-IsValid = record {
  size = length-replicate {A = ℕ} 128 0;
  fits = omega arith;
  inside = omega arith;
  ascii = refl;
}

clear-IsValid : (l : InputLine) → IsValid l → IsValid (clear l)
clear-IsValid l v = record { size = v.size; fits = omega arith; inside = omega arith; ascii = refl }

pub apply_refines : (e : Edit) (l : InputLine) → IsValid l → Agrees (apply e l) (meaning e (view l))
apply_refines (types c overwrite) l v = insert_or_overwrite_char_refines c overwrite l v
apply_refines (inserts s) l v = append_str_refines s l v
apply_refines (sets s) l v = set_from_str_refines s l v
apply_refines erases l v = backspace_refines l v
apply_refines deletes l v = delete_refines l v
apply_refines left l v = move_left_refines l v
apply_refines right l v = move_right_refines l v
apply_refines line_home l v = move_home_refines l v
apply_refines line_end l v = move_end_refines l v
apply_refines word_left_of l v = move_word_left_refines l v
apply_refines word_right_of l v = move_word_right_refines l v
apply_refines erases_word l v = delete_word_left_refines l v
apply_refines deletes_word l v = delete_word_right_refines l v
apply_refines clears l v = record { answer = refl; text = refl; valid = clear-IsValid l v }

-- The answers of the edits, and the line after them.
abbrev pub apply_all : List Edit → InputLine → List Bool × InputLine
apply_all [] l = ([], l)
apply_all (e ∷ es) l =
    let (answer, l') = apply e l in
    let (answers, last) = apply_all es l' in (answer ∷ answers, last)

abbrev pub meanings : List Edit → Text → List Bool × Text
meanings [] t = ([], t)
meanings (e ∷ es) t =
    let (answer, t') = meaning e t in
    let (answers, last) = meanings es t' in (answer ∷ answers, last)

apply_all_refines :
    (es : List Edit) (l : InputLine)
    → IsValid l
    → ((apply_all es l).0 ≡ (meanings es (view l)).0)
      × (view (apply_all es l).1 ≡ (meanings es (view l)).1)
      × IsValid (apply_all es l).1
apply_all_refines [] l v = (refl, refl, v)
apply_all_refines (e ∷ es) l v =
    let r = apply_refines e l v in
    let (answers, text, valid) = apply_all_refines es (apply e l).1 r.valid in
    (
      rw (apply_all, meanings, ← r.answer, ← r.text, answers) refl,
      rw (apply_all, meanings, ← r.text) text,
      valid,
    )

pub line-IsValid : (es : List Edit) → IsValid (apply_all es new).1
line-IsValid es = (apply_all_refines es new new-IsValid).2

-- The input line is a text of at most 128 ASCII characters with a cursor inside it. Every sequence
-- of edits from an empty line, whatever is typed or pasted, answers what the edits of the text
-- answer, and leaves their text and cursor; a refused edit changes nothing.
pub line_refines :
    (es : List Edit)
    → let (answers, l) = apply_all es new in
      (answers ≡ (meanings es empty).0)
      × (as_str l ≡ (meanings es empty).1.content)
      × (l.cursor ≡ (meanings es empty).1.position)
      × (l.cursor ≤ l.len)
      × (l.len ≤ input_line_max)
      × (str_is_ascii (as_str l) ≡ true)
line_refines es =
    let (answers, text, v) = apply_all_refines es new new-IsValid in
    (answers, ap Text.content text, ap Text.position text, v.inside, v.fits, v.ascii)
