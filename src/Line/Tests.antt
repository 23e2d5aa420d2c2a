-- ===== src/Line/Tests.antt =====
-- Runs of the input line, and the theorem on it at such inputs.
use jing_os.Base.{List, ◌≡◌, refl, [], ◌∷◌, true, false, bytes, replicate}
use jing_os.Line.Buffer.{
  new, as_str, insert_char, insert_or_overwrite_char, append_str, set_from_str, backspace,
  delete_range, delete_word_left, move_word_left, move_left, previous_word_boundary,
}
use jing_os.Line.Spec.{empty}
use jing_os.Line.Refine.{
  Edit, types, inserts, sets, erases, left, word_left_of, erases_word, apply_all, meanings,
  line_refines,
}

abbrev editing : List Edit
editing =
    inserts (bytes "taskrun  42")
    ∷ word_left_of
    ∷ erases_word
    ∷ types 120 false
    ∷ left
    ∷ types 121 true
    ∷ []

editing_runs : as_str (apply_all editing new).1 ≡ bytes "y42"
unfolding append_str move_word_left delete_word_left previous_word_boundary delete_range insert_char
    insert_or_overwrite_char move_left
editing_runs = refl

long_line_refused :
    (apply_all (sets (replicate 128 97) ∷ types 98 false ∷ erases ∷ []) new).0
    ≡ true ∷ false ∷ true ∷ []
unfolding set_from_str insert_char insert_or_overwrite_char backspace
long_line_refused = refl

line_refines_example : as_str (apply_all editing new).1 ≡ (meanings editing empty).1.content
line_refines_example = (line_refines editing).1
