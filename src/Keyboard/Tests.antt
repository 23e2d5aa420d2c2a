-- ===== src/Keyboard/Tests.antt =====
-- Runs of the keyboard decoder, and the theorems on keyboard.rs at such inputs.
use jing_os.Base.{◌≡◌, refl, [], ◌∷◌, none, true, false, arith, map}
use jing_os.Keyboard.Tables.{decode_letter, decode_symbol_pair}
use jing_os.Keyboard.Decoder.{char, ctrl, arrow_left, feed, decode_extended, new}
use jing_os.Keyboard.Modifiers.{
  feed_all, strokes, held, no_bytes, a_byte, modifiers_lem, feed_silent,
}
use jing_os.Keyboard.Typing.{run, type_text, no_text, a_char, type_text_lem}

-- Left control and `c`, then the left arrow.
control_c_runs :
    (run (0x1d ∷ 0x2e ∷ 0xae ∷ 0x9d ∷ 0xe0 ∷ 0x4b ∷ []) new).0 ≡ ctrl 99 ∷ arrow_left ∷ []
unfolding feed decode_extended decode_letter decode_symbol_pair
control_c_runs = refl

modifiers_lem_example :
    (feed_all (0x2a ∷ 0xe0 ∷ 0x1d ∷ []) new).right_ctrl
    ≡ held true 0x1d false (strokes false (0x2a ∷ 0xe0 ∷ 0x1d ∷ []))
modifiers_lem_example =
    (modifiers_lem (0x2a ∷ 0xe0 ∷ 0x1d ∷ []) new
      (a_byte (omega arith) (a_byte (omega arith) (a_byte (omega arith) no_bytes)))).3

feed_silent_example : (feed 0x9e new).0 ≡ none
feed_silent_example = (feed_silent 0x9e new (omega arith)).1 refl

type_text_lem_example : run (type_text (72 ∷ 105 ∷ [])) new ≡ (map char (72 ∷ 105 ∷ []), new)
type_text_lem_example =
    type_text_lem (72 ∷ 105 ∷ [])
      (a_char (omega arith) (omega arith) (a_char (omega arith) (omega arith) no_text))
