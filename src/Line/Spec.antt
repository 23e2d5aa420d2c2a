-- ===== src/Line/Spec.antt =====
-- What the input line promises: a text of ASCII characters with a cursor, and edits that replace a
-- piece of it.
use jing_os.Base.{
  ℕ, zero, suc, get_or, drop, ◌+◌, ◌-◌, Bool, true, false, ◌&&◌, [], ◌∷◌, ltb, leb, ◌==◌,
  if◌then◌else◌, length, Bytes,
}
use jing_os.Line.Buffer.{
  input_line_max, is_ascii, str_is_ascii, is_whitespace, is_word_byte, is_other,
}
use jing_os.Line.Slices.{splice}

pub record Text : Type 0 where
  pub content : Bytes
  pub position : ℕ

abbrev pub empty : Text
empty = record { content = []; position = 0 }

-- The text with a piece replaced and the cursor behind what came in.
abbrev pub replace : ℕ → ℕ → Bytes → Text → Bool × Text
replace start end ins t =
    (true, record { content = splice start end ins t.content; position = start + length ins })

abbrev pub refuse : Text → Bool × Text
refuse t = (false, t)

-- To a position, which is refused at the position itself.
abbrev pub go : ℕ → Text → Bool × Text
go p t = if p == t.position then refuse t else (true, record t { position = p })

-- Without the piece from `start` to `end`, which is refused if there is nothing between them.
abbrev pub cut : ℕ → ℕ → Text → Bool × Text
cut start end t = if start == end then refuse t else replace start end [] t

unfoldable pub insert : ℕ → Text → Bool × Text
insert c t =
    if is_ascii c && ltb (length t.content) input_line_max
    then replace t.position t.position (c ∷ []) t
    else refuse t

-- With overwriting, a character behind the cursor is replaced.
unfoldable pub type_char : ℕ → Bool → Text → Bool × Text
type_char c overwrite t =
    if is_ascii c && overwrite && ltb t.position (length t.content)
    then replace t.position (t.position + 1) (c ∷ []) t
    else insert c t

unfoldable pub insert_text : Bytes → Text → Bool × Text
insert_text s t =
    if str_is_ascii s && leb (length t.content + length s) input_line_max
    then replace t.position t.position s t
    else refuse t

unfoldable pub replace_all : Bytes → Text → Bool × Text
replace_all s t =
    if str_is_ascii s && leb (length s) input_line_max
    then replace 0 (length t.content) s t
    else refuse t

unfoldable pub erase_left : Text → Bool × Text
erase_left t = if t.position == 0 then refuse t else replace (t.position - 1) t.position [] t

unfoldable pub erase_right : Text → Bool × Text
erase_right t =
    if leb (length t.content) t.position then refuse t else replace t.position (t.position + 1) [] t

abbrev pub skip : (ℕ → Bool) → Bytes → Bytes
skip p [] = []
skip p (x ∷ xs) = let rest = skip p xs in if p x then rest else x ∷ xs

-- What is left of a text past its first word: a run of characters that are no part of a word, or
-- blanks, if there are any, and a word behind them.
abbrev pub past_word : Bytes → Bytes
past_word [] = []
past_word (x ∷ xs) =
    if is_other x then skip is_other (x ∷ xs) else skip is_word_byte (skip is_whitespace (x ∷ xs))

-- The text before a position, read backwards, and the text behind it.
abbrev pub before : ℕ → Bytes → Bytes
before zero b = []
before (suc n) b = get_or b n 0 ∷ before n b

abbrev pub word_left : Text → ℕ
word_left t = length (past_word (before t.position t.content))

abbrev pub word_right : Text → ℕ
word_right t = length t.content - length (past_word (drop t.position t.content))
