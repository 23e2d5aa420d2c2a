-- ===== src/Line/Buffer.antt =====
-- kernel/src/main.rs: `InputLine`. A method that answers a Boolean returns it with the line after it.
use jing_os.Base.{
  ℕ, zero, suc, ◌+◌, ◌-◌, ◌%◌, ◌^◌, min, Bool, true, false, not, ◌&&◌, ◌||◌, [], ◌∷◌, ltb, leb,
  ◌==◌, if◌then◌else◌, length, get_or, set, take, replicate, Bytes,
}

abbrev pub input_line_max : ℕ
input_line_max = 128

pub record InputLine : Type 0 where
  pub bytes : Bytes
  pub len : ℕ
  pub cursor : ℕ

abbrev pub new : InputLine
new = record { bytes = replicate input_line_max 0; len = 0; cursor = 0 }

-- `char::is_ascii` and `u8::is_ascii`.
abbrev pub is_ascii : ℕ → Bool
is_ascii c = ltb c 128

-- `str::is_ascii`.
abbrev pub str_is_ascii : Bytes → Bool
str_is_ascii [] = true
str_is_ascii (c ∷ cs) = is_ascii c && str_is_ascii cs

-- `for index in (start..start + count).rev() { bytes[index + by] = bytes[index]; }`.
abbrev pub shift_up : ℕ → ℕ → ℕ → Bytes → Bytes
shift_up by start zero b = b
shift_up by start (suc k) b = shift_up by start k (set b (start + k + by) (get_or b (start + k) 0))

-- `for index in start..start + count { bytes[index - by] = bytes[index]; }`.
abbrev pub shift_down : ℕ → ℕ → ℕ → Bytes → Bytes
shift_down by start zero b = b
shift_down by start (suc k) b = shift_down by (suc start) k (set b (start - by) (get_or b start 0))

-- `bytes[at..at + text.len()].copy_from_slice(text)`.
abbrev pub copy_at : ℕ → Bytes → Bytes → Bytes
copy_at at [] b = b
copy_at at (c ∷ cs) b = copy_at (suc at) cs (set b at c)

unfoldable pub insert_char : ℕ → InputLine → Bool × InputLine
insert_char character l =
    if not (is_ascii character) || leb (length l.bytes) l.len then (false, l) else (
      true,
      record {
        bytes = set (shift_up 1 l.cursor (l.len - l.cursor) l.bytes) l.cursor (character % 2 ^ 8);
        len = l.len + 1;
        cursor = l.cursor + 1;
      },
    )

unfoldable pub insert_or_overwrite_char : ℕ → Bool → InputLine → Bool × InputLine
insert_or_overwrite_char character overwrite_mode l =
    if not (is_ascii character)
    then (false, l)
    else (if overwrite_mode && ltb l.cursor l.len
        then (
          true,
          record l { bytes = set l.bytes l.cursor (character % 2 ^ 8); cursor = l.cursor + 1 },
        )
        else insert_char character l)

unfoldable pub append_str : Bytes → InputLine → Bool × InputLine
append_str text l =
    if not (str_is_ascii text) || ltb (length l.bytes) (l.len + length text) then (false, l) else (
      true,
      record {
        bytes = copy_at l.cursor text (shift_up (length text) l.cursor (l.len - l.cursor) l.bytes);
        len = l.len + length text;
        cursor = l.cursor + length text;
      },
    )

abbrev pub clear : InputLine → InputLine
clear l = record l { len = 0; cursor = 0 }

unfoldable pub set_from_str : Bytes → InputLine → Bool × InputLine
set_from_str text l =
    if not (str_is_ascii text) || ltb (length l.bytes) (length text) then (false, l) else (
      true,
      record { bytes = copy_at 0 text (clear l).bytes; len = length text; cursor = length text },
    )

unfoldable pub backspace : InputLine → Bool × InputLine
backspace l = if l.cursor == 0 then (false, l) else (
  true,
  (let removed = l.cursor - 1 in
      record {
        bytes = shift_down 1 (removed + 1) (l.len - (removed + 1)) l.bytes;
        len = l.len - 1;
        cursor = l.cursor - 1;
      }),
)

unfoldable pub delete : InputLine → Bool × InputLine
delete l = if leb l.len l.cursor then (false, l) else (
  true,
  record l {
    bytes = shift_down 1 (l.cursor + 1) (l.len - (l.cursor + 1)) l.bytes;
    len = l.len - 1;
  },
)

-- The bytes are ASCII (`Line.Refine`), so that `from_utf8` returns them.
abbrev pub as_str : InputLine → Bytes
as_str l = take l.len l.bytes

abbrev pub as_prefix_str : InputLine → Bytes
as_prefix_str l = take l.cursor l.bytes

abbrev pub is_empty : InputLine → Bool
is_empty l = l.len == 0

abbrev pub is_cursor_at_end : InputLine → Bool
is_cursor_at_end l = l.cursor == l.len

-- To another position, if it is another one.
abbrev pub move_to : ℕ → InputLine → Bool × InputLine
move_to position l =
    if position == l.cursor then (false, l) else (true, record l { cursor = position })

unfoldable pub move_left : InputLine → Bool × InputLine
move_left l = if l.cursor == 0 then (false, l) else (true, record l { cursor = l.cursor - 1 })

unfoldable pub move_right : InputLine → Bool × InputLine
move_right l = if leb l.len l.cursor then (false, l) else (true, record l { cursor = l.cursor + 1 })

unfoldable pub move_home : InputLine → Bool × InputLine
move_home l = if l.cursor == 0 then (false, l) else (true, record l { cursor = 0 })

unfoldable pub move_end : InputLine → Bool × InputLine
move_end l = if l.cursor == l.len then (false, l) else (true, record l { cursor = l.len })

-- `u8::is_ascii_whitespace`: space, tab, line feed, form feed and carriage return.
abbrev pub is_whitespace : ℕ → Bool
is_whitespace b = b == 32 || b == 9 || b == 10 || b == 12 || b == 13

abbrev pub is_word_byte : ℕ → Bool
is_word_byte b =
    (leb 48 b && leb b 57) || (leb 65 b && leb b 90) || (leb 97 b && leb b 122) || b == 95

abbrev pub is_other : ℕ → Bool
is_other b = not (is_whitespace b) && not (is_word_byte b)

-- `while position > 0 && p(bytes[position - 1]) { position -= 1; }`.
abbrev pub scan_back : (ℕ → Bool) → Bytes → ℕ → ℕ
scan_back p b zero = zero
scan_back p b (suc n) = let rest = scan_back p b n in if p (get_or b n 0) then rest else suc n

-- `while position < len && p(bytes[position]) { position += 1; }`, with `len - position` rounds left.
abbrev pub scan_on : (ℕ → Bool) → Bytes → ℕ → ℕ → ℕ
scan_on p b position zero = position
scan_on p b position (suc n) =
    let rest = scan_on p b (suc position) n in if p (get_or b position 0) then rest else position

unfoldable pub previous_word_boundary : InputLine → ℕ
previous_word_boundary l =
    if l.cursor == 0
    then 0
    else (let position =
          scan_back is_word_byte l.bytes (scan_back is_whitespace l.bytes l.cursor) in
        let position' =
          if position == l.cursor then scan_back is_other l.bytes position else position in
        if position' == l.cursor then position' - 1 else position')

abbrev pub scan_to : (ℕ → Bool) → InputLine → ℕ → ℕ
scan_to p l position = scan_on p l.bytes position (l.len - position)

unfoldable pub next_word_boundary : InputLine → ℕ
next_word_boundary l =
    if leb l.len l.cursor
    then l.len
    else (let position = scan_to is_word_byte l (scan_to is_whitespace l l.cursor) in
        let position' = if position == l.cursor then scan_to is_other l position else position in
        if position' == l.cursor then min (position' + 1) l.len else position')

unfoldable pub move_word_left : InputLine → Bool × InputLine
move_word_left l = move_to (previous_word_boundary l) l

unfoldable pub move_word_right : InputLine → Bool × InputLine
move_word_right l = move_to (next_word_boundary l) l

unfoldable pub delete_range : ℕ → ℕ → InputLine → InputLine
delete_range start end l =
    let removed = end - start in
    if removed == 0 then l else record {
      bytes = shift_down removed end (l.len - end) l.bytes;
      len = l.len - removed;
      cursor = if ltb (l.len - removed) l.cursor then l.len - removed else l.cursor;
    }

unfoldable pub delete_word_left : InputLine → Bool × InputLine
delete_word_left l =
    let start = previous_word_boundary l in
    if start == l.cursor
    then (false, l)
    else (true, record (delete_range start l.cursor l) { cursor = start })

unfoldable pub delete_word_right : InputLine → Bool × InputLine
delete_word_right l =
    let end = next_word_boundary l in
    if end == l.cursor then (false, l) else (true, delete_range l.cursor end l)
