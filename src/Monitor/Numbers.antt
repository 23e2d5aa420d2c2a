-- ===== src/Monitor/Numbers.antt =====
-- kernel/src/main.rs: `parse_u64`, with the `u64::from_str_radix` and `str::parse` that it calls.
use jing_os.Base.{
  ℕ, zero, suc, ◌+◌, ◌-◌, ◌*◌, ◌/◌, ◌%◌, ◌&&◌, ◌||◌, Option, none, some, [], ◌∷◌, ◌++◌, Bytes,
  bytes, starts_with, drop, ltb, leb, ◌==◌, if◌then◌else◌, u64_max,
}

-- The value of a digit or a letter, 99 of any other byte.
abbrev pub value_of : ℕ → ℕ
value_of c =
    if leb 0x30 c && leb c 0x39
    then c - 0x30
    else (if leb 0x61 c && leb c 0x7a
        then c - 0x57
        else (if leb 0x41 c && leb c 0x5a then c - 0x37 else 99))

-- A digit more, if it is one and 64 bits hold the number.
abbrev pub add_digit : ℕ → ℕ → ℕ → Option ℕ
add_digit radix c n =
    if ltb (value_of c) radix && leb (n * radix + value_of c) u64_max
    then some (n * radix + value_of c)
    else none

abbrev pub and_digit : ℕ → ℕ → Option ℕ → Option ℕ
and_digit radix c none = none
and_digit radix c (some n) = add_digit radix c n

unfoldable pub digits_value : ℕ → Bytes → Option ℕ → Option ℕ
digits_value radix [] n = n
digits_value radix (c ∷ text) n = digits_value radix text (and_digit radix c n)

-- At least one digit, behind an optional plus sign.
abbrev pub from_digits : ℕ → Bytes → Option ℕ
from_digits radix [] = none
from_digits radix (c ∷ text) = digits_value radix (c ∷ text) (some 0)

unfoldable pub from_str_radix : Bytes → ℕ → Option ℕ
from_str_radix [] radix = none
from_str_radix (c ∷ text) radix =
    if c == 0x2b then from_digits radix text else from_digits radix (c ∷ text)

unfoldable pub parse_u64 : Bytes → Option ℕ
parse_u64 text =
    if starts_with (bytes "0x") text || starts_with (bytes "0X") text
    then from_str_radix (drop 2 text) 16
    else from_str_radix text 10

-- The digit of a value below sixteen.
abbrev pub digit_of : ℕ → ℕ
digit_of d = if ltb d 10 then d + 0x30 else d + 0x57

-- The digits of a number, at most so many.
abbrev pub digits : ℕ → ℕ → ℕ → Bytes
digits radix zero n = []
digits radix (suc fuel) n =
    if ltb n radix
    then digit_of n ∷ []
    else digits radix fuel (n / radix) ++ (digit_of (n % radix) ∷ [])

-- A number as `{}` and as `{:#x}` print it.
abbrev pub decimal : ℕ → Bytes
decimal n = digits 10 64 n

abbrev pub hexadecimal : ℕ → Bytes
hexadecimal n = bytes "0x" ++ digits 16 64 n
