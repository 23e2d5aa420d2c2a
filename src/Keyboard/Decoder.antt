-- ===== src/Keyboard/Decoder.antt =====
-- kernel/src/keyboard.rs: `KeyboardDecoder` and `feed`. A scancode is a byte, a character its code
-- point.
use jing_os.Base.{
  ℕ, ◌-◌, ◌/◌, ◌%◌, ◌^◌, Option, none, some, Bool, true, false, not, ◌&&◌, ◌||◌, leb, ◌==◌,
  if◌then◌else◌,
}
use jing_os.Keyboard.Tables.{decode_letter, decode_symbol_pair}

pub data KeyEvent : Type 0 where
  char ctrl alt ctrl_alt : ℕ → KeyEvent
  enter backspace tab escape : KeyEvent
  arrow_up arrow_down arrow_left arrow_right word_left word_right : KeyEvent
  insert delete word_delete_left word_delete_right : KeyEvent
  home end page_up page_down : KeyEvent
  function unknown : ℕ → KeyEvent

pub record KeyboardDecoder : Type 0 where
  pub extended : Bool
  pub left_shift : Bool
  pub right_shift : Bool
  pub left_ctrl : Bool
  pub right_ctrl : Bool
  pub left_alt : Bool
  pub right_alt : Bool
  pub caps_lock : Bool

abbrev pub new : KeyboardDecoder
new = record {
  extended = false;
  left_shift = false;
  right_shift = false;
  left_ctrl = false;
  right_ctrl = false;
  left_alt = false;
  right_alt = false;
  caps_lock = false;
}

abbrev pub shift_active : KeyboardDecoder → Bool
shift_active d = d.left_shift || d.right_shift

abbrev pub ctrl_active : KeyboardDecoder → Bool
ctrl_active d = d.left_ctrl || d.right_ctrl

abbrev pub alt_active : KeyboardDecoder → Bool
alt_active d = d.left_alt || d.right_alt

abbrev pub classify_char : KeyboardDecoder → ℕ → KeyEvent
classify_char d c =
    if ctrl_active d
    then (if alt_active d then ctrl_alt c else ctrl c)
    else (if alt_active d then alt c else char c)

-- `scancode & 0x80 != 0`.
abbrev pub is_released : ℕ → Bool
is_released scancode = (scancode / 2 ^ 7) % 2 == 1

-- `char::to_ascii_uppercase`.
abbrev pub to_ascii_uppercase : ℕ → ℕ
to_ascii_uppercase c = if leb 97 c && leb c 122 then c - 32 else c

-- `^` on `bool`.
abbrev pub xor : Bool → Bool → Bool
xor true b = not b
xor false b = b

-- The first `match` of `decode_extended`: the modifiers on the right.
abbrev pub extended_modifier : ℕ → Bool → KeyboardDecoder → Option KeyboardDecoder
extended_modifier code released d =
    if code == 0x1d
    then some (record d { right_ctrl = not released })
    else (if code == 0x38 then some (record d { right_alt = not released }) else none)

-- Its second `match`.
abbrev pub extended_event : KeyboardDecoder → ℕ → ℕ → KeyEvent
extended_event d code scancode =
    if code == 0x48
    then arrow_up
    else (if code == 0x50
        then arrow_down
        else (if code == 0x4b
            then (if ctrl_active d then word_left else arrow_left)
            else (if code == 0x4d
                then (if ctrl_active d then word_right else arrow_right)
                else (if code == 0x52
                    then insert
                    else (if code == 0x53
                        then (if ctrl_active d then word_delete_right else delete)
                        else (if code == 0x47
                            then home
                            else (if code == 0x4f
                                then end
                                else (if code == 0x49
                                    then page_up
                                    else (if code == 0x51
                                        then page_down
                                        else unknown scancode)))))))))

unfoldable pub decode_extended : ℕ → KeyboardDecoder → Option KeyEvent × KeyboardDecoder
decode_extended scancode d =
    let released = is_released scancode in
    let code = scancode % 2 ^ 7 in
    elim (extended_modifier code released d) [
      | some d' ↦ (none, d')
      | none ↦ (if released then none else some (extended_event d code scancode), d)
    ]

-- The first `match` of `feed`.
abbrev pub modifier : ℕ → Bool → KeyboardDecoder → Option KeyboardDecoder
modifier code released d =
    if code == 0x2a
    then some (record d { left_shift = not released })
    else (if code == 0x36
        then some (record d { right_shift = not released })
        else (if code == 0x1d
            then some (record d { left_ctrl = not released })
            else (if code == 0x38
                then some (record d { left_alt = not released })
                else (if code == 0x3a
                    then some
                        (record d { caps_lock = if released then d.caps_lock else not d.caps_lock })
                    else none))))

-- The last `match` of `feed`.
abbrev pub named_event : KeyboardDecoder → ℕ → ℕ → KeyEvent
named_event d code scancode =
    if code == 0x1c
    then enter
    else (if code == 0x0e
        then (if ctrl_active d then word_delete_left else backspace)
        else (if code == 0x0f
            then tab
            else (if code == 0x01
                then escape
                else (if leb 0x3b code && leb code 0x44
                    then function (code - 0x3a)
                    else (if code == 0x57
                        then function 11
                        else (if code == 0x58 then function 12 else unknown scancode))))))

-- What `feed` makes of a pressed key that is no modifier.
abbrev pub event : KeyboardDecoder → ℕ → ℕ → KeyEvent
event d code scancode = elim (decode_letter code) [
  | some letter ↦
      classify_char d
        (if xor (shift_active d) d.caps_lock then to_ascii_uppercase letter else letter)
  | none ↦ elim (decode_symbol_pair code) [
    | some (normal, shifted) ↦ classify_char d (if shift_active d then shifted else normal)
    | none ↦ named_event d code scancode
  ]
]

-- `feed` without an `0xE0` before the scancode.
abbrev pub decode_plain : ℕ → KeyboardDecoder → Option KeyEvent × KeyboardDecoder
decode_plain scancode d =
    let released = is_released scancode in
    let code = scancode % 2 ^ 7 in
    elim (modifier code released d) [
      | some d' ↦ (none, d')
      | none ↦ (if released then none else some (event d code scancode), d)
    ]

unfoldable pub feed : ℕ → KeyboardDecoder → Option KeyEvent × KeyboardDecoder
feed scancode d =
    if scancode == 0xe0
    then (none, record d { extended = true })
    else (if d.extended
        then decode_extended scancode (record d { extended = false })
        else decode_plain scancode d)
