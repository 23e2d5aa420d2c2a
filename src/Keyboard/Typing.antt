-- ===== src/Keyboard/Typing.antt =====
-- kernel/src/keyboard.rs: every printable ASCII text can be typed, one key at a time.
use jing_os.Base.{
  Bytes, bytes, ℕ, ◌+◌, ◌≤◌, ◌<◌, ◌≡◌, refl, Option, none, some, Option-cases, Bool, true, false,
  not, ◌&&◌, ◌||◌, ◌==◌, if◌then◌else◌, List, [], ◌∷◌, ◌++◌, map, zero, suc, arith, Bool-cases, inl,
  inr,
}
use jing_os.Keyboard.Tables.{decode_letter, decode_symbol_pair}
use jing_os.Keyboard.Decoder.{KeyEvent, char, KeyboardDecoder, new, feed, decode_extended}

abbrev pub put_event : Option KeyEvent → List KeyEvent → List KeyEvent
put_event none es = es
put_event (some e) es = e ∷ es

-- The events of a stream of scancodes, and the decoder after it.
abbrev pub run : List ℕ → KeyboardDecoder → List KeyEvent × KeyboardDecoder
run [] d = ([], d)
run (s ∷ ss) d = let (e, d') = feed s d in let (es, last) = run ss d' in (put_event e es, last)

pub run-append :
    (xs ys : List ℕ) (d : KeyboardDecoder)
    → run (xs ++ ys) d ≡ ((run xs d).0 ++ (run ys (run xs d).1).0, (run ys (run xs d).1).1)
run-append [] ys d = refl
run-append (x ∷ xs) ys d = rw (run-append xs ys (feed x d).1) (put (feed x d).0 _ _ _)
  where
    put :
        (e : Option KeyEvent) (es fs : List KeyEvent) (l : KeyboardDecoder)
        → Path
            (List KeyEvent × KeyboardDecoder)
            (put_event e (es ++ fs), l)
            (put_event e es ++ fs, l)
    put none es fs l = refl
    put (some e) es fs l = refl

-- The US layout: each row of keys by the code of its first key, with what its keys type without
-- shift and with it. Codes count up along a row.
abbrev pub us_layout : List (ℕ × Bytes × Bytes)
us_layout =
    (0x02, bytes "1234567890-=", bytes "!@#$%^&*()_+")
    ∷ (0x10, bytes "qwertyuiop[]", bytes "QWERTYUIOP{}")
    ∷ (0x1e, bytes "asdfghjkl;'`", bytes "ASDFGHJKL:\"~")
    ∷ (0x2b, bytes "\\zxcvbnm,./", bytes "|ZXCVBNM<>?")
    ∷ (0x39, bytes " ", [])
    ∷ []

-- The code of a character's key, in a row that starts at a code.
abbrev pub code_in : ℕ → ℕ → Bytes → Option ℕ
code_in c code [] = none
code_in c code (x ∷ row) = let rest = code_in c (suc code) row in if x == c then some code else rest

-- The code of the key that has a character, and whether shift is needed for it.
abbrev pub key_in : ℕ → List (ℕ × Bytes × Bytes) → ℕ × Bool
key_in c [] = (0, false)
key_in c ((code, plain, shifted) ∷ rows) =
    let rest = key_in c rows in
    elim (code_in c code plain) [
      | some k ↦ (k, false)
      | none ↦ elim (code_in c code shifted) [ some k ↦ (k, true) | none ↦ rest ]
    ]

abbrev pub key_for : ℕ → ℕ × Bool
key_for c = key_in c us_layout

-- The scancodes of a typist: the key pressed and released, between a press and a release of the left
-- shift key where that is needed.
abbrev pub strokes_for : ℕ → List ℕ
strokes_for c =
    let (code, shift) = key_for c in
    if shift then 0x2a ∷ code ∷ (code + 128) ∷ 0xaa ∷ [] else code ∷ (code + 128) ∷ []

abbrev pub type_text : List ℕ → List ℕ
type_text [] = []
type_text (c ∷ cs) = strokes_for c ++ type_text cs

abbrev just_char : List KeyEvent → Option ℕ
just_char (char c ∷ []) = some c
just_char _ = none

just_char→eq : (es : List KeyEvent) (c : ℕ) → just_char es ≡ some c → es ≡ char c ∷ []
just_char→eq es c h = ground arith

abbrev is_new : KeyboardDecoder → Bool
is_new d = not (
    d.extended || d.left_shift || d.right_shift || d.left_ctrl || d.right_ctrl || d.left_alt
    || d.right_alt || d.caps_lock)

is_new→eq : (d : KeyboardDecoder) → is_new d ≡ true → d ≡ new
is_new→eq d h = ground arith

abbrev is_typed : ℕ → List KeyEvent × KeyboardDecoder → Bool
is_typed c (es, d) = elim (just_char es) [ none ↦ false | some x ↦ x == c && is_new d ]

is_typed→eq :
    (c : ℕ) (r : List KeyEvent × KeyboardDecoder) → is_typed c r ≡ true → r ≡ (char c ∷ [], new)
is_typed→eq c (es, d) h = elim (Option-cases (just_char es)) [
  | inl e ↦ let h' : Path Bool false true = rw (is_typed, e) at h in ground arith
  | inr (x, e) ↦
      let h' : (x == c && is_new d) ≡ true = rw (is_typed, e) at h in
      let same : x ≡ c = ground (arith, h') in
      let fresh : is_new d ≡ true = ground (arith, h') in
      rw (just_char→eq es x e, same, is_new→eq d fresh) refl
]

abbrev types : ℕ → Bool
types c = is_typed c (run (strokes_for c) new)

abbrev all_from : ℕ → ℕ → (ℕ → Bool) → Bool
all_from a zero p = true
all_from a (suc n) p = p a && all_from (suc a) n p

all_from→at : (n a c : ℕ) (p : ℕ → Bool) → all_from a n p ≡ true → a ≤ c → c < a + n → p c ≡ true
all_from→at zero a c p h lo hi = absurd (omega arith)
all_from→at (suc n) a c p h lo hi = elim (Bool-cases (a == c)) [
  | inl e ↦ let same : a ≡ c = ground (arith, e) in rw (← same) (ground (arith, h))
  | inr e ↦ all_from→at n (suc a) c p (ground (arith, h)) (ground (arith, e)) (omega arith)
]

all_types : all_from 32 95 types ≡ true
unfolding feed decode_extended decode_letter decode_symbol_pair
all_types = refl

one_key : (c : ℕ) → 32 ≤ c → c ≤ 126 → run (strokes_for c) new ≡ (char c ∷ [], new)
one_key c lo hi =
    is_typed→eq c (run (strokes_for c) new) (all_from→at 95 32 c types all_types lo (omega arith))

-- The printable ASCII characters.
pub data Printable : List ℕ → Type 0 where
  no_text : Printable []
  a_char : {c : ℕ} {cs : List ℕ} → 32 ≤ c → c ≤ 126 → Printable cs → Printable (c ∷ cs)

-- Every printable ASCII text can be typed: the scancodes of its keys on the US layout, with shift where
-- it is needed, give exactly its characters, one event each, and leave the decoder as it was at first.
pub type_text_lem : (cs : List ℕ) → Printable cs → run (type_text cs) new ≡ (map char cs, new)
type_text_lem [] no_text = refl
type_text_lem (c ∷ cs) (a_char lo hi h) =
    rw (run-append (strokes_for c) (type_text cs) new, one_key c lo hi, type_text_lem cs h)
