-- ===== src/Line/Edits.antt =====
-- kernel/src/main.rs: the edits of the input line do what the specification of a text says.
use jing_os.Base.{
  ℕ, zero, suc, ◌+◌, ◌-◌, ◌%◌, ◌^◌, ◌≤◌, ◌<◌, ◌≡◌, refl, ◌∙◌, Bool, true, false, not, ◌&&◌, ◌||◌,
  [], ◌∷◌, ◌++◌, ltb, leb, length, get_or, set, take, drop, length-take, length-set, Bytes, arith,
  Bool-cases, inl, inr,
}
use jing_os.Line.Buffer.{
  InputLine, input_line_max, is_ascii, str_is_ascii, shift_up, insert_char,
  insert_or_overwrite_char,
}
use jing_os.Line.Slices.{splice, spliced_at, take-splice, get_or-set, get_or-cons}
use jing_os.Line.Shifts.{length-shift_up, get_or-shift_up}
use jing_os.Line.Spec.{Text, replace, refuse, insert, type_char}

pub record IsValid (l : InputLine) : Type 0 where
  pub size : length l.bytes ≡ input_line_max
  pub fits : l.len ≤ input_line_max
  pub inside : l.cursor ≤ l.len
  pub ascii : str_is_ascii (take l.len l.bytes) ≡ true

abbrev pub view : InputLine → Text
view l = record { content = take l.len l.bytes; position = l.cursor }

-- An answer and a line against the specification's answer and text; the line is valid again.
pub record Agrees (r : Bool × InputLine) (s : Bool × Text) : Type 0 where
  pub answer : r.0 ≡ s.0
  pub text : view r.1 ≡ s.1
  pub valid : IsValid r.1

str_is_ascii-append :
    (xs ys : Bytes)
    → str_is_ascii xs ≡ true
    → str_is_ascii ys ≡ true
    → str_is_ascii (xs ++ ys) ≡ true
str_is_ascii-append [] ys h h' = h'
str_is_ascii-append (x ∷ xs) ys h h' = ground (arith, str_is_ascii-append xs ys (ground arith) h')

str_is_ascii-take : (n : ℕ) (xs : Bytes) → str_is_ascii xs ≡ true → str_is_ascii (take n xs) ≡ true
str_is_ascii-take zero xs h = refl
str_is_ascii-take (suc n) [] h = refl
str_is_ascii-take (suc n) (x ∷ xs) h = ground (arith, str_is_ascii-take n xs (ground arith))

str_is_ascii-drop : (n : ℕ) (xs : Bytes) → str_is_ascii xs ≡ true → str_is_ascii (drop n xs) ≡ true
str_is_ascii-drop zero xs h = h
str_is_ascii-drop (suc n) [] h = refl
str_is_ascii-drop (suc n) (x ∷ xs) h = str_is_ascii-drop n xs (ground arith)

str_is_ascii-splice :
    (start end : ℕ) (ins xs : Bytes)
    → str_is_ascii ins ≡ true
    → str_is_ascii xs ≡ true
    → str_is_ascii (splice start end ins xs) ≡ true
str_is_ascii-splice start end ins xs h h' =
    str_is_ascii-append (take start xs) (ins ++ drop end xs) (str_is_ascii-take start xs h')
      (str_is_ascii-append ins (drop end xs) h (str_is_ascii-drop end xs h'))

pub refused : (l : InputLine) → IsValid l → Agrees (false, l) (refuse (view l))
refused l v = record { answer = refl; text = refl; valid = v }

-- A buffer that is, byte by byte, a replaced piece of the line's refines that replacement.
pub replaced :
    (l l' : InputLine) (start end : ℕ) (ins : Bytes)
    → IsValid l
    → start ≤ end
    → end ≤ l.len
    → length l'.bytes ≡ input_line_max
    → l'.len ≡ (l.len - (end - start)) + length ins
    → l'.len ≤ input_line_max
    → l'.cursor ≡ start + length ins
    → str_is_ascii ins ≡ true
    → ((i : ℕ) → i < l'.len → get_or l'.bytes i 0 ≡ spliced_at start end ins l.bytes i)
    → Agrees (true, l') (replace start end ins (view l))
replaced l l' start end ins v h1 h2 size len' fits cursor' a at =
    let same =
      take-splice l.bytes l'.bytes l.len l'.len start end ins (omega (arith, v.size, v.fits))
        (omega arith) h1 h2 len' at in
    record {
      answer = refl;
      text = rw (same, cursor') refl;
      valid = record {
        size = size;
        fits = fits;
        inside = omega arith;
        ascii = rw same (str_is_ascii-splice start end ins (take l.len l.bytes) a v.ascii);
      };
    }

abbrev pub len_of : Text → ℕ
len_of t = length t.content

pub length-view : (l : InputLine) → IsValid l → len_of (view l) ≡ l.len
length-view l v = omega (arith, length-take l.len l.bytes, v.size, v.fits)

small_byte : (c : ℕ) → is_ascii c ≡ true → c % 256 ≡ c
small_byte c e = let h : c < 128 = ground arith in omega arith

pub insert_char_refines :
    (c : ℕ) (l : InputLine) → IsValid l → Agrees (insert_char c l) (insert c (view l))
unfolding insert_char insert
insert_char_refines c l v = elim (Bool-cases (is_ascii c && ltb l.len 128)) [
  | inl e ↦
      let t : (not (is_ascii c) || leb 128 l.len) ≡ false = ground arith in
      let k = l.len - l.cursor in
      let b = shift_up 1 l.cursor k l.bytes in
      let w = small_byte c (ground arith) in
      let room : l.len < 128 = ground arith in
      rw (v.size, length-view l v, t, e)
        (replaced l
          (record { bytes = set b l.cursor (c % 2 ^ 8); len = l.len + 1; cursor = l.cursor + 1 })
          l.cursor l.cursor (c ∷ []) v (omega arith) v.inside
          (length-set b l.cursor (c % 256) ∙ length-shift_up 1 l.cursor k l.bytes ∙ v.size)
          (omega arith) (omega arith) refl (ground arith)
          (λ i h.
            rw
              (
                w,
                get_or-set b l.cursor c i,
                length-shift_up 1 l.cursor k l.bytes,
                get_or-shift_up 1 l.cursor k l.bytes i (omega (arith, v.size, v.inside)),
                get_or-cons c [] (i - l.cursor),
              )
              (ground (arith, v.size, v.inside))))
  | inr e ↦
      let t : (not (is_ascii c) || leb 128 l.len) ≡ true = ground arith in
      rw (v.size, length-view l v, t, e) (refused l v)
]

pub overwrite_refines :
    (c : ℕ) (l : InputLine)
    → IsValid l
    → is_ascii c ≡ true
    → l.cursor < l.len
    → Agrees
        (true, record l { bytes = set l.bytes l.cursor (c % 2 ^ 8); cursor = l.cursor + 1 })
        (replace l.cursor (l.cursor + 1) (c ∷ []) (view l))
overwrite_refines c l v e h =
    let w = small_byte c e in
    replaced l (record l { bytes = set l.bytes l.cursor (c % 2 ^ 8); cursor = l.cursor + 1 })
      l.cursor (l.cursor + 1) (c ∷ []) v (omega arith) (omega arith)
      (length-set l.bytes l.cursor (c % 256) ∙ v.size) (omega arith) v.fits refl (ground arith)
      (λ i h'.
        rw (w, get_or-set l.bytes l.cursor c i, get_or-cons c [] (i - l.cursor))
          (ground (arith, v.size, v.fits)))

insert-refuses : (c : ℕ) (t : Text) → is_ascii c ≡ false → insert c t ≡ refuse t
unfolding insert
insert-refuses c t e = rw e

pub insert_or_overwrite_char_refines :
    (c : ℕ) (overwrite : Bool) (l : InputLine)
    → IsValid l
    → Agrees (insert_or_overwrite_char c overwrite l) (type_char c overwrite (view l))
unfolding insert_or_overwrite_char type_char
insert_or_overwrite_char_refines c overwrite l v = elim (Bool-cases (is_ascii c)) [
  | inr e ↦ rw (e, insert-refuses c (view l) e) (refused l v)
  | inl e ↦ elim (Bool-cases (overwrite && ltb l.cursor l.len)) [
    | inl f ↦ rw (length-view l v, e, f) (overwrite_refines c l v e (ground arith))
    | inr f ↦ rw (length-view l v, e, f) (insert_char_refines c l v)
  ]
]
