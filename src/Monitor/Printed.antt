-- ===== src/Monitor/Printed.antt =====
-- kernel/src/main.rs: `parse_u64` reads back what the monitor prints.
use jing_os.Base.{
  ℕ, zero, suc, ◌+◌, ◌*◌, ◌/◌, ◌%◌, ◌≤◌, ◌<◌, ◌≡◌, ◌≢◌, ◌⊎◌, refl, ap, ◌∙◌, true, false, Option,
  some, [], ◌∷◌, ◌++◌, Bytes, starts_with, ltb, leb, ◌==◌, u64_max, arith, Bool-cases, inl, inr,
}
use native.Mathlib.Nat.{zero-mul, div-le_self}
use jing_os.Monitor.Numbers.{
  value_of, add_digit, and_digit, digits_value, from_str_radix, parse_u64, digit_of, digits,
  decimal, hexadecimal,
}

value_of-digit_of : (d : ℕ) → d < 16 → value_of (digit_of d) ≡ d
value_of-digit_of d h = ground (arith, h)

digits_value-append :
    (radix : ℕ) (xs ys : Bytes) (n : Option ℕ)
    → digits_value radix (xs ++ ys) n ≡ digits_value radix ys (digits_value radix xs n)
unfolding digits_value
digits_value-append radix [] ys n = refl
digits_value-append radix (x ∷ xs) ys n = digits_value-append radix xs ys (and_digit radix x n)

-- Twice as much for each digit.
abbrev double : ℕ → ℕ
double zero = 1
double (suc n) = 2 * double n

add_digit_lem :
    (radix d n : ℕ)
    → d < radix
    → radix ≤ 16
    → n * radix + d ≤ u64_max
    → add_digit radix (digit_of d) n ≡ some (n * radix + d)
add_digit_lem radix d n h h' fits =
    let e : value_of (digit_of d) ≡ d = value_of-digit_of d (omega (arith, h, h')) in
    let a : ltb d radix ≡ true = ground (arith, h) in
    let b : leb (n * radix + d) u64_max ≡ true = ground (arith, fits) in rw (e, a, b) refl

-- A base up to sixteen, with its division.
record IsRadix (radix : ℕ) : Type 0 where
  two : 2 ≤ radix
  sixteen : radix ≤ 16
  digit : (n : ℕ) → n % radix < radix
  whole : (n : ℕ) → n / radix * radix + n % radix ≡ n
  half : (n m : ℕ) → n < 2 * m → n / radix < m

ten-IsRadix : IsRadix 10
ten-IsRadix = record {
  two = omega arith;
  sixteen = omega arith;
  digit = λ n. omega arith;
  whole = λ n. omega arith;
  half = λ n m h. omega (arith, h);
}

hex-IsRadix : IsRadix 16
hex-IsRadix = record {
  two = omega arith;
  sixteen = omega arith;
  digit = λ n. omega arith;
  whole = λ n. omega arith;
  half = λ n m h. omega (arith, h);
}

module _ (radix : ℕ) (r : IsRadix radix) where
  digits_lem :
      (fuel n : ℕ)
      → n < double fuel
      → n ≤ u64_max
      → digits_value radix (digits radix fuel n) (some 0) ≡ some n
  unfolding digits_value
  digits_lem zero n h fits = ap some (omega (arith, h))
  digits_lem (suc fuel) n h fits = elim (Bool-cases (ltb n radix)) [
    | inl e ↦
        let small : n < radix = ground (arith, e) in
        let z : 0 * radix + n ≡ n = omega (arith, zero-mul radix) in
        rw e (add_digit_lem radix n 0 small r.sixteen (omega (arith, z, fits)) ∙ ap some z)
    | inr e ↦
        let q = n / radix in
        let whole = r.whole n in
        let small : q ≤ u64_max = omega (arith, div-le_self n radix, fits) in
        rw
          (
            e,
            digits_value-append radix (digits radix fuel q) (digit_of (n % radix) ∷ []) (some 0),
            digits_lem fuel q (r.half n (double fuel) h) small,
          )
          (add_digit_lem radix (n % radix) q (r.digit n) r.sixteen (omega (arith, whole, fits))
            ∙ ap some whole)
  ]

-- A byte of a numeral is neither a sign nor the letter of the hexadecimal prefix.
abbrev Plain : ℕ → Type 0
Plain c = (0x30 ≤ c) × (c ≢ 0x78) × (c ≢ 0x58)

abbrev AllPlain : Bytes → Type 0
AllPlain [] = Unit {0}
AllPlain (c ∷ text) = Plain c × AllPlain text

abbrev IsNumeral : Bytes → Type 0
IsNumeral [] = ⊥
IsNumeral (c ∷ text) = Plain c × AllPlain text

digit_of-Plain : (d : ℕ) → d < 16 → Plain (digit_of d)
digit_of-Plain d h = elim (Bool-cases (ltb d 10)) [
  | inl e ↦ rw e (omega arith, (λ q. ground (arith, q, e)), (λ q. ground (arith, q, e)))
  | inr e ↦ rw e (omega arith, (λ q. omega (arith, q, h)), (λ q. ground (arith, q, e)))
]

AllPlain-append : (xs : Bytes) (c : ℕ) → AllPlain xs → Plain c → AllPlain (xs ++ (c ∷ []))
AllPlain-append [] c a p = (p, tt)
AllPlain-append (x ∷ xs) c (a, rest) p = (a, AllPlain-append xs c rest p)

IsNumeral-append : (xs : Bytes) (c : ℕ) → AllPlain xs → Plain c → IsNumeral (xs ++ (c ∷ []))
IsNumeral-append [] c a p = (p, tt)
IsNumeral-append (x ∷ xs) c (a, rest) p = (a, AllPlain-append xs c rest p)

digits-AllPlain : (radix : ℕ) (r : IsRadix radix) (fuel n : ℕ) → AllPlain (digits radix fuel n)
digits-AllPlain radix r zero n = tt
digits-AllPlain radix r (suc fuel) n = elim (Bool-cases (ltb n radix)) [
  | inl e ↦ rw e (digit_of-Plain n (ground (arith, e, r.sixteen)), tt)
  | inr e ↦ rw e (
      AllPlain-append (digits radix fuel (n / radix)) (digit_of (n % radix))
        (digits-AllPlain radix r fuel (n / radix))
        (digit_of-Plain (n % radix) (omega (arith, r.digit n, r.sixteen))))
]

digits-IsNumeral :
    (radix : ℕ) (r : IsRadix radix) (fuel n : ℕ) → IsNumeral (digits radix (suc fuel) n)
digits-IsNumeral radix r fuel n = elim (Bool-cases (ltb n radix)) [
  | inl e ↦ rw e (digit_of-Plain n (ground (arith, e, r.sixteen)), tt)
  | inr e ↦ rw e (
      IsNumeral-append (digits radix fuel (n / radix)) (digit_of (n % radix))
        (digits-AllPlain radix r fuel (n / radix))
        (digit_of-Plain (n % radix) (omega (arith, r.digit n, r.sixteen))))
]

from_numeral :
    (text : Bytes) (radix : ℕ)
    → IsNumeral text
    → from_str_radix text radix ≡ digits_value radix text (some 0)
unfolding from_str_radix
from_numeral [] radix i = absurd i
from_numeral (c ∷ text) radix ((p, a, b), rest) =
    let e : (c == 0x2b) ≡ false = ground (arith, p) in rw e refl

no_prefix :
    (x : ℕ) (text : Bytes)
    → (x ≡ 0x78) ⊎ (x ≡ 0x58)
    → AllPlain text
    → starts_with (0x30 ∷ x ∷ []) text ≡ false
no_prefix x [] h a = refl
no_prefix x (c ∷ []) h (p, a) = elim (Bool-cases (0x30 == c)) [
  | inl e ↦ rw e refl
  | inr e ↦ rw e refl
]
no_prefix x (c ∷ d ∷ text) h (p, ((q, n, m), a)) =
    let e : (x == d) ≡ false = elim h [
      | inl e ↦ ground (arith, e, n)
      | inr e ↦ ground (arith, e, m)
    ] in
    elim (Bool-cases (0x30 == c)) [ inl f ↦ rw (f, e) refl | inr f ↦ rw f refl ]

numeral-AllPlain : (text : Bytes) → IsNumeral text → AllPlain text
numeral-AllPlain [] i = tt
numeral-AllPlain (c ∷ text) i = i

-- Every number of 64 bits that the monitor prints, in decimal or in hexadecimal with its prefix, is
-- read back by `parse_u64` as it was.
pub parse_u64_lem :
    (n : ℕ) → n ≤ u64_max → (parse_u64 (decimal n) ≡ some n) × (parse_u64 (hexadecimal n) ≡ some n)
unfolding parse_u64
parse_u64_lem n h =
    let numeral = digits-IsNumeral 10 ten-IsRadix 63 n in
    let plain = numeral-AllPlain (decimal n) numeral in
    let a = no_prefix 0x78 (decimal n) (inl refl) plain in
    let b = no_prefix 0x58 (decimal n) (inr refl) plain in
    (
      rw (a, b)
          (from_numeral (decimal n) 10 numeral
            ∙ digits_lem 10 ten-IsRadix 64 n (omega (arith, h)) h),
      from_numeral (digits 16 64 n) 16 (digits-IsNumeral 16 hex-IsRadix 63 n)
          ∙ digits_lem 16 hex-IsRadix 64 n (omega (arith, h)) h,
    )
