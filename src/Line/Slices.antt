-- ===== src/Line/Slices.antt =====
-- Pieces of a text read byte by byte: a list is determined by its length and its bytes.
use jing_os.Base.{
  ℕ, zero, suc, ◌+◌, ◌-◌, ◌≤◌, ◌<◌, ◌≡◌, refl, ap, [], ◌∷◌, ◌++◌, ltb, ◌==◌, ◌&&◌, if◌then◌else◌,
  length, get_or, set, take, drop, length-take, length-drop, length-append, Bytes, arith,
}

pub bytes_ext :
    (xs ys : Bytes)
    → length xs ≡ length ys
    → ((i : ℕ) → i < length xs → get_or xs i 0 ≡ get_or ys i 0)
    → xs ≡ ys
bytes_ext [] [] e at = refl
bytes_ext [] (y ∷ ys) e at = absurd (omega arith)
bytes_ext (x ∷ xs) [] e at = absurd (omega arith)
bytes_ext (x ∷ xs) (y ∷ ys) e at =
    let first : x ≡ y = at 0 (omega arith) in
    rw (first, bytes_ext xs ys (omega arith) (λ i h. at (suc i) (omega arith))) refl

pub get_or-take : (n : ℕ) (xs : Bytes) (i : ℕ) → i < n → get_or (take n xs) i 0 ≡ get_or xs i 0
get_or-take zero xs i h = absurd (omega arith)
get_or-take (suc n) [] i h = refl
get_or-take (suc n) (x ∷ xs) zero h = refl
get_or-take (suc n) (x ∷ xs) (suc i) h = get_or-take n xs i (omega arith)

pub get_or-drop : (n : ℕ) (xs : Bytes) (i : ℕ) → get_or (drop n xs) i 0 ≡ get_or xs (n + i) 0
get_or-drop zero xs i = ap (λ j. get_or xs j 0) (omega arith)
get_or-drop (suc n) [] i = refl
get_or-drop (suc n) (x ∷ xs) i =
    let e : suc n + i ≡ suc (n + i) = omega arith in rw e (get_or-drop n xs i)

pub get_or-append :
    (xs ys : Bytes) (i : ℕ)
    → get_or (xs ++ ys) i 0
      ≡ (if ltb i (length xs) then get_or xs i 0 else get_or ys (i - length xs) 0)
get_or-append [] ys i = ground arith
get_or-append (x ∷ xs) ys zero = ground arith
get_or-append (x ∷ xs) ys (suc i) = ground (arith, get_or-append xs ys i)

pub get_or-cons :
    (x : ℕ) (xs : Bytes) (i : ℕ) → get_or (x ∷ xs) i 0 ≡ (if i == 0 then x else get_or xs (i - 1) 0)
get_or-cons x xs zero = ground arith
get_or-cons x xs (suc i) = ground arith

pub get_or-set :
    (xs : Bytes) (q v i : ℕ)
    → get_or (set xs q v) i 0 ≡ (if i == q && ltb q (length xs) then v else get_or xs i 0)
get_or-set [] q v i = ground arith
get_or-set (x ∷ xs) zero v zero = ground arith
get_or-set (x ∷ xs) zero v (suc i) = ground arith
get_or-set (x ∷ xs) (suc q) v zero = ground arith
get_or-set (x ∷ xs) (suc q) v (suc i) = ground (arith, get_or-set xs q v i)

-- A text with the piece from `start` to `end` replaced.
abbrev pub splice : ℕ → ℕ → Bytes → Bytes → Bytes
splice start end ins text = take start text ++ (ins ++ drop end text)

-- The byte at a position of the replaced text.
abbrev pub spliced_at : ℕ → ℕ → Bytes → Bytes → ℕ → ℕ
spliced_at start end ins text i =
    if ltb i start
    then get_or text i 0
    else (if ltb i (start + length ins)
        then get_or ins (i - start) 0
        else get_or text (end + (i - start - length ins)) 0)

pub length-splice :
    (start end : ℕ) (ins text : Bytes)
    → start ≤ end
    → end ≤ length text
    → length (splice start end ins text) ≡ (length text - (end - start)) + length ins
length-splice start end ins text h h' = omega (
  arith,
  length-append (take start text) (ins ++ drop end text),
  length-append ins (drop end text),
  length-take start text,
  length-drop end text,
)

pub get_or-splice :
    (start end : ℕ) (ins text : Bytes) (i : ℕ)
    → start ≤ length text
    → get_or (splice start end ins text) i 0 ≡ spliced_at start end ins text i
get_or-splice start end ins text i h =
    let l : length (take start text) ≡ start = omega (arith, length-take start text) in
    rw
      (
        get_or-append (take start text) (ins ++ drop end text) i,
        l,
        get_or-append ins (drop end text) (i - start),
        get_or-drop end text (i - start - length ins),
      )
      (ground (arith, get_or-take start text i))

-- The first `n` bytes of one buffer are a replaced piece of those of another, if they are byte by
-- byte.
pub take-splice :
    (b b' : Bytes) (n n' start end : ℕ) (ins : Bytes)
    → n ≤ length b
    → n' ≤ length b'
    → start ≤ end
    → end ≤ n
    → n' ≡ (n - (end - start)) + length ins
    → ((i : ℕ) → i < n' → get_or b' i 0 ≡ spliced_at start end ins b i)
    → take n' b' ≡ splice start end ins (take n b)
take-splice b b' n n' start end ins hn hn' h1 h2 size at =
    let size' = length-take n b in
    let size'' = length-take n' b' in
    bytes_ext (take n' b') (splice start end ins (take n b))
      (omega
        (arith, size', size'', length-splice start end ins (take n b) h1 (omega (arith, size'))))
      (λ i h.
        let h' : i < n' = omega (arith, size'') in
        rw
          (
            get_or-take n' b' i h',
            at i h',
            get_or-splice start end ins (take n b) i (omega (arith, size')),
          )
          (ground (arith, get_or-take n b i, get_or-take n b (end + (i - start - length ins)))))
