-- ===== src/Screen/Scroll.antt =====
-- kernel/src/framebuffer.rs: `scroll_one_row` moves every byte, and so every pixel, up by a row of characters.
use jing_os.Base.{
  ℕ, zero, suc, ◌+◌, ◌*◌, ◌≤◌, ◌<◌, ◌≡◌, refl, sym, ◌∙◌, false, List, [], ◌∷◌, ◌++◌, length,
  length-append, length-drop, length-replicate, get_or, drop, replicate, leb, ◌==◌, arith,
  Bool-cases, inl, inr,
}
use native.Mathlib.Nat.{mul_assoc, add-mul}
use jing_os.Screen.Writer.{FrameBufferInfo, scroll_one_row}
use jing_os.Screen.Drawing.{pixel}

get_or_beyond : (xs : List ℕ) (i : ℕ) → length xs ≤ i → get_or xs i 0 ≡ 0
get_or_beyond [] i h = refl
get_or_beyond (x ∷ xs) zero h = absurd (omega (arith, h))
get_or_beyond (x ∷ xs) (suc i) h = get_or_beyond xs i (omega (arith, h))

pub get_or-replicate : (n i : ℕ) → get_or {A = ℕ} (replicate n 0) i 0 ≡ 0
get_or-replicate zero i = refl
get_or-replicate (suc n) zero = refl
get_or-replicate (suc n) (suc i) = get_or-replicate n i

get_or-drop : (n : ℕ) (xs : List ℕ) (i : ℕ) → get_or (drop n xs) i 0 ≡ get_or xs (i + n) 0
get_or-drop zero xs i = let e : i + 0 ≡ i = omega arith in rw e refl
get_or-drop (suc n) [] i = refl
get_or-drop (suc n) (x ∷ xs) i =
    let e : i + suc n ≡ suc (i + n) = omega arith in rw e (get_or-drop n xs i)

-- Zeros behind a list are what a read past its end gives.
get_or-append_zeros : (xs : List ℕ) (n i : ℕ) → get_or (xs ++ replicate n 0) i 0 ≡ get_or xs i 0
get_or-append_zeros [] n i = get_or-replicate n i
get_or-append_zeros (x ∷ xs) n zero = refl
get_or-append_zeros (x ∷ xs) n (suc i) = get_or-append_zeros xs n i

module _ (info : FrameBufferInfo) (b : List ℕ) (h : 0 < info.stride * info.bytes_per_pixel) where
  pub get_or-scroll_one_row :
      (j : ℕ)
      → get_or (scroll_one_row info b) j 0 ≡ get_or b (j + info.stride * info.bytes_per_pixel * 8) 0
  unfolding scroll_one_row
  get_or-scroll_one_row j =
      let n = info.stride * info.bytes_per_pixel * 8 in
      let e : (n == 0) ≡ false = ground (arith, h) in
      elim (Bool-cases (leb (length b) n)) [
        | inl q ↦
            rw (e, q)
              (get_or-replicate (length b) j ∙ sym (get_or_beyond b (j + n) (ground (arith, q))))
        | inr q ↦ rw (e, q) (get_or-append_zeros (drop n b) n j ∙ get_or-drop n b j)
      ]

  pub length-scroll_one_row : length (scroll_one_row info b) ≡ length b
  unfolding scroll_one_row
  length-scroll_one_row =
      let n = info.stride * info.bytes_per_pixel * 8 in
      let e : (n == 0) ≡ false = ground (arith, h) in
      elim (Bool-cases (leb (length b) n)) [
        | inl q ↦ rw (e, q) (length-replicate (length b) 0)
        | inr q ↦
            let small : n ≤ length b = ground (arith, q) in
            rw (e, q)
              (omega (
                arith,
                length-append (drop n b) (replicate n 0),
                length-drop n b,
                length-replicate {A = ℕ} n 0,
                small,
              ))
      ]

  pub pixel-scroll_one_row :
      (k x y : ℕ) → pixel info k (scroll_one_row info b) x y ≡ pixel info k b x (y + 8)
  pixel-scroll_one_row k x y =
      let s = info.stride in
      let bpp = info.bytes_per_pixel in
      let lines : (y + 8) * s ≡ y * s + 8 * s = add-mul y 8 s in
      let bytes : (y * s + x + 8 * s) * bpp ≡ (y * s + x) * bpp + 8 * s * bpp =
        add-mul (y * s + x) (8 * s) bpp in
      let e : (y + 8) * s + x ≡ y * s + x + 8 * s = omega (arith, lines) in
      let e' : (y * s + x) * bpp + k + s * bpp * 8 ≡ (y * s + x + 8 * s) * bpp + k =
        omega (arith, bytes, mul_assoc 8 s bpp) in
      get_or-scroll_one_row ((y * s + x) * bpp + k) ∙ rw (e, e') refl
