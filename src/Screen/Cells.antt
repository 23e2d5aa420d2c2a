-- ===== src/Screen/Cells.antt =====
-- kernel/src/framebuffer.rs: a buffer that shows a grid of glyphs, after a scroll and after a glyph is drawn.
use jing_os.Base.{
  ℕ, suc, ◌+◌, ◌-◌, ◌*◌, ◌/◌, ◌%◌, ◌^◌, ◌≤◌, ◌<◌, ◌≡◌, refl, sym, ◌∙◌, ◌⊎◌, inl, inr, false, ◌&&◌,
  List, length, get_or, ltb, leb, ◌==◌, arith, Bool-cases,
}
use native.Mathlib.Nat.{mul-pos, zero-div, mul-le-mul_right}
use jing_os.Screen.Writer.{
  FrameBufferInfo, max_columns, max_rows, color_of, bit_of, draw_glyph, scroll_one_row, blank,
}
use jing_os.Screen.Drawing.{IsScreen, channel_lem, pixel}
use jing_os.Screen.Glyphs.{draw_glyph-Kept, draw_glyph_other, draw_glyph_inside}
use jing_os.Screen.Scroll.{
  get_or-replicate, get_or-scroll_one_row, length-scroll_one_row, pixel-scroll_one_row,
}
use jing_os.Screen.Spec.{put, scrolled}

-- The colour of a pixel of a grid of glyphs.
abbrev pub shown : (ℕ → ℕ → List ℕ) → ℕ → ℕ → ℕ
shown cells x y = color_of (bit_of (get_or (cells (x / 8) (y / 8)) (y % 8) 0) (x % 8))

-- A buffer of `len` bytes that shows a grid; behind the rows of characters it is blank.
pub record Shows (info : FrameBufferInfo) (len k : ℕ) (b : List ℕ) (cells : ℕ → ℕ → List ℕ)
    : Type 0 where
  pub size : length b ≡ len
  pub pixels :
      (x y : ℕ)
      → x < max_columns info * 8
      → y < max_rows info * 8
      → pixel info k b x y ≡ shown cells x y
  pub rest : (j : ℕ) → max_rows info * 8 * info.stride * info.bytes_per_pixel ≤ j → get_or b j 0 ≡ 0

pub blank_shown : (x y : ℕ) → color_of (bit_of (get_or blank y 0) x) ≡ 0
blank_shown x y =
    let e : get_or blank y 0 ≡ 0 = get_or-replicate 8 y in rw (e, zero-div (2 ^ x)) refl

module _ (info : FrameBufferInfo) (len k : ℕ) (screen : IsScreen info len k) where
  some_bytes : 0 < info.stride * info.bytes_per_pixel
  some_bytes =
      mul-pos {m = info.stride} {n = info.bytes_per_pixel}
        (omega (arith, screen.wide, screen.columns))
        (omega (arith, channel_lem info k screen.channel))

  -- The index of a pixel in or behind a line.
  line_lem :
      (x y lines : ℕ)
      → lines ≤ y
      → lines * info.stride * info.bytes_per_pixel
        ≤ (y * info.stride + x) * info.bytes_per_pixel + k
  line_lem x y lines h =
      let first = mul-le-mul_right {m = lines} {n = y} info.stride h in
      let second =
        mul-le-mul_right {m = lines * info.stride} {n = y * info.stride + x} info.bytes_per_pixel
          (omega (arith, first)) in
      omega (arith, second)

  pub scroll-Shows :
      (b : List ℕ) (cells : ℕ → ℕ → List ℕ)
      → Shows info len k b cells
      → Shows info len k (scroll_one_row info b) (scrolled (max_columns info) (max_rows info) cells)
  scroll-Shows b cells shows = record {
    size = length-scroll_one_row info b some_bytes ∙ shows.size;
    pixels = λ x y hx hy.
        pixel-scroll_one_row info b some_bytes k x y
        ∙ elim (Bool-cases (ltb (suc (y / 8)) (max_rows info))) [
          | inl q ↦
              let e : (y + 8) / 8 ≡ suc (y / 8) = omega arith in
              let e' : (y + 8) % 8 ≡ y % 8 = omega arith in
              shows.pixels x (y + 8) hx (ground (arith, q)) ∙ rw (q, e, e') refl
          | inr q ↦ rw q (
              shows.rest (((y + 8) * info.stride + x) * info.bytes_per_pixel + k)
                (line_lem x (y + 8) (max_rows info * 8) (ground (arith, q)))
              ∙ sym (blank_shown (x % 8) (y % 8)))
        ];
    rest = λ j h.
        get_or-scroll_one_row info b some_bytes j
        ∙ shows.rest (j + info.stride * info.bytes_per_pixel * 8) (omega (arith, h));
  }

  pub draw-Shows :
      (b : List ℕ) (cells : ℕ → ℕ → List ℕ) (c r : ℕ) (glyph : List ℕ)
      → Shows info len k b cells
      → c < max_columns info
      → r < max_rows info
      → length glyph ≡ 8
      → Shows info len k (draw_glyph info (c * 8) (r * 8) glyph b) (put c r glyph cells)
  draw-Shows b cells c r glyph shows hc hr hg =
      let kept =
        draw_glyph-Kept info k len screen (c * 8) (r * 8) (max_rows info * 8) glyph b shows.size
          (omega (arith, hc)) (omega (arith, hr, hg)) (omega (arith, hr, hg)) in
      record {
        size = kept.size ∙ shows.size;
        pixels = λ x y hx hy. elim (Bool-cases (x / 8 == c && y / 8 == r)) [
          | inl q ↦
              let hx' : x / 8 ≡ c = ground (arith, q) in
              let hy' : y / 8 ≡ r = ground (arith, q) in
              let ex : x - c * 8 ≡ x % 8 = omega (arith, hx') in
              let ey : y - r * 8 ≡ y % 8 = omega (arith, hy') in
              draw_glyph_inside info k len screen (c * 8) (r * 8) x y glyph b shows.size
                (omega (arith, hc)) (omega (arith, hr, hg)) (omega (arith, hx'))
                (omega (arith, hx')) (omega (arith, hy')) (omega (arith, hy', hg))
              ∙ rw (q, ex, ey) refl
          | inr q ↦
              draw_glyph_other info k len screen (c * 8) (r * 8) x y glyph b shows.size
                (omega (arith, hc)) (omega (arith, hr, hg)) (omega (arith, hx)) (beside x y q)
              ∙ shows.pixels x y hx hy
              ∙ rw q refl
        ];
        rest = λ j h. kept.behind j h ∙ shows.rest j h;
      }
    where
      beside :
          (x y : ℕ)
          → (x / 8 == c && y / 8 == r) ≡ false
          → ((y < r * 8) ⊎ (r * 8 + length glyph ≤ y)) ⊎ ((x < c * 8) ⊎ (c * 8 + 8 ≤ x))
      beside x y q = elim (Bool-cases (ltb y (r * 8))) [
        | inl a ↦ inl (inl (ground (arith, a)))
        | inr a ↦ elim (Bool-cases (leb (r * 8 + 8) y)) [
          | inl d ↦ inl (inr (ground (arith, d, hg)))
          | inr d ↦ elim (Bool-cases (ltb x (c * 8))) [
            | inl e ↦ inr (inl (ground (arith, e)))
            | inr e ↦ inr (inr (ground (arith, q, a, d, e)))
          ]
        ]
      ]
