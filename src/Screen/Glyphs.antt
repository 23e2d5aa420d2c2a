-- ===== src/Screen/Glyphs.antt =====
-- kernel/src/framebuffer.rs: `draw_glyph` sets the pixels of its cell as the glyph says, and no others.
use jing_os.Base.{
  ℕ, zero, suc, ◌+◌, ◌-◌, ◌≤◌, ◌<◌, ◌≡◌, ◌≢◌, refl, ◌∙◌, ◌⊎◌, inl, inr, List, [], ◌∷◌, length,
  get_or, ◌==◌, arith, Bool-cases,
}
use jing_os.Screen.Writer.{FrameBufferInfo, color_of, set_pixel, bit_of, draw_row, draw_glyph}
use jing_os.Screen.Drawing.{
  IsScreen, pixel, Kept, Kept-refl, Kept-trans, set_pixel-Kept, set_pixel_self, set_pixel_other,
}

module _ (info : FrameBufferInfo) (k len : ℕ) (screen : IsScreen info len k) where
  draw_row-Kept :
      (ox y bits gx n lines : ℕ) (b : List ℕ)
      → length b ≡ len
      → ox + gx + n ≤ info.width
      → y < info.height
      → y < lines
      → Kept info lines b (draw_row info ox y bits gx n b)
  unfolding draw_row
  draw_row-Kept ox y bits gx zero lines b e h h' l = Kept-refl info lines b
  draw_row-Kept ox y bits gx (suc n) lines b e h h' l =
      let b1 = set_pixel info b (ox + gx) y (bit_of bits gx) in
      let first =
        set_pixel-Kept info k len screen b (ox + gx) y lines (bit_of bits gx) e (omega (arith, h))
          h' l in
      Kept-trans info lines b b1 (draw_row info ox y bits (suc gx) n b1) first
        (draw_row-Kept ox y bits (suc gx) n lines b1 (first.size ∙ e) (omega (arith, h)) h' l)

  draw_row_other :
      (ox y bits gx n x' y' : ℕ) (b : List ℕ)
      → length b ≡ len
      → ox + gx + n ≤ info.width
      → y < info.height
      → x' < info.width
      → (y' ≢ y) ⊎ ((x' < ox + gx) ⊎ (ox + gx + n ≤ x'))
      → pixel info k (draw_row info ox y bits gx n b) x' y' ≡ pixel info k b x' y'
  unfolding draw_row
  draw_row_other ox y bits gx zero x' y' b e h h' l o = refl
  draw_row_other ox y bits gx (suc n) x' y' b e h h' l o =
      let b1 = set_pixel info b (ox + gx) y (bit_of bits gx) in
      let first =
        set_pixel-Kept info k len screen b (ox + gx) y info.height (bit_of bits gx) e
          (omega (arith, h)) h' h' in
      draw_row_other ox y bits (suc gx) n x' y' b1 (first.size ∙ e) (omega (arith, h)) h' l
        (further o)
      ∙ set_pixel_other info k len screen b (ox + gx) y x' y' (bit_of bits gx) e (omega (arith, h))
          h' l (beside o)
    where
      further :
          (y' ≢ y) ⊎ ((x' < ox + gx) ⊎ (ox + gx + suc n ≤ x'))
          → (y' ≢ y) ⊎ ((x' < ox + suc gx) ⊎ (ox + suc gx + n ≤ x'))
      further (inl q) = inl q
      further (inr (inl q)) = inr (inl (omega (arith, q)))
      further (inr (inr q)) = inr (inr (omega (arith, q)))

      beside : (y' ≢ y) ⊎ ((x' < ox + gx) ⊎ (ox + gx + suc n ≤ x')) → (x' ≢ ox + gx) ⊎ (y' ≢ y)
      beside (inl q) = inr q
      beside (inr (inl q)) = inl (λ r. omega (arith, q, r))
      beside (inr (inr q)) = inl (λ r. omega (arith, q, r))

  draw_row_inside :
      (ox y bits gx n x' : ℕ) (b : List ℕ)
      → length b ≡ len
      → ox + gx + n ≤ info.width
      → y < info.height
      → ox + gx ≤ x'
      → x' < ox + gx + n
      → pixel info k (draw_row info ox y bits gx n b) x' y ≡ color_of (bit_of bits (x' - ox))
  unfolding draw_row
  draw_row_inside ox y bits gx zero x' b e h h' l u = absurd (omega (arith, l, u))
  draw_row_inside ox y bits gx (suc n) x' b e h h' l u =
      let b1 = set_pixel info b (ox + gx) y (bit_of bits gx) in
      let first =
        set_pixel-Kept info k len screen b (ox + gx) y info.height (bit_of bits gx) e
          (omega (arith, h)) h' h' in
      let small : ox + gx < info.width = omega (arith, h) in
      elim (Bool-cases (x' == ox + gx)) [
        | inl q ↦
            let same : x' ≡ ox + gx = ground (arith, q) in
            let bit : x' - ox ≡ gx = omega (arith, same) in
            draw_row_other ox y bits (suc gx) n x' y b1 (first.size ∙ e) (omega (arith, h)) h'
              (omega (arith, small, same)) (inr (inl (omega (arith, same))))
            ∙ rw (bit, same)
                (set_pixel_self info k len screen b (ox + gx) y (bit_of bits gx) e small h')
        | inr q ↦
            let ne : x' ≢ ox + gx = ground (arith, q) in
            draw_row_inside ox y bits (suc gx) n x' b1 (first.size ∙ e) (omega (arith, h)) h'
              (omega (arith, l, ne)) (omega (arith, u))
      ]

  pub draw_glyph-Kept :
      (ox y lines : ℕ) (glyph b : List ℕ)
      → length b ≡ len
      → ox + 8 ≤ info.width
      → y + length glyph ≤ info.height
      → y + length glyph ≤ lines
      → Kept info lines b (draw_glyph info ox y glyph b)
  unfolding draw_glyph
  draw_glyph-Kept ox y lines [] b e h h' l = Kept-refl info lines b
  draw_glyph-Kept ox y lines (bits ∷ rest) b e h h' l =
      let b1 = draw_row info ox y bits 0 8 b in
      let first =
        draw_row-Kept ox y bits 0 8 lines b e (omega (arith, h)) (omega (arith, h'))
          (omega (arith, l)) in
      Kept-trans info lines b b1 (draw_glyph info ox (suc y) rest b1) first (
        draw_glyph-Kept ox (suc y) lines rest b1 (first.size ∙ e) h (omega (arith, h'))
          (omega (arith, l)))

  pub draw_glyph_other :
      (ox y x' y' : ℕ) (glyph b : List ℕ)
      → length b ≡ len
      → ox + 8 ≤ info.width
      → y + length glyph ≤ info.height
      → x' < info.width
      → ((y' < y) ⊎ (y + length glyph ≤ y')) ⊎ ((x' < ox) ⊎ (ox + 8 ≤ x'))
      → pixel info k (draw_glyph info ox y glyph b) x' y' ≡ pixel info k b x' y'
  unfolding draw_glyph
  draw_glyph_other ox y x' y' [] b e h h' l o = refl
  draw_glyph_other ox y x' y' (bits ∷ rest) b e h h' l o =
      let b1 = draw_row info ox y bits 0 8 b in
      let first =
        draw_row-Kept ox y bits 0 8 info.height b e (omega (arith, h)) (omega (arith, h'))
          (omega (arith, h')) in
      draw_glyph_other ox (suc y) x' y' rest b1 (first.size ∙ e) h (omega (arith, h')) l (further o)
      ∙ draw_row_other ox y bits 0 8 x' y' b e (omega (arith, h)) (omega (arith, h')) l (beside o)
    where
      further :
          ((y' < y) ⊎ (y + suc (length rest) ≤ y')) ⊎ ((x' < ox) ⊎ (ox + 8 ≤ x'))
          → ((y' < suc y) ⊎ (suc y + length rest ≤ y')) ⊎ ((x' < ox) ⊎ (ox + 8 ≤ x'))
      further (inl (inl q)) = inl (inl (omega (arith, q)))
      further (inl (inr q)) = inl (inr (omega (arith, q)))
      further (inr q) = inr q

      beside :
          ((y' < y) ⊎ (y + suc (length rest) ≤ y')) ⊎ ((x' < ox) ⊎ (ox + 8 ≤ x'))
          → (y' ≢ y) ⊎ ((x' < ox + 0) ⊎ (ox + 0 + 8 ≤ x'))
      beside (inl (inl q)) = inl (λ r. omega (arith, q, r))
      beside (inl (inr q)) = inl (λ r. omega (arith, q, r))
      beside (inr (inl q)) = inr (inl (omega (arith, q)))
      beside (inr (inr q)) = inr (inr (omega (arith, q)))

  pub draw_glyph_inside :
      (ox y x' y' : ℕ) (glyph b : List ℕ)
      → length b ≡ len
      → ox + 8 ≤ info.width
      → y + length glyph ≤ info.height
      → ox ≤ x'
      → x' < ox + 8
      → y ≤ y'
      → y' < y + length glyph
      → pixel info k (draw_glyph info ox y glyph b) x' y'
        ≡ color_of (bit_of (get_or glyph (y' - y) 0) (x' - ox))
  unfolding draw_glyph
  draw_glyph_inside ox y x' y' [] b e h h' l u m v = absurd (omega (arith, m, v))
  draw_glyph_inside ox y x' y' (bits ∷ rest) b e h h' l u m v =
      let b1 = draw_row info ox y bits 0 8 b in
      let first =
        draw_row-Kept ox y bits 0 8 info.height b e (omega (arith, h)) (omega (arith, h'))
          (omega (arith, h')) in
      elim (Bool-cases (y' == y)) [
        | inl q ↦
            let same : y' ≡ y = ground (arith, q) in
            let none_left : y' - y ≡ 0 = omega (arith, same) in
            draw_glyph_other ox (suc y) x' y' rest b1 (first.size ∙ e) h (omega (arith, h'))
              (omega (arith, u, h)) (inl (inl (omega (arith, same))))
            ∙ rw (none_left, same)
                (draw_row_inside ox y bits 0 8 x' b e (omega (arith, h)) (omega (arith, h'))
                  (omega (arith, l)) (omega (arith, u)))
        | inr q ↦
            let ne : y' ≢ y = ground (arith, q) in
            let one_less : y' - y ≡ suc (y' - suc y) = omega (arith, ne, m) in
            rw one_less (
              draw_glyph_inside ox (suc y) x' y' rest b1 (first.size ∙ e) h (omega (arith, h')) l u
                (omega (arith, m, ne)) (omega (arith, v)))
      ]
