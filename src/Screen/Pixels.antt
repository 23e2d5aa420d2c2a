-- ===== src/Screen/Pixels.antt =====
-- kernel/src/framebuffer.rs: what the colouring of a pixel does to the bytes of the buffer.
use jing_os.Base.{
  ℕ, zero, suc, ◌+◌, ◌≤◌, ◌<◌, ◌≡◌, ◌≢◌, refl, ◌∙◌, ◌⊎◌, inl, inr, Bool, true, false, List, length,
  length-set, get_or, set, get_or-set_self, get_or-set_ne, ltb, ◌==◌, if◌then◌else◌, arith,
  Bool-cases,
}
use jing_os.Screen.Writer.{PixelFormat, rgb, bgr, u8, other, set_if, set_colors, color_pixel}

-- A write inside a list, by the index that is read afterwards.
get_or-set :
    (b : List ℕ) (i j v : ℕ)
    → i < length b
    → get_or (set b i v) j 0 ≡ (if j == i then v else get_or b j 0)
get_or-set b i j v h = elim (Bool-cases (j == i)) [
  | inl e ↦
      let e' : i ≡ j = ground (arith, e) in
      rw (e, e') (get_or-set_self b j v 0 (omega (arith, h, e')))
  | inr e ↦ rw e (get_or-set_ne b v 0 (ground (arith, e)))
]

module _ (offset bpp color : ℕ) where
  set_if_other :
      (c : Bool) (i v j : ℕ) (b : List ℕ) → i ≢ j → get_or (set_if c i v b) j 0 ≡ get_or b j 0
  set_if_other true i v j b ne = get_or-set_ne b v 0 ne
  set_if_other false i v j b ne = refl

  length-set_if : (c : Bool) (i v : ℕ) (b : List ℕ) → length (set_if c i v b) ≡ length b
  length-set_if true i v b = length-set b i v
  length-set_if false i v b = refl

  length-set_colors : (b : List ℕ) → length (set_colors bpp color offset b) ≡ length b
  length-set_colors b =
      let b1 = set b offset color in
      let b2 = set_if (ltb 1 bpp) (offset + 1) color b1 in
      let b3 = set_if (ltb 2 bpp) (offset + 2) color b2 in
      length-set_if (ltb 3 bpp) (offset + 3) 0 b3
      ∙ length-set_if (ltb 2 bpp) (offset + 2) color b2
      ∙ length-set_if (ltb 1 bpp) (offset + 1) color b1
      ∙ length-set b offset color

  set_colors_other :
      (b : List ℕ) (j : ℕ)
      → 0 < bpp
      → (j < offset) ⊎ (offset + bpp ≤ j)
      → get_or (set_colors bpp color offset b) j 0 ≡ get_or b j 0
  set_colors_other b j p h =
      let b1 = set b offset color in
      let b2 = set_if (ltb 1 bpp) (offset + 1) color b1 in
      let b3 = set_if (ltb 2 bpp) (offset + 2) color b2 in
      let first : get_or b1 j 0 ≡ get_or b j 0 = get_or-set_ne b color 0 (first_apart j h) in
      beyond 3 0 b3 j h ∙ beyond 2 color b2 j h ∙ beyond 1 color b1 j h ∙ first
    where
      first_apart : (j : ℕ) → (j < offset) ⊎ (offset + bpp ≤ j) → offset ≢ j
      first_apart j (inl h) = λ e. omega (arith, e)
      first_apart j (inr h) = λ e. omega (arith, e, p)

      apart : (j i : ℕ) → i < bpp → (j < offset) ⊎ (offset + bpp ≤ j) → offset + i ≢ j
      apart j i p (inl h) = λ e. omega (arith, e)
      apart j i p (inr h) = λ e. omega (arith, e)

      beyond :
          (i v : ℕ) (b : List ℕ) (j : ℕ)
          → (j < offset) ⊎ (offset + bpp ≤ j)
          → get_or (set_if (ltb i bpp) (offset + i) v b) j 0 ≡ get_or b j 0
      beyond i v b j h = elim (Bool-cases (ltb i bpp)) [
        | inl e ↦ rw e (get_or-set_ne b v 0 (apart j i (ground (arith, e)) h))
        | inr e ↦ rw e refl
      ]

  hit :
      (i v : ℕ) (b : List ℕ)
      → i < bpp
      → offset + bpp ≤ length b
      → get_or (set_if (ltb i bpp) (offset + i) v b) (offset + i) 0 ≡ v
  hit i v b c h =
      let e : ltb i bpp ≡ true = ground (arith, c) in
      rw e (get_or-set_self b (offset + i) v 0 (omega (arith, c, h)))

  set_colors_channel :
      (k : ℕ) (b : List ℕ)
      → k < 3
      → k < bpp
      → offset + bpp ≤ length b
      → get_or (set_colors bpp color offset b) (offset + k) 0 ≡ color
  set_colors_channel zero b c d h =
      let b1 = set b offset color in
      let b2 = set_if (ltb 1 bpp) (offset + 1) color b1 in
      let b3 = set_if (ltb 2 bpp) (offset + 2) color b2 in
      let e : offset + 0 ≡ offset = omega arith in
      rw e (
        set_if_other (ltb 3 bpp) (offset + 3) 0 offset b3 (λ q. omega (arith, q))
        ∙ set_if_other (ltb 2 bpp) (offset + 2) color offset b2 (λ q. omega (arith, q))
        ∙ set_if_other (ltb 1 bpp) (offset + 1) color offset b1 (λ q. omega (arith, q))
        ∙ get_or-set_self b offset color 0 (omega (arith, d, h)))
  set_colors_channel (suc zero) b c d h =
      let b1 = set b offset color in
      let b2 = set_if (ltb 1 bpp) (offset + 1) color b1 in
      let b3 = set_if (ltb 2 bpp) (offset + 2) color b2 in
      set_if_other (ltb 3 bpp) (offset + 3) 0 (offset + 1) b3 (λ q. omega (arith, q))
      ∙ set_if_other (ltb 2 bpp) (offset + 2) color (offset + 1) b2 (λ q. omega (arith, q))
      ∙ hit 1 color b1 d (omega (arith, h, length-set b offset color))
  set_colors_channel (suc (suc zero)) b c d h =
      let b1 = set b offset color in
      let b2 = set_if (ltb 1 bpp) (offset + 1) color b1 in
      let b3 = set_if (ltb 2 bpp) (offset + 2) color b2 in
      set_if_other (ltb 3 bpp) (offset + 3) 0 (offset + 2) b3 (λ q. omega (arith, q))
      ∙ hit 2 color b2 d (
          omega
            (arith, h, length-set b offset color, length-set_if (ltb 1 bpp) (offset + 1) color b1))
  set_colors_channel (suc (suc (suc k))) b c d h = absurd (omega (arith, c))

-- A byte of a pixel that has its colour.
abbrev pub IsChannel : PixelFormat → ℕ → ℕ → Type 0
IsChannel rgb bpp k = (k < 3) × (k < bpp)
IsChannel bgr bpp k = (k < 3) × (k < bpp)
IsChannel u8 bpp k = (k ≡ 0) × (0 < bpp)
IsChannel other bpp k = ⊥

-- What the write of a pixel at an offset does, by the byte that is read afterwards.
pub record Colored (offset bpp k color : ℕ) (b b' : List ℕ) : Type 0 where
  pub channel : get_or b' (offset + k) 0 ≡ color
  pub beside : (j : ℕ) → (j < offset) ⊎ (offset + bpp ≤ j) → get_or b' j 0 ≡ get_or b j 0
  pub size : length b' ≡ length b

pub color_pixel-Colored :
    (f : PixelFormat) (offset bpp k color : ℕ) (b : List ℕ)
    → IsChannel f bpp k
    → offset + bpp ≤ length b
    → Colored offset bpp k color b (color_pixel f bpp color offset b)
unfolding color_pixel
color_pixel-Colored rgb offset bpp k color b (c, d) h = record {
  channel = set_colors_channel offset bpp color k b c d h;
  beside = λ j. set_colors_other offset bpp color b j (omega (arith, d));
  size = length-set_colors offset bpp color b;
}
color_pixel-Colored bgr offset bpp k color b (c, d) h = record {
  channel = set_colors_channel offset bpp color k b c d h;
  beside = λ j. set_colors_other offset bpp color b j (omega (arith, d));
  size = length-set_colors offset bpp color b;
}
color_pixel-Colored u8 offset bpp k color b (c, d) h = record {
  channel =
      let e : offset + k ≡ offset = omega (arith, c) in
      rw e (get_or-set_self b offset color 0 (omega (arith, d, h)));
  beside = λ j. elim [
    | inl l ↦ get_or-set_ne b color 0 (λ q. omega (arith, q, l))
    | inr l ↦ get_or-set_ne b color 0 (λ q. omega (arith, q, l, d))
  ];
  size = length-set b offset color;
}
color_pixel-Colored other offset bpp k color b c h = absurd c
