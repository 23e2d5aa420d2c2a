-- ===== src/Screen/Drawing.antt =====
-- kernel/src/framebuffer.rs: what `set_pixel` and `draw_glyph` do to the pixels.
use jing_os.Base.{
  ℕ, suc, ◌+◌, ◌*◌, ◌≤◌, ◌<◌, ◌≡◌, ◌≢◌, refl, ap, ◌∙◌, ◌⊎◌, inl, inr, Bool, false, List, length,
  get_or, ltb, leb, arith, Bool-cases,
}
use native.Mathlib.Nat.{suc-mul, mul-le-mul_right}
use jing_os.Screen.Writer.{
  PixelFormat, rgb, bgr, u8, other, FrameBufferInfo, color_pixel, color_of, set_pixel,
}
use jing_os.Screen.Pixels.{IsChannel, Colored, color_pixel-Colored}

-- A framebuffer of `len` bytes with room for a character, whose pixels have a colour in their byte
-- `k`.
pub record IsScreen (info : FrameBufferInfo) (len k : ℕ) : Type 0 where
  pub channel : IsChannel info.pixel_format info.bytes_per_pixel k
  pub wide : info.width ≤ info.stride
  pub fits : info.height * info.stride * info.bytes_per_pixel ≤ len
  pub columns : 8 ≤ info.width
  pub rows : 8 ≤ info.height

gap : (b n m : ℕ) → n < m → n * b + b ≤ m * b
gap b n m h = omega (arith, suc-mul n b, mul-le-mul_right {m = suc n} {n = m} b h)

-- Two pixels of the same line, or of two, have different numbers.
apart :
    (stride x y x' y' : ℕ)
    → x < stride
    → x' < stride
    → (x ≢ x') ⊎ (y ≢ y')
    → y * stride + x ≢ y' * stride + x'
apart stride x y x' y' h h' ne e = elim (Bool-cases (ltb y y')) [
  | inl l ↦ let g = gap stride y y' (ground (arith, l)) in omega (arith, g, e, h, h')
  | inr l ↦ elim (Bool-cases (ltb y' y)) [
    | inl l' ↦ let g = gap stride y' y (ground (arith, l')) in omega (arith, g, e, h, h')
    | inr l' ↦
        let same : y ≡ y' = ground (arith, l, l') in
        elim ne [ inl n ↦ n (omega (arith, e, ap (λ t. t * stride) same)) | inr n ↦ n same ]
  ]
]

pub channel_lem :
    (info : FrameBufferInfo) (k : ℕ)
    → IsChannel info.pixel_format info.bytes_per_pixel k
    → k < info.bytes_per_pixel
channel_lem info k c = go info.pixel_format info.bytes_per_pixel c
  where
    go : (f : PixelFormat) (bpp : ℕ) → IsChannel f bpp k → k < bpp
    go rgb bpp (a, b) = b
    go bgr bpp (a, b) = b
    go u8 bpp (a, b) = omega (arith, a, b)
    go other bpp c = absurd c

-- The byte of a pixel that shows its colour.
abbrev pub pixel : FrameBufferInfo → ℕ → List ℕ → ℕ → ℕ → ℕ
pixel info k b x y = get_or b ((y * info.stride + x) * info.bytes_per_pixel + k) 0

-- A buffer of the same size whose bytes behind the first `lines` lines are the same.
pub record Kept (info : FrameBufferInfo) (lines : ℕ) (b b' : List ℕ) : Type 0 where
  pub size : length b' ≡ length b
  pub behind :
      (j : ℕ) → lines * info.stride * info.bytes_per_pixel ≤ j → get_or b' j 0 ≡ get_or b j 0

pub Kept-refl : (info : FrameBufferInfo) (lines : ℕ) (b : List ℕ) → Kept info lines b b
Kept-refl info lines b = record { size = refl; behind = λ j h. refl }

pub Kept-trans :
    (info : FrameBufferInfo) (lines : ℕ) (b b' b'' : List ℕ)
    → Kept info lines b b'
    → Kept info lines b' b''
    → Kept info lines b b''
Kept-trans info lines b b' b'' h h' = record {
  size = h'.size ∙ h.size;
  behind = λ j l. h'.behind j l ∙ h.behind j l;
}

module _ (info : FrameBufferInfo) (k len : ℕ) (screen : IsScreen info len k) where
  -- A pixel's bytes are in the buffer, and in its first lines.
  room :
      (x y lines : ℕ)
      → x < info.width
      → y < lines
      → (y * info.stride + x) * info.bytes_per_pixel + info.bytes_per_pixel
        ≤ lines * info.stride * info.bytes_per_pixel
  room x y lines h h' =
      gap info.bytes_per_pixel (y * info.stride + x) (lines * info.stride)
        (omega (arith, gap info.stride y lines h', h, screen.wide))

  set_pixel_opens :
      (b : List ℕ) (x y : ℕ) (on : Bool)
      → length b ≡ len
      → x < info.width
      → y < info.height
      → set_pixel info b x y on
        ≡ color_pixel info.pixel_format info.bytes_per_pixel
            (color_of on)
            ((y * info.stride + x) * info.bytes_per_pixel)
            b
  unfolding set_pixel
  set_pixel_opens b x y on e h h' =
      let a : leb info.width x ≡ false = ground (arith, h) in
      let a' : leb info.height y ≡ false = ground (arith, h') in
      let offset = (y * info.stride + x) * info.bytes_per_pixel in
      let r = room x y info.height h h' in
      let fit : ltb (length b) (offset + info.bytes_per_pixel) ≡ false =
        ground (arith, r, e, screen.fits) in
      rw (a, a', fit) refl

  set_pixel-Colored :
      (b : List ℕ) (x y : ℕ) (on : Bool)
      → length b ≡ len
      → x < info.width
      → y < info.height
      → Colored
          ((y * info.stride + x) * info.bytes_per_pixel)
          info.bytes_per_pixel
          k
          (color_of on)
          b
          (set_pixel info b x y on)
  set_pixel-Colored b x y on e h h' = rw (set_pixel_opens b x y on e h h') (
      color_pixel-Colored info.pixel_format ((y * info.stride + x) * info.bytes_per_pixel)
        info.bytes_per_pixel k (color_of on) b screen.channel
        (omega (arith, room x y info.height h h', e, screen.fits)))

  pub set_pixel-Kept :
      (b : List ℕ) (x y lines : ℕ) (on : Bool)
      → length b ≡ len
      → x < info.width
      → y < info.height
      → y < lines
      → Kept info lines b (set_pixel info b x y on)
  set_pixel-Kept b x y lines on e h h' l =
      let c = set_pixel-Colored b x y on e h h' in
      record {
        size = c.size;
        behind = λ j a. c.beside j (inr (omega (arith, a, room x y lines h l)));
      }

  -- The pixel that is set, and the others.
  pub set_pixel_self :
      (b : List ℕ) (x y : ℕ) (on : Bool)
      → length b ≡ len
      → x < info.width
      → y < info.height
      → pixel info k (set_pixel info b x y on) x y ≡ color_of on
  set_pixel_self b x y on e h h' = (set_pixel-Colored b x y on e h h').channel

  pub set_pixel_other :
      (b : List ℕ) (x y x' y' : ℕ) (on : Bool)
      → length b ≡ len
      → x < info.width
      → y < info.height
      → x' < info.width
      → (x' ≢ x) ⊎ (y' ≢ y)
      → pixel info k (set_pixel info b x y on) x' y' ≡ pixel info k b x' y'
  set_pixel_other b x y x' y' on e h h' l ne =
      let bpp = info.bytes_per_pixel in
      let n = y * info.stride + x in
      let n' = y' * info.stride + x' in
      let c = set_pixel-Colored b x y on e h h' in
      let in_pixel = channel_lem info k screen.channel in
      let distinct =
        apart info.stride x' y' x y (omega (arith, l, screen.wide)) (omega (arith, h, screen.wide))
          ne in
      elim (Bool-cases (ltb n' n)) [
        | inl q ↦
            c.beside (n' * bpp + k)
              (inl (omega (arith, gap bpp n' n (ground (arith, q)), in_pixel)))
        | inr q ↦
            c.beside (n' * bpp + k)
              (inr (omega (arith, gap bpp n n' (ground (arith, q, distinct)), in_pixel)))
      ]
