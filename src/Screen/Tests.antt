-- ===== src/Screen/Tests.antt =====
-- Runs of the console, and the theorem on framebuffer.rs at such an input.
use jing_os.Base.{
  ℕ, ◌≡◌, refl, sym, ap, Bool, true, false, Option, none, some, List, [], ◌∷◌, length, replicate,
  ◌==◌, if◌then◌else◌, arith,
}
use jing_os.Screen.Writer.{
  rgb, FrameBufferInfo, set_pixel, color_pixel, draw_row, draw_glyph, new_line, write_renderable,
  write_char, write_str, new, clear, init,
}
use jing_os.Screen.Drawing.{IsScreen, pixel}
use jing_os.Screen.Spec.{empty}
use jing_os.Screen.Refine.{IsFont}
use jing_os.Screen.Console.{clear_call, print_call, calls, steps, DisplaysSome, console_shows}

-- Two columns and one row of characters, in lines of eighteen pixels with a byte each.
abbrev info : FrameBufferInfo
info = record { width = 16; height = 9; stride = 18; bytes_per_pixel = 1; pixel_format = rgb }

abbrev buffer : List ℕ
buffer = replicate 170 7

-- A font with one glyph.
abbrev font : ℕ → Option (List ℕ)
font c = if c == 0x41 then some (0x18 ∷ 0x24 ∷ 0x42 ∷ 0x7e ∷ 0x42 ∷ 0x42 ∷ 0x42 ∷ 0 ∷ []) else none

font-IsFont : IsFont font
font-IsFont c glyph e = by_test (c == 0x41) e
  where
    height_of : Option (List ℕ) → ℕ
    height_of none = 8
    height_of (some g) = length g

    by_test :
        (t : Bool)
        → (if t then some (0x18 ∷ 0x24 ∷ 0x42 ∷ 0x7e ∷ 0x42 ∷ 0x42 ∷ 0x42 ∷ 0 ∷ []) else none)
          ≡ some glyph
        → length glyph ≡ 8
    by_test true q = sym (ap height_of q)
    by_test false q = ground (arith, q)

info-IsScreen : IsScreen info (length buffer) 0
info-IsScreen = record {
  channel = (omega arith, omega arith);
  wide = omega arith;
  fits = omega arith;
  columns = omega arith;
  rows = omega arith;
}

-- Three characters: the third one goes to a new line, and the screen scrolls.
console_shows_example :
    DisplaysSome info 170 0
      (calls font
        (print_call (0x41 ∷ 0x42 ∷ 0x41 ∷ 0x08 ∷ []) ∷ clear_call ∷ print_call (0x41 ∷ []) ∷ [])
        (init buffer info))
      (steps info font
        (print_call (0x41 ∷ 0x42 ∷ 0x41 ∷ 0x08 ∷ []) ∷ clear_call ∷ print_call (0x41 ∷ []) ∷ [])
        empty)
console_shows_example =
    console_shows font font-IsFont info 0 buffer
      (print_call (0x41 ∷ 0x42 ∷ 0x41 ∷ 0x08 ∷ []) ∷ clear_call ∷ print_call (0x41 ∷ []) ∷ [])
      info-IsScreen

-- A pixel of the letter, and a line end on the last row.
pixel_runs : pixel info 0 (write_str font (0x41 ∷ []) (clear (new buffer info))).buffer 3 0 ≡ 0xff
unfolding write_str write_char write_renderable draw_glyph draw_row set_pixel color_pixel
pixel_runs = refl

scroll_runs : (write_str font (0x41 ∷ 0x0a ∷ []) (clear (new buffer info))).row ≡ 0
unfolding write_str write_char write_renderable new_line
scroll_runs = refl
