-- ===== src/Screen/Writer.antt =====
-- kernel/src/framebuffer.rs: `FrameBufferWriter`. The font is a parameter: the eight rows of a character's glyph, if
-- there is one. A character is its code point.
use jing_os.Base.{
  ℕ, zero, suc, ◌+◌, ◌-◌, ◌*◌, ◌/◌, ◌%◌, ◌^◌, Bool, ◌||◌, Option, none, some, List, [], ◌∷◌, ◌++◌,
  length, set, drop, replicate, ltb, leb, ◌==◌, if◌then◌else◌,
}

abbrev pub char_width : ℕ
char_width = 8

abbrev pub char_height : ℕ
char_height = 8

-- `other` stands for the formats that the code does not tell apart.
pub data PixelFormat : Type 0 where
  rgb bgr u8 other : PixelFormat

pub record FrameBufferInfo : Type 0 where
  pub width : ℕ
  pub height : ℕ
  pub stride : ℕ
  pub bytes_per_pixel : ℕ
  pub pixel_format : PixelFormat

pub record FrameBufferWriter : Type 0 where
  pub buffer : List ℕ
  pub info : FrameBufferInfo
  pub column : ℕ
  pub row : ℕ

abbrev pub new : List ℕ → FrameBufferInfo → FrameBufferWriter
new buffer info = record { buffer = buffer; info = info; column = 0; row = 0 }

abbrev pub clear : FrameBufferWriter → FrameBufferWriter
clear w = record w { buffer = replicate (length w.buffer) 0; column = 0; row = 0 }

abbrev pub max_columns : FrameBufferInfo → ℕ
max_columns info = info.width / char_width

abbrev pub max_rows : FrameBufferInfo → ℕ
max_rows info = info.height / char_height

abbrev pub fill_from : ℕ → ℕ → ℕ → List ℕ → List ℕ
fill_from start zero v b = b
fill_from start (suc n) v b = fill_from (suc start) n v (set b start v)

abbrev pub set_if : Bool → ℕ → ℕ → List ℕ → List ℕ
set_if c i v b = if c then set b i v else b

-- The bytes of a pixel in the formats of three colours.
abbrev pub set_colors : ℕ → ℕ → ℕ → List ℕ → List ℕ
set_colors bpp color offset b = set_if (ltb 3 bpp) (offset + 3) 0x00 (
    set_if (ltb 2 bpp) (offset + 2) color
      (set_if (ltb 1 bpp) (offset + 1) color (set b offset color)))

-- The `match` on the format.
unfoldable pub color_pixel : PixelFormat → ℕ → ℕ → ℕ → List ℕ → List ℕ
color_pixel rgb bpp color offset b = set_colors bpp color offset b
color_pixel bgr bpp color offset b = set_colors bpp color offset b
color_pixel u8 bpp color offset b = set b offset color
color_pixel other bpp color offset b = fill_from offset bpp 0x00 b

abbrev pub color_of : Bool → ℕ
color_of on = if on then 0xff else 0x00

unfoldable pub set_pixel : FrameBufferInfo → List ℕ → ℕ → ℕ → Bool → List ℕ
set_pixel info b x y on =
    if leb info.width x || leb info.height y
    then b
    else (let bpp = info.bytes_per_pixel in
        let offset = (y * info.stride + x) * bpp in
        if ltb (length b) (offset + bpp)
        then b
        else color_pixel info.pixel_format bpp (color_of on) offset b)

-- `row_bits & (1 << glyph_x) != 0`.
abbrev pub bit_of : ℕ → ℕ → Bool
bit_of bits x = (bits / 2 ^ x) % 2 == 1

-- The turns of the inner loop from `glyph_x` on, `n` of them.
unfoldable pub draw_row : FrameBufferInfo → ℕ → ℕ → ℕ → ℕ → ℕ → List ℕ → List ℕ
draw_row info origin_x y bits glyph_x zero b = b
draw_row info origin_x y bits glyph_x (suc n) b =
    draw_row info origin_x y bits (suc glyph_x) n
      (set_pixel info b (origin_x + glyph_x) y (bit_of bits glyph_x))

-- The rows of a glyph from a height on.
unfoldable pub draw_glyph : FrameBufferInfo → ℕ → ℕ → List ℕ → List ℕ → List ℕ
draw_glyph info origin_x y [] b = b
draw_glyph info origin_x y (bits ∷ rest) b =
    draw_glyph info origin_x (suc y) rest (draw_row info origin_x y bits 0 8 b)

unfoldable pub scroll_one_row : FrameBufferInfo → List ℕ → List ℕ
scroll_one_row info b =
    let char_row_bytes = info.stride * info.bytes_per_pixel * char_height in
    if char_row_bytes == 0 || leb (length b) char_row_bytes
    then replicate (length b) 0
    else drop char_row_bytes b ++ replicate char_row_bytes 0

unfoldable pub new_line : FrameBufferWriter → FrameBufferWriter
new_line w =
    if leb (max_rows w.info) (w.row + 1)
    then record w { buffer = scroll_one_row w.info w.buffer; column = 0; row = max_rows w.info - 1 }
    else record w { column = 0; row = w.row + 1 }

abbrev pub wrap_column : FrameBufferWriter → FrameBufferWriter
wrap_column w = if leb (max_columns w.info) w.column then new_line w else w

abbrev pub wrap_row : FrameBufferWriter → FrameBufferWriter
wrap_row w =
    if leb (max_rows w.info) w.row
    then record w { buffer = scroll_one_row w.info w.buffer; row = max_rows w.info - 1 }
    else w

abbrev pub draw_at_cursor : List ℕ → FrameBufferWriter → FrameBufferWriter
draw_at_cursor glyph w = record w {
  buffer = draw_glyph w.info (w.column * char_width) (w.row * char_height) glyph w.buffer;
}

abbrev pub advance : FrameBufferWriter → FrameBufferWriter
advance w = record w { column = w.column + 1 }

abbrev pub no_room : FrameBufferInfo → Bool
no_room info = max_columns info == 0 || max_rows info == 0

abbrev pub blank : List ℕ
blank = replicate 8 0

unfoldable pub backspace : FrameBufferWriter → FrameBufferWriter
backspace w =
    if no_room w.info
    then w
    else (if ltb 0 w.column
        then draw_at_cursor blank (record w { column = w.column - 1 })
        else (if ltb 0 w.row
            then draw_at_cursor blank
                (record w { row = w.row - 1; column = max_columns w.info - 1 })
            else w))

-- `WRITER` after the calls from outside.
abbrev pub init : List ℕ → FrameBufferInfo → Option FrameBufferWriter
init buffer info = some (clear (new buffer info))

abbrev pub clear_screen : Option FrameBufferWriter → Option FrameBufferWriter
clear_screen none = none
clear_screen (some w) = some (clear w)

module _ (font : ℕ → Option (List ℕ)) where
  -- `BASIC_FONTS.get(character).unwrap_or([0; 8])`.
  abbrev pub glyph_of : ℕ → List ℕ
  glyph_of character = elim (font character) [ none ↦ blank | some glyph ↦ glyph ]

  unfoldable pub write_renderable : ℕ → FrameBufferWriter → FrameBufferWriter
  write_renderable character w =
      if no_room w.info
      then w
      else advance (draw_at_cursor (glyph_of character) (wrap_row (wrap_column w)))

  abbrev pub write_times : ℕ → ℕ → FrameBufferWriter → FrameBufferWriter
  write_times zero character w = w
  write_times (suc n) character w = write_times n character (write_renderable character w)

  unfoldable pub write_char : ℕ → FrameBufferWriter → FrameBufferWriter
  write_char c w =
      if c == 0x0a
      then new_line w
      else (if c == 0x0d
          then record w { column = 0 }
          else (if c == 0x08
              then backspace w
              else (if c == 0x09
                  then write_times 4 0x20 w
                  else write_renderable (if ltb c 128 then c else 0x3f) w)))

  unfoldable pub write_str : List ℕ → FrameBufferWriter → FrameBufferWriter
  write_str [] w = w
  write_str (c ∷ text) w = write_str text (write_char c w)

  abbrev pub print : List ℕ → Option FrameBufferWriter → Option FrameBufferWriter
  print text none = none
  print text (some w) = some (write_str text w)
