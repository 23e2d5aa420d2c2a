-- ===== src/Screen/Spec.antt =====
-- What the console of kernel/src/framebuffer.rs is for its callers: a grid of glyphs with a cursor.
use jing_os.Base.{ℕ, zero, suc, ◌+◌, ◌-◌, ◌&&◌, Option, List, [], ◌∷◌, ltb, ◌==◌, if◌then◌else◌}
use jing_os.Screen.Writer.{blank, glyph_of}

pub record Screen : Type 0 where
  pub cells : ℕ → ℕ → List ℕ
  pub column : ℕ
  pub row : ℕ

abbrev pub empty : Screen
empty = record { cells = λ c r. blank; column = 0; row = 0 }

-- The grid with a glyph in a cell.
abbrev pub put : ℕ → ℕ → List ℕ → (ℕ → ℕ → List ℕ) → ℕ → ℕ → List ℕ
put c r glyph cells c' r' = if c' == c && r' == r then glyph else cells c' r'

abbrev pub show_glyph : List ℕ → Screen → Screen
show_glyph glyph s = record {
  cells = put s.column s.row glyph s.cells;
  column = s.column + 1;
  row = s.row;
}

-- A screen of so many columns and rows.
module _ (columns rows : ℕ) where
  -- Every row goes up, and the last one is blank.
  abbrev pub scrolled : (ℕ → ℕ → List ℕ) → ℕ → ℕ → List ℕ
  scrolled cells c r = if ltb (suc r) rows then cells c (suc r) else blank

  abbrev pub next_line : Screen → Screen
  next_line s =
      if ltb (s.row + 1) rows
      then record s { column = 0; row = s.row + 1 }
      else record { cells = scrolled s.cells; column = 0; row = rows - 1 }

  -- A glyph at the cursor, which goes to the next line first if this one is full.
  abbrev pub type_glyph : List ℕ → Screen → Screen
  type_glyph glyph s = show_glyph glyph (if ltb s.column columns then s else next_line s)

  -- The cell before the cursor is blanked, on the line above if there is none on this one.
  abbrev pub erase : Screen → Screen
  erase s =
      if ltb 0 s.column
      then record s { cells = put (s.column - 1) s.row blank s.cells; column = s.column - 1 }
      else (if ltb 0 s.row
          then record {
            cells = put (columns - 1) (s.row - 1) blank s.cells;
            column = columns - 1;
            row = s.row - 1;
          }
          else s)

  module _ (font : ℕ → Option (List ℕ)) where
    abbrev pub type_times : ℕ → List ℕ → Screen → Screen
    type_times zero glyph s = s
    type_times (suc n) glyph s = type_times n glyph (type_glyph glyph s)

    abbrev pub type_char : ℕ → Screen → Screen
    type_char c s =
        if c == 0x0a
        then next_line s
        else (if c == 0x0d
            then record s { column = 0 }
            else (if c == 0x08
                then erase s
                else (if c == 0x09
                    then type_times 4 (glyph_of font 0x20) s
                    else type_glyph (glyph_of font (if ltb c 128 then c else 0x3f)) s)))

    abbrev pub type_text : List ℕ → Screen → Screen
    type_text [] s = s
    type_text (c ∷ text) s = type_text text (type_char c s)
