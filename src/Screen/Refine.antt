-- ===== src/Screen/Refine.antt =====
-- kernel/src/framebuffer.rs: the pixels show what the callers of the console wrote.
use jing_os.Base.{
  ℕ, zero, suc, ◌+◌, ◌-◌, ◌*◌, ◌≤◌, ◌<◌, ◌≡◌, refl, inl, inr, true, false, Option, none, some, List,
  length, ltb, leb, if◌then◌else◌, arith, Bool-cases,
}
use jing_os.Screen.Writer.{
  FrameBufferInfo, FrameBufferWriter, max_columns, max_rows, scroll_one_row, no_room, blank,
  draw_glyph, glyph_of, draw_at_cursor, wrap_column, wrap_row, advance, new_line, backspace,
  write_renderable, write_times,
}
use jing_os.Screen.Drawing.{IsScreen}
use jing_os.Screen.Cells.{Shows, scroll-Shows, draw-Shows}
use jing_os.Screen.Spec.{Screen, put, next_line, show_glyph, type_glyph, erase, type_times}

-- A font of glyphs with eight rows.
abbrev pub IsFont : (ℕ → Option (List ℕ)) → Type 0
IsFont font = (c : ℕ) (glyph : List ℕ) → font c ≡ some glyph → length glyph ≡ 8

glyph_of_lem : (font : ℕ → Option (List ℕ)) (c : ℕ) → IsFont font → length (glyph_of font c) ≡ 8
glyph_of_lem font c f = go (font c) refl
  where
    go :
        (g : Option (List ℕ))
        → font c ≡ g
        → length (elim g [ none ↦ blank | some glyph ↦ glyph ]) ≡ 8
    go none e = refl
    go (some glyph) e = f c glyph e

-- The writer with a buffer and the cursor of a screen.
abbrev pub writer : FrameBufferInfo → List ℕ → Screen → FrameBufferWriter
writer info b s = record { buffer = b; info = info; column = s.column; row = s.row }

-- The buffer shows the screen, whose cursor is on it or behind the end of a line.
pub record Good (info : FrameBufferInfo) (len k : ℕ) (b : List ℕ) (s : Screen) : Type 0 where
  pub shows : Shows info len k b s.cells
  pub column : s.column ≤ max_columns info
  pub row : s.row < max_rows info

-- A writer with this screen.
abbrev pub Displays : FrameBufferInfo → ℕ → ℕ → FrameBufferWriter → Screen → Type 0
Displays info len k w s = (b : List ℕ) × (w ≡ writer info b s) × Good info len k b s

module _ (info : FrameBufferInfo) (len k : ℕ) (screen : IsScreen info len k) where
  pub then_lem :
      (w : FrameBufferWriter) (s t : Screen) (f : FrameBufferWriter → FrameBufferWriter)
      → Displays info len k w s
      → ((b : List ℕ) → Good info len k b s → Displays info len k (f (writer info b s)) t)
      → Displays info len k (f w) t
  then_lem w s t f (b, e, g) h = rw e (h b g)

  pub next_line_lem :
      (b : List ℕ) (s : Screen)
      → Good info len k b s
      → Displays info len k
          (new_line (writer info b s))
          (next_line (max_columns info) (max_rows info) s)
  unfolding new_line
  next_line_lem b s g = elim (Bool-cases (ltb (s.row + 1) (max_rows info))) [
    | inl e ↦
        let e' : leb (max_rows info) (s.row + 1) ≡ false = ground (arith, e) in
        rw (e, e')
          (b, refl, record { shows = g.shows; column = omega arith; row = ground (arith, e) })
    | inr e ↦
        let e' : leb (max_rows info) (s.row + 1) ≡ true = ground (arith, e) in
        rw (e, e')
          (
            scroll_one_row info b,
            refl,
            record {
              shows = scroll-Shows info len k screen b s.cells g.shows;
              column = omega arith;
              row = omega (arith, g.row);
            },
          )
  ]

  next_line_column : (s : Screen) → (next_line (max_columns info) (max_rows info) s).column ≡ 0
  next_line_column s = elim (Bool-cases (ltb (s.row + 1) (max_rows info))) [
    | inl e ↦ rw e refl
    | inr e ↦ rw e refl
  ]

  -- A cursor with room for a glyph.
  room_lem :
      (b : List ℕ) (s : Screen)
      → Good info len k b s
      → let s' =
          if ltb s.column (max_columns info)
          then s
          else next_line (max_columns info) (max_rows info) s in
        Displays info len k (wrap_column (writer info b s)) s' × (s'.column < max_columns info)
  room_lem b s g = elim (Bool-cases (ltb s.column (max_columns info))) [
    | inl e ↦
        let e' : leb (max_columns info) s.column ≡ false = ground (arith, e) in
        rw (e, e') ((b, refl, g), ground (arith, e))
    | inr e ↦
        let e' : leb (max_columns info) s.column ≡ true = ground (arith, e) in
        rw (e, e') (next_line_lem b s g, omega (arith, next_line_column s, screen.columns))
  ]

  has_room : no_room info ≡ false
  has_room = ground (arith, screen.columns, screen.rows)

  draw_lem :
      (b : List ℕ) (s : Screen) (glyph : List ℕ)
      → Good info len k b s
      → s.column < max_columns info
      → length glyph ≡ 8
      → Displays info len k
          (advance (draw_at_cursor glyph (wrap_row (writer info b s))))
          (show_glyph glyph s)
  draw_lem b s glyph g h e =
      let r : leb (max_rows info) s.row ≡ false = ground (arith, g.row) in
      rw r (
        draw_glyph info (s.column * 8) (s.row * 8) glyph b,
        refl,
        record {
          shows = draw-Shows info len k screen b s.cells s.column s.row glyph g.shows h g.row e;
          column = omega (arith, h);
          row = g.row;
        },
      )

  pub write_renderable_lem :
      (font : ℕ → Option (List ℕ)) (c : ℕ) (b : List ℕ) (s : Screen)
      → IsFont font
      → Good info len k b s
      → Displays info len k
          (write_renderable font c (writer info b s))
          (type_glyph (max_columns info) (max_rows info) (glyph_of font c) s)
  unfolding write_renderable
  write_renderable_lem font c b s f g =
      let glyph = glyph_of font c in
      let s' =
        if ltb s.column (max_columns info)
        then s
        else next_line (max_columns info) (max_rows info) s in
      let (displays, room) = room_lem b s g in
      rw has_room (
        then_lem (wrap_column (writer info b s)) s' (show_glyph glyph s')
          (λ w. advance (draw_at_cursor glyph (wrap_row w))) displays
          (λ b' g'. draw_lem b' s' glyph g' room (glyph_of_lem font c f)))

  erase_at :
      (b : List ℕ) (s : Screen) (c r : ℕ)
      → Good info len k b s
      → c < max_columns info
      → r < max_rows info
      → Displays info len k
          (draw_at_cursor blank (writer info b (record s { column = c; row = r })))
          (record { cells = put c r blank s.cells; column = c; row = r })
  erase_at b s c r g hc hr = (
    draw_glyph info (c * 8) (r * 8) blank b,
    refl,
    record {
      shows = draw-Shows info len k screen b s.cells c r blank g.shows hc hr refl;
      column = omega (arith, hc);
      row = hr;
    },
  )

  pub backspace_lem :
      (b : List ℕ) (s : Screen)
      → Good info len k b s
      → Displays info len k
          (backspace (writer info b s))
          (erase (max_columns info) (max_rows info) s)
  unfolding backspace
  backspace_lem b s g = elim (Bool-cases (ltb 0 s.column)) [
    | inl e ↦
        rw (has_room, e) (erase_at b s (s.column - 1) s.row g (ground (arith, e, g.column)) g.row)
    | inr e ↦ elim (Bool-cases (ltb 0 s.row)) [
      | inl d ↦
          rw (has_room, e, d)
            (erase_at b s (max_columns info - 1) (s.row - 1) g (omega (arith, screen.columns))
              (omega (arith, g.row)))
      | inr d ↦ rw (has_room, e, d) (b, refl, g)
    ]
  ]

  pub write_times_lem :
      (n : ℕ) (font : ℕ → Option (List ℕ)) (c : ℕ) (w : FrameBufferWriter) (s : Screen)
      → IsFont font
      → Displays info len k w s
      → Displays info len k
          (write_times font n c w)
          (type_times (max_columns info) (max_rows info) font n (glyph_of font c) s)
  write_times_lem zero font c w s f d = d
  write_times_lem (suc n) font c w s f d =
      let t = type_glyph (max_columns info) (max_rows info) (glyph_of font c) s in
      write_times_lem n font c (write_renderable font c w) t f
        (then_lem w s t (write_renderable font c) d (λ b g. write_renderable_lem font c b s f g))
