-- ===== src/Screen/Console.antt =====
-- kernel/src/framebuffer.rs: the calls of the console, from `init` on.
use jing_os.Base.{
  ℕ, ◌+◌, ◌%◌, ◌*◌, ◌≡◌, refl, inl, inr, sym, ◌∙◌, Option, none, some, List, [], ◌∷◌, length,
  length-replicate, replicate, ltb, ◌==◌, if◌then◌else◌, arith, Bool-cases,
}
use jing_os.Screen.Writer.{
  FrameBufferInfo, FrameBufferWriter, max_columns, max_rows, write_char, write_str, clear, init,
  clear_screen, print,
}
use jing_os.Screen.Drawing.{IsScreen}
use jing_os.Screen.Scroll.{get_or-replicate}
use jing_os.Screen.Cells.{Shows, blank_shown}
use jing_os.Screen.Spec.{Screen, empty, type_char, type_text}
use jing_os.Screen.Refine.{
  IsFont, writer, Good, Displays, then_lem, next_line_lem, write_renderable_lem, backspace_lem,
  write_times_lem,
}

module _ (info : FrameBufferInfo) (len k : ℕ) (screen : IsScreen info len k)
    (font : ℕ → Option (List ℕ)) (f : IsFont font) where
  write_char_lem :
      (c : ℕ) (b : List ℕ) (s : Screen)
      → Good info len k b s
      → Displays info len k
          (write_char font c (writer info b s))
          (type_char (max_columns info) (max_rows info) font c s)
  unfolding write_char
  write_char_lem c b s g = elim (Bool-cases (c == 0x0a)) [
    | inl e ↦ rw e (next_line_lem info len k screen b s g)
    | inr e ↦ elim (Bool-cases (c == 0x0d)) [
      | inl e' ↦ rw (e, e') (b, refl, record { shows = g.shows; column = omega arith; row = g.row })
      | inr e' ↦ elim (Bool-cases (c == 0x08)) [
        | inl d ↦ rw (e, e', d) (backspace_lem info len k screen b s g)
        | inr d ↦ elim (Bool-cases (c == 0x09)) [
          | inl d' ↦
              rw (e, e', d, d')
                (write_times_lem info len k screen 4 font 0x20 (writer info b s) s f (b, refl, g))
          | inr d' ↦
              rw (e, e', d, d')
                (write_renderable_lem info len k screen font (if ltb c 128 then c else 0x3f) b s f
                  g)
        ]
      ]
    ]
  ]

  write_str_lem :
      (text : List ℕ) (w : FrameBufferWriter) (s : Screen)
      → Displays info len k w s
      → Displays info len k
          (write_str font text w)
          (type_text (max_columns info) (max_rows info) font text s)
  unfolding write_str
  write_str_lem [] w s d = d
  write_str_lem (c ∷ text) w s d =
      let t = type_char (max_columns info) (max_rows info) font c s in
      write_str_lem text (write_char font c w) t
        (then_lem info len k screen w s t (write_char font c) d (λ b g. write_char_lem c b s g))

  clear_lem :
      (b : List ℕ) (column row : ℕ)
      → length b ≡ len
      → Displays info len k
          (clear (record { buffer = b; info = info; column = column; row = row }))
          empty
  clear_lem b column row e =
      let blank_buffer : List ℕ = replicate (length b) 0 in
      let shows : Shows info len k blank_buffer empty.cells = record {
        size = length-replicate (length b) 0 ∙ e;
        pixels = λ x y hx hy.
            get_or-replicate (length b) ((y * info.stride + x) * info.bytes_per_pixel + k)
            ∙ sym (blank_shown (x % 8) (y % 8));
        rest = λ j h. get_or-replicate (length b) j;
      } in
      (
        blank_buffer,
        refl,
        record { shows = shows; column = omega arith; row = omega (arith, screen.rows) },
      )

-- The calls after `init`.
pub data Call : Type 0 where
  clear_call : Call
  print_call : List ℕ → Call

abbrev pub call : (ℕ → Option (List ℕ)) → Call → Option FrameBufferWriter → Option FrameBufferWriter
call font clear_call w = clear_screen w
call font (print_call text) w = print font text w

abbrev pub calls :
    (ℕ → Option (List ℕ)) → List Call → Option FrameBufferWriter → Option FrameBufferWriter
calls font [] w = w
calls font (c ∷ cs) w = calls font cs (call font c w)

-- The specification of a call.
abbrev pub step : FrameBufferInfo → (ℕ → Option (List ℕ)) → Call → Screen → Screen
step info font clear_call s = empty
step info font (print_call text) s = type_text (max_columns info) (max_rows info) font text s

abbrev pub steps : FrameBufferInfo → (ℕ → Option (List ℕ)) → List Call → Screen → Screen
steps info font [] s = s
steps info font (c ∷ cs) s = steps info font cs (step info font c s)

abbrev pub DisplaysSome : FrameBufferInfo → ℕ → ℕ → Option FrameBufferWriter → Screen → Type 0
DisplaysSome info len k none s = ⊥
DisplaysSome info len k (some w) s = Displays info len k w s

module _ (info : FrameBufferInfo) (len k : ℕ) (screen : IsScreen info len k)
    (font : ℕ → Option (List ℕ)) (f : IsFont font) where
  call_lem :
      (c : Call) (w : Option FrameBufferWriter) (s : Screen)
      → DisplaysSome info len k w s
      → DisplaysSome info len k (call font c w) (step info font c s)
  call_lem c none s d = absurd d
  call_lem clear_call (some w) s (b, e, g) =
      rw e (clear_lem info len k screen font f b s.column s.row g.shows.size)
  call_lem (print_call text) (some w) s d = write_str_lem info len k screen font f text w s d

  calls_lem :
      (cs : List Call) (w : Option FrameBufferWriter) (s : Screen)
      → DisplaysSome info len k w s
      → DisplaysSome info len k (calls font cs w) (steps info font cs s)
  calls_lem [] w s d = d
  calls_lem (c ∷ cs) w s d = calls_lem cs (call font c w) (step info font c s) (call_lem c w s d)

-- After `init` with a framebuffer that has room for a character and for its lines, in a pixel format that
-- the code colours (RGB, BGR or U8, not the unknown ones), and any calls of
-- `clear` and `print`, whatever the font and the texts: the cursor is that of a grid of glyphs to which
-- the same characters were typed, with line ends, tabs, backspaces, full lines and scrolling; every
-- pixel of the grid's cells shows its glyph, and all bytes behind the rows of characters stay zero.
pub console_shows :
    (font : ℕ → Option (List ℕ)) (f : IsFont font) (info : FrameBufferInfo) (k : ℕ)
    (buffer : List ℕ) (cs : List Call)
    → IsScreen info (length buffer) k
    → DisplaysSome info
        (length buffer)
        k
        (calls font cs (init buffer info))
        (steps info font cs empty)
console_shows font f info k buffer cs screen =
    calls_lem info (length buffer) k screen font f cs (init buffer info) empty
      (clear_lem info (length buffer) k screen font f buffer 0 0 refl)
