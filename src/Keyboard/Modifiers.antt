-- ===== src/Keyboard/Modifiers.antt =====
-- kernel/src/keyboard.rs: the decoder's flags are what the keys held down say.
use jing_os.Base.{
  ℕ, ◌%◌, ◌<◌, ◌≡◌, ◌↔◌, refl, none, Bool, true, false, not, ◌&&◌, ◌||◌, leb, ◌==◌, if◌then◌else◌,
  List, [], ◌∷◌, arith, Bool-cases, inl, inr,
}
use jing_os.Keyboard.Decoder.{KeyboardDecoder, xor, decode_extended, feed}

-- One press or release of a key: whether `0xE0` came first, the key's code, and whether it is a
-- release.
pub record Stroke : Type 0 where
  pub extended : Bool
  pub code : ℕ
  pub released : Bool

-- A stream of scancodes cut into strokes; the Boolean is whether an `0xE0` came just before it.
abbrev pub strokes : Bool → List ℕ → List Stroke
strokes e [] = []
strokes e (s ∷ ss) = elim (s == 0xe0) [
  | true ↦ strokes true ss
  | false ↦ record { extended = e; code = s % 128; released = leb 128 s } ∷ strokes false ss
]

abbrev pub is_key : Bool → ℕ → Stroke → Bool
is_key e code k = not (xor e k.extended) && code == k.code

-- Whether a key is held after some strokes: its last stroke decides, or `before` if it has none.
abbrev pub held : Bool → ℕ → Bool → List Stroke → Bool
held e code before [] = before
held e code before (k ∷ ks) = held e code (if is_key e code k then not k.released else before) ks

-- Caps lock changes with every press of its key.
abbrev pub toggled : Bool → List Stroke → Bool
toggled before [] = before
toggled before (k ∷ ks) =
    toggled (if is_key false 0x3a k && not k.released then not before else before) ks

abbrev pub after_stroke : Stroke → KeyboardDecoder → KeyboardDecoder
after_stroke k d = record {
  extended = false;
  left_shift = if is_key false 0x2a k then not k.released else d.left_shift;
  right_shift = if is_key false 0x36 k then not k.released else d.right_shift;
  left_ctrl = if is_key false 0x1d k then not k.released else d.left_ctrl;
  right_ctrl = if is_key true 0x1d k then not k.released else d.right_ctrl;
  left_alt = if is_key false 0x38 k then not k.released else d.left_alt;
  right_alt = if is_key true 0x38 k then not k.released else d.right_alt;
  caps_lock = if is_key false 0x3a k && not k.released then not d.caps_lock else d.caps_lock;
}

feed-stroke :
    (s : ℕ) (d : KeyboardDecoder)
    → s < 256
    → (s == 0xe0) ≡ false
    → (feed s d).1
      ≡ after_stroke (record { extended = d.extended; code = s % 128; released = leb 128 s }) d
unfolding feed decode_extended
feed-stroke s d h e = ground arith

feed-prefix :
    (s : ℕ) (d : KeyboardDecoder) → (s == 0xe0) ≡ true → (feed s d).1 ≡ record d { extended = true }
unfolding feed
feed-prefix s d e = rw e

abbrev pub feed_all : List ℕ → KeyboardDecoder → KeyboardDecoder
feed_all [] d = d
feed_all (s ∷ ss) d = feed_all ss (feed s d).1

pub data AllBytes : List ℕ → Type 0 where
  no_bytes : AllBytes []
  a_byte : {s : ℕ} {ss : List ℕ} → s < 256 → AllBytes ss → AllBytes (s ∷ ss)

-- After any stream of bytes, each of the six modifier flags says whether its key, left or right, is
-- held, by the last press or release of that key alone; and caps lock has changed once with each
-- press of its key.
pub modifiers_lem :
    (ss : List ℕ) (d : KeyboardDecoder)
    → AllBytes ss
    → let after = feed_all ss d in
      let ks = strokes d.extended ss in
      (after.left_shift ≡ held false 0x2a d.left_shift ks)
      × (after.right_shift ≡ held false 0x36 d.right_shift ks)
      × (after.left_ctrl ≡ held false 0x1d d.left_ctrl ks)
      × (after.right_ctrl ≡ held true 0x1d d.right_ctrl ks)
      × (after.left_alt ≡ held false 0x38 d.left_alt ks)
      × (after.right_alt ≡ held true 0x38 d.right_alt ks)
      × (after.caps_lock ≡ toggled d.caps_lock ks)
modifiers_lem [] d no_bytes = (refl, refl, refl, refl, refl, refl, refl)
modifiers_lem (s ∷ ss) d (a_byte h hs) = elim (Bool-cases (s == 0xe0)) [
  | inl e ↦
      rw (strokes, e, feed_all, feed-prefix s d e)
        (modifiers_lem ss (record d { extended = true }) hs)
  | inr e ↦
      rw (strokes, e, feed_all, feed-stroke s d h e)
        (modifiers_lem ss
          (after_stroke (record { extended = d.extended; code = s % 128; released = leb 128 s }) d)
          hs)
]

-- A stroke that gives no event: `0xE0`, a release, or a modifier.
abbrev pub is_silent : Bool → ℕ → Bool
is_silent e s =
    s == 0xe0
    || leb 128 s
    || (if e
        then s == 0x1d || s == 0x38
        else s == 0x2a || s == 0x36 || s == 0x1d || s == 0x38 || s == 0x3a)

-- A byte gives no event exactly if it is the prefix `0xE0`, releases a key, or presses a modifier;
-- behind the prefix the modifiers are the right control and alt keys only.
pub feed_silent :
    (s : ℕ) (d : KeyboardDecoder)
    → s < 256
    → ((feed s d).0 ≡ none) ↔ (is_silent d.extended s ≡ true)
unfolding feed decode_extended
feed_silent s d h = ((λ e. ground arith), (λ e. ground arith))
