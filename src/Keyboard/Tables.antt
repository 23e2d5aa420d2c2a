-- ===== src/Keyboard/Tables.antt =====
-- kernel/src/keyboard.rs: `decode_letter` and `decode_symbol_pair`, as tables that are searched from
-- the front. A character is its code point.
use jing_os.Base.{ℕ, List, [], ◌∷◌, Option, none, some, ◌==◌, if◌then◌else◌}

abbrev pub lookup {ℓ} : {A : Type ℓ} → ℕ → List (ℕ × A) → Option A
lookup k [] = none
lookup k ((j, a) ∷ rows) = let rest = lookup k rows in if k == j then some a else rest

abbrev pub letters : List (ℕ × ℕ)
letters =
    (0x1e, 97)
    ∷ (0x30, 98)
    ∷ (0x2e, 99)
    ∷ (0x20, 100)
    ∷ (0x12, 101)
    ∷ (0x21, 102)
    ∷ (0x22, 103)
    ∷ (0x23, 104)
    ∷ (0x17, 105)
    ∷ (0x24, 106)
    ∷ (0x25, 107)
    ∷ (0x26, 108)
    ∷ (0x32, 109)
    ∷ (0x31, 110)
    ∷ (0x18, 111)
    ∷ (0x19, 112)
    ∷ (0x10, 113)
    ∷ (0x13, 114)
    ∷ (0x1f, 115)
    ∷ (0x14, 116)
    ∷ (0x16, 117)
    ∷ (0x2f, 118)
    ∷ (0x11, 119)
    ∷ (0x2d, 120)
    ∷ (0x15, 121)
    ∷ (0x2c, 122)
    ∷ []

unfoldable pub decode_letter : ℕ → Option ℕ
decode_letter code = lookup code letters

abbrev pub symbol_pairs : List (ℕ × (ℕ × ℕ))
symbol_pairs =
    (0x02, (49, 33))
    ∷ (0x03, (50, 64))
    ∷ (0x04, (51, 35))
    ∷ (0x05, (52, 36))
    ∷ (0x06, (53, 37))
    ∷ (0x07, (54, 94))
    ∷ (0x08, (55, 38))
    ∷ (0x09, (56, 42))
    ∷ (0x0a, (57, 40))
    ∷ (0x0b, (48, 41))
    ∷ (0x39, (32, 32))
    ∷ (0x0c, (45, 95))
    ∷ (0x0d, (61, 43))
    ∷ (0x1a, (91, 123))
    ∷ (0x1b, (93, 125))
    ∷ (0x27, (59, 58))
    ∷ (0x28, (39, 34))
    ∷ (0x29, (96, 126))
    ∷ (0x2b, (92, 124))
    ∷ (0x33, (44, 60))
    ∷ (0x34, (46, 62))
    ∷ (0x35, (47, 63))
    ∷ []

unfoldable pub decode_symbol_pair : ℕ → Option (ℕ × ℕ)
decode_symbol_pair code = lookup code symbol_pairs
