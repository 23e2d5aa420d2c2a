-- ===== src/Monitor/Words.antt =====
-- kernel/src/main.rs: `split_whitespace`, by which `execute_command` takes a line apart, and what a line's
-- words are. A line has ASCII characters only.
use jing_os.Base.{
  ℕ, ◌≤◌, ◌≡◌, refl, ap, Bool, true, false, ◌&&◌, ◌||◌, ◌⊎◌, inl, inr, List, [], ◌∷◌, ◌++◌, Bytes,
  leb, ◌==◌, if◌then◌else◌, arith, Bool-cases,
}

abbrev pub is_whitespace : ℕ → Bool
is_whitespace c = (leb 0x09 c && leb c 0x0d) || c == 0x20

abbrev pub push_word : Bytes → List Bytes → List Bytes
push_word [] ws = ws
push_word (c ∷ w) ws = (c ∷ w) ∷ ws

abbrev pub put_char : ℕ → Bytes × List Bytes → Bytes × List Bytes
put_char c (w, ws) = if is_whitespace c then ([], push_word w ws) else (c ∷ w, ws)

-- The word that a line starts with, and those behind it.
abbrev pub split_words : Bytes → Bytes × List Bytes
split_words [] = ([], [])
split_words (c ∷ line) = put_char c (split_words line)

abbrev pub split_whitespace : Bytes → List Bytes
split_whitespace line = push_word (split_words line).0 (split_words line).1

-- A tab, a line feed, a vertical tab, a form feed, a carriage return or a space.
abbrev pub Blank : ℕ → Type 0
Blank c = ((9 ≤ c) × (c ≤ 13)) ⊎ (c ≡ 32)

abbrev pub NoBlank : Bytes → Type 0
NoBlank [] = Unit {0}
NoBlank (c ∷ text) = (¬ Blank c) × NoBlank text

-- A word may end before these characters.
abbrev pub Ends : Bytes → Type 0
Ends [] = Unit {0}
Ends (c ∷ rest) = Blank c

-- The words of a line: what stands between its blanks.
pub data Words : Bytes → List Bytes → Type 0 where
  no_words : Words [] []
  blank : {c : ℕ} {line : Bytes} {ws : List Bytes} → Blank c → Words line ws → Words (c ∷ line) ws
  word :
      {c : ℕ} {text rest : Bytes} {ws : List Bytes}
      → NoBlank (c ∷ text)
      → Ends rest
      → Words rest ws
      → Words (c ∷ (text ++ rest)) ((c ∷ text) ∷ ws)

is_whitespace-Blank : (c : ℕ) → is_whitespace c ≡ true → Blank c
is_whitespace-Blank c e = elim (Bool-cases (c == 32)) [
  | inl h ↦ inr (ground (arith, h))
  | inr h ↦ inl (ground (arith, e, h), ground (arith, e, h))
]

is_whitespace-NoBlank : (c : ℕ) → is_whitespace c ≡ false → ¬ Blank c
is_whitespace-NoBlank c e (inl (lo, hi)) = ground (arith, e, lo, hi)
is_whitespace-NoBlank c e (inr h) = ground (arith, e, h)

-- The first word of a line, which may be empty, and those behind it.
record Cut (line w : Bytes) (ws : List Bytes) : Type 0 where
  pub rest : Bytes
  pub whole : line ≡ w ++ rest
  pub plain : NoBlank w
  pub ends : Ends rest
  pub behind : Words rest ws

Cut-Words : (line w : Bytes) (ws : List Bytes) → Cut line w ws → Words line (push_word w ws)
Cut-Words line [] ws cut = rw cut.whole cut.behind
Cut-Words line (c ∷ w) ws cut = rw cut.whole (word cut.plain cut.ends cut.behind)

split_words-Cut : (line : Bytes) → Cut line (split_words line).0 (split_words line).1
split_words-Cut [] = record { rest = []; whole = refl; plain = tt; ends = tt; behind = no_words }
split_words-Cut (c ∷ line) = elim (Bool-cases (is_whitespace c)) [
  | inl e ↦
      let b = is_whitespace-Blank c e in
      rw e (record {
        rest = c ∷ line;
        whole = refl;
        plain = tt;
        ends = b;
        behind = blank b (Cut-Words line _ _ (split_words-Cut line));
      })
  | inr e ↦
      let cut = split_words-Cut line in
      rw e (record {
        rest = cut.rest;
        whole = ap (c ∷◌) cut.whole;
        plain = (is_whitespace-NoBlank c e, cut.plain);
        ends = cut.ends;
        behind = cut.behind;
      })
]

-- The code finds the words of every line.
pub split_whitespace-Words : (line : Bytes) → Words line (split_whitespace line)
split_whitespace-Words line = Cut-Words line _ _ (split_words-Cut line)
