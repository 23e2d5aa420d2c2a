-- ===== src/Recall/Ring.antt =====
-- kernel/src/main.rs: `HistoryEntry` and `CommandHistory`. A method returns its answer with the history
-- after it.
use jing_os.Base.{
  ℕ, ◌+◌, ◌-◌, ◌%◌, min, Bool, false, Option, none, some, List, ltb, leb, ◌==◌, if◌then◌else◌,
  get_or, set, take, replicate, Bytes, str_eq,
}
use jing_os.Line.Buffer.{InputLine, input_line_max, copy_at, is_empty}
use jing_os.Line.Buffer

abbrev pub history_capacity : ℕ
history_capacity = 16

pub record HistoryEntry : Type 0 where
  pub bytes : Bytes
  pub len : ℕ

abbrev pub blank : HistoryEntry
blank = record { bytes = replicate input_line_max 0; len = 0 }

abbrev pub set_from_line : InputLine → HistoryEntry → HistoryEntry
set_from_line line e = record {
  bytes = copy_at 0 (take line.len line.bytes) e.bytes;
  len = line.len;
}

abbrev pub as_str : HistoryEntry → Bytes
as_str e = take e.len e.bytes

pub record CommandHistory : Type 0 where
  pub entries : List HistoryEntry
  pub len : ℕ
  pub next_insert : ℕ
  pub browsing_age : Option ℕ

abbrev pub new : CommandHistory
new = record {
  entries = replicate history_capacity blank;
  len = 0;
  next_insert = 0;
  browsing_age = none;
}

-- The slot of the line of an age.
abbrev pub index_of : ℕ → ℕ → ℕ
index_of next_insert age =
    let newest_index = (next_insert + history_capacity - 1) % history_capacity in
    (newest_index + history_capacity - age) % history_capacity

abbrev pub entry_at : CommandHistory → ℕ → HistoryEntry
entry_at h age = get_or h.entries (index_of h.next_insert age) blank

unfoldable pub entry_by_age : ℕ → CommandHistory → Option HistoryEntry
entry_by_age age h = if leb h.len age then none else some (entry_at h age)

abbrev pub is_entry : Bytes → Option HistoryEntry → Bool
is_entry line none = false
is_entry line (some entry) = str_eq (as_str entry) line

unfoldable pub push_line : InputLine → CommandHistory → CommandHistory
push_line line h =
    if is_empty line
    then h
    else (if is_entry (Buffer.as_str line) (entry_by_age 0 h)
        then record h { browsing_age = none }
        else record {
          entries =
              set h.entries h.next_insert
                (set_from_line line (get_or h.entries h.next_insert blank));
          len = if ltb h.len history_capacity then h.len + 1 else h.len;
          next_insert = (h.next_insert + 1) % history_capacity;
          browsing_age = none;
        })

abbrev pub next_age : Option ℕ → ℕ → ℕ
next_age none len = 0
next_age (some age) len = min (age + 1) (len - 1)

unfoldable pub previous : CommandHistory → Option HistoryEntry × CommandHistory
previous h =
    if h.len == 0
    then (none, h)
    else (let age = next_age h.browsing_age h.len in
        let after = record h { browsing_age = some age } in (entry_by_age age after, after))

unfoldable pub next : CommandHistory → Option HistoryEntry × CommandHistory
next h = elim h.browsing_age [
  | none ↦ (none, h)
  | some age ↦
      if age == 0
      then (none, record h { browsing_age = none })
      else (let after = record h { browsing_age = some (age - 1) } in
          (entry_by_age (age - 1) after, after))
]

abbrev pub reset_browsing : CommandHistory → CommandHistory
reset_browsing h = record h { browsing_age = none }
