-- ===== src/Interrupts/Scancodes.antt =====
-- kernel/src/interrupts.rs: `ScancodeBuffer`. The array `entries` is a list, of `buffer_size` bytes
-- in a valid buffer. `dropped += 1` is taken to wrap, as in a release build.
use jing_os.Base.{
  ℕ, ◌+◌, ◌-◌, ◌%◌, ◌^◌, min, Bool, ◌||◌, Option, none, some, List, ltb, leb, ◌==◌, if◌then◌else◌,
  get_or, set, replicate,
}

abbrev pub buffer_size : ℕ
buffer_size = 128

pub record ScancodeBuffer : Type 0 where
  pub entries : List ℕ
  pub read_index : ℕ
  pub write_index : ℕ
  pub len : ℕ
  pub dropped : ℕ

abbrev pub new : ScancodeBuffer
new = record {
  entries = replicate buffer_size 0;
  read_index = 0;
  write_index = 0;
  len = 0;
  dropped = 0;
}

-- The repair that `push` and `pop` begin with.
abbrev pub is_out_of_range : ScancodeBuffer → Bool
is_out_of_range b =
    leb buffer_size b.write_index || leb buffer_size b.read_index || ltb buffer_size b.len

unfoldable pub repair : ScancodeBuffer → ScancodeBuffer
repair b =
    if is_out_of_range b
    then record b {
      write_index = b.write_index % buffer_size;
      read_index = b.read_index % buffer_size;
      len = min b.len buffer_size;
    }
    else b

abbrev pub store : ℕ → ScancodeBuffer → ScancodeBuffer
store scancode b =
    if b.len == buffer_size then record b { dropped = (b.dropped + 1) % 2 ^ 64 } else record b {
      entries = set b.entries b.write_index scancode;
      write_index = (b.write_index + 1) % buffer_size;
      len = b.len + 1;
    }

unfoldable pub push : ℕ → ScancodeBuffer → ScancodeBuffer
push scancode b = store scancode (repair b)

abbrev pub fetch : ScancodeBuffer → Option ℕ × ScancodeBuffer
fetch b = if b.len == 0 then (none, b) else (
  some (get_or b.entries b.read_index 0),
  record b { read_index = (b.read_index + 1) % buffer_size; len = b.len - 1 },
)

unfoldable pub pop : ScancodeBuffer → Option ℕ × ScancodeBuffer
pop b = fetch (repair b)
