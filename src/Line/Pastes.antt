-- ===== src/Line/Pastes.antt =====
-- kernel/src/main.rs: the insertion of a text, and the replacement of the whole line.
use jing_os.Base.{
  ◌+◌, ◌-◌, ◌≤◌, ◌≡◌, refl, ◌∙◌, true, false, not, ◌&&◌, ◌||◌, ltb, leb, length, Bytes, arith,
  Bool-cases, inl, inr,
}
use jing_os.Line.Buffer.{InputLine, str_is_ascii, shift_up, copy_at, append_str, set_from_str}
use jing_os.Line.Shifts.{length-shift_up, length-copy_at, get_or-shift_up, get_or-copy_at}
use jing_os.Line.Spec.{insert_text, replace_all}
use jing_os.Line.Edits.{IsValid, view, Agrees, refused, replaced, length-view}

pub append_str_refines :
    (s : Bytes) (l : InputLine) → IsValid l → Agrees (append_str s l) (insert_text s (view l))
unfolding append_str insert_text
append_str_refines s l v = elim (Bool-cases (str_is_ascii s && leb (l.len + length s) 128)) [
  | inl e ↦
      let t : (not (str_is_ascii s) || ltb 128 (l.len + length s)) ≡ false = ground arith in
      let n = length s in
      let k = l.len - l.cursor in
      let b = shift_up n l.cursor k l.bytes in
      let size = length-shift_up n l.cursor k l.bytes in
      let room : l.len + n ≤ 128 = ground arith in
      rw (v.size, length-view l v, t, e)
        (replaced l
          (record { bytes = copy_at l.cursor s b; len = l.len + n; cursor = l.cursor + n }) l.cursor
          l.cursor s v (omega arith) v.inside (length-copy_at l.cursor s b ∙ size ∙ v.size)
          (omega arith) room refl (ground arith)
          (λ i h.
            rw
              (
                get_or-copy_at l.cursor s b i (omega (arith, size, v.size, v.inside)),
                get_or-shift_up n l.cursor k l.bytes i (omega (arith, v.size, v.inside)),
              )
              (ground (arith, v.inside))))
  | inr e ↦
      let t : (not (str_is_ascii s) || ltb 128 (l.len + length s)) ≡ true = ground arith in
      rw (v.size, length-view l v, t, e) (refused l v)
]

pub set_from_str_refines :
    (s : Bytes) (l : InputLine) → IsValid l → Agrees (set_from_str s l) (replace_all s (view l))
unfolding set_from_str replace_all
set_from_str_refines s l v = elim (Bool-cases (str_is_ascii s && leb (length s) 128)) [
  | inl e ↦
      let t : (not (str_is_ascii s) || ltb 128 (length s)) ≡ false = ground arith in
      let room : length s ≤ 128 = ground arith in
      rw (v.size, length-view l v, t, e)
        (replaced l (record { bytes = copy_at 0 s l.bytes; len = length s; cursor = length s }) 0
          l.len s v (omega arith) (omega arith) (length-copy_at 0 s l.bytes ∙ v.size) (omega arith)
          room (omega arith) (ground arith)
          (λ i h. rw (get_or-copy_at 0 s l.bytes i (omega (arith, v.size))) (ground arith)))
  | inr e ↦
      let t : (not (str_is_ascii s) || ltb 128 (length s)) ≡ true = ground arith in
      rw (v.size, length-view l v, t, e) (refused l v)
]
