-- ===== src/Line/Deletes.antt =====
-- kernel/src/main.rs: what takes characters out of the line.
use jing_os.Base.{
  ℕ, ◌+◌, ◌-◌, ◌≤◌, ◌<◌, ◌≡◌, refl, ◌∙◌, true, false, [], ltb, leb, ◌==◌, arith, Bool-cases, inl,
  inr,
}
use jing_os.Line.Buffer.{InputLine, shift_down, backspace, delete, delete_range}
use jing_os.Line.Shifts.{length-shift_down, get_or-shift_down}
use jing_os.Line.Spec.{replace, erase_left, erase_right}
use jing_os.Line.Edits.{IsValid, view, Agrees, refused, replaced, length-view}

-- Whatever lies between two positions is taken out by the bytes behind it moving down.
pub taken_out :
    (start end by n c : ℕ) (l : InputLine)
    → IsValid l
    → start < end
    → end ≤ l.len
    → by ≡ end - start
    → n ≡ l.len - by
    → c ≡ start
    → Agrees
        (true, record { bytes = shift_down by end (l.len - end) l.bytes; len = n; cursor = c })
        (replace start end [] (view l))
taken_out start end by n c l v h h' by' n' at =
    let k = l.len - end in
    replaced l (record { bytes = shift_down by end k l.bytes; len = n; cursor = c }) start end [] v
      (omega arith) h' (length-shift_down by end k l.bytes ∙ v.size) (omega arith)
      (omega (arith, v.fits)) (omega arith) refl
      (λ i q.
        rw
          (get_or-shift_down by end k l.bytes i (omega arith) (omega arith)
            (omega (arith, v.size, v.fits)))
          (elim (Bool-cases (ltb i start)) [
            | inl e ↦ ground arith
            | inr e ↦
                let low : start ≤ i = ground arith in
                let same : i + by ≡ end + (i - start - 0) = omega arith in ground (arith, same)
          ]))

pub backspace_refines : (l : InputLine) → IsValid l → Agrees (backspace l) (erase_left (view l))
unfolding backspace erase_left
backspace_refines l v = elim (Bool-cases (l.cursor == 0)) [
  | inl e ↦ rw e (refused l v)
  | inr e ↦
      let pos : 0 < l.cursor = ground arith in
      let s : l.cursor - 1 + 1 ≡ l.cursor = omega arith in
      rw (e, s)
        (taken_out (l.cursor - 1) l.cursor 1 (l.len - 1) (l.cursor - 1) l v (omega arith) v.inside
          (omega arith) refl refl)
]

pub delete_refines : (l : InputLine) → IsValid l → Agrees (delete l) (erase_right (view l))
unfolding delete erase_right
delete_refines l v = elim (Bool-cases (leb l.len l.cursor)) [
  | inl e ↦ rw (length-view l v, e) (refused l v)
  | inr e ↦
      let room : l.cursor < l.len = ground arith in
      rw (length-view l v, e)
        (taken_out l.cursor (l.cursor + 1) 1 (l.len - 1) l.cursor l v (omega arith) (omega arith)
          (omega arith) refl refl)
]

-- Between two positions of the line, the cursor behind none of what is taken out.
pub delete_range_refines :
    (start end c : ℕ) (l : InputLine)
    → IsValid l
    → start < end
    → end ≤ l.len
    → c ≡ start
    → Agrees
        (true, record (delete_range start end l) { cursor = c })
        (replace start end [] (view l))
unfolding delete_range
delete_range_refines start end c l v h h' at =
    let e : ((end - start) == 0) ≡ false = ground arith in
    rw e (taken_out start end (end - start) (l.len - (end - start)) c l v h h' refl refl at)
