-- ===== src/Host/Marker.antt =====
-- src/main.rs: the forwarder signals exactly if the marker occurs in what it forwarded.
use jing_os.Base.{
  ℕ, zero, suc, ◌+◌, ◌-◌, ◌≤◌, ◌≡◌, refl, sym, ap, ◌∙◌, ◌↔◌, inl, inr, Bool, true, false, List, [],
  ◌∷◌, ◌++◌, Bytes, str_eq, str_eq→eq, length, length-append, append_assoc, append-nil, length-take,
  length-drop, take, drop, leb, ◌==◌, arith, Bool-cases,
}
use jing_os.Host.Forwarder.{
  serial_monitor_ready_marker, Read, received, closed, failed, Forwarder, start, push_window, scan,
  after_scan, forward_bytes, forward, stream,
}

drop-append : (n : ℕ) (xs ys : Bytes) → n ≤ length xs → drop n (xs ++ ys) ≡ drop n xs ++ ys
drop-append zero xs ys h = refl
drop-append (suc n) [] ys h = absurd (omega (arith, h))
drop-append (suc n) (x ∷ xs) ys h = drop-append n xs ys (omega (arith, h))

take-append : (n : ℕ) (xs ys : Bytes) → n ≤ length xs → take n (xs ++ ys) ≡ take n xs
take-append zero xs ys h = refl
take-append (suc n) [] ys h = absurd (omega (arith, h))
take-append (suc n) (x ∷ xs) ys h = ap (λ l. x ∷ l) (take-append n xs ys (omega (arith, h)))

take_all : (n : ℕ) (xs : Bytes) → length xs ≤ n → take n xs ≡ xs
take_all zero [] h = refl
take_all (suc n) [] h = refl
take_all zero (x ∷ xs) h = absurd (omega (arith, h))
take_all (suc n) (x ∷ xs) h = ap (λ l. x ∷ l) (take_all n xs (omega (arith, h)))

drop-drop_one : (n : ℕ) (xs : Bytes) → drop 1 (drop n xs) ≡ drop (suc n) xs
drop-drop_one zero xs = refl
drop-drop_one (suc n) [] = refl
drop-drop_one (suc n) (x ∷ xs) = drop-drop_one n xs

-- The marker stands in the text from an index on.
abbrev pub Occurs : Bytes → Type 0
Occurs text = (i : ℕ) × (take 24 (drop i text) ≡ serial_monitor_ready_marker)

-- The last 24 bytes, or all there are.
abbrev pub last : Bytes → Bytes
last text = drop (length text - 24) text

push_window-last : (b : ℕ) (text : Bytes) → push_window b (last text) ≡ last (text ++ (b ∷ []))
push_window-last b text =
    let n = length text in
    let e : length (last text) ≡ n - (n - 24) = length-drop (n - 24) text in
    let total : length (text ++ (b ∷ [])) ≡ n + 1 = length-append text (b ∷ []) in
    elim (Bool-cases (length (last text) == 24)) [
      | inl q ↦
          let few : n + 1 - 24 ≡ suc (n - 24) = ground (arith, q, e) in
          rw (q, total, few)
            (ap (λ l. l ++ (b ∷ [])) (drop-drop_one (n - 24) text)
              ∙ sym (drop-append (suc (n - 24)) text (b ∷ []) (ground (arith, q, e))))
      | inr q ↦
          let none_dropped : n - 24 ≡ 0 = ground (arith, q, e) in
          let none_dropped' : n + 1 - 24 ≡ 0 = ground (arith, q, e) in
          rw (q, total, none_dropped, none_dropped') refl
    ]

-- An occurrence leaves room for the marker.
occurs_room :
    (text : Bytes) (i : ℕ)
    → take 24 (drop i text) ≡ serial_monitor_ready_marker
    → i + 24 ≤ length text
occurs_room text i e =
    let size : length (take 24 (drop i text)) ≡ 24 = ap length e in
    omega (arith, size, length-take 24 (drop i text), length-drop i text)

Occurs-append : (xs ys : Bytes) → Occurs xs → Occurs (xs ++ ys)
Occurs-append xs ys (i, e) =
    let room = occurs_room xs i e in
    (
      i,
      ap (take 24) (drop-append i xs ys (omega (arith, room)))
          ∙ take-append 24 (drop i xs) ys (omega (arith, room, length-drop i xs))
          ∙ e,
    )

-- The marker is the last 24 bytes.
last-Occurs : (text : Bytes) → str_eq (last text) serial_monitor_ready_marker ≡ true → Occurs text
last-Occurs text e =
    let same = str_eq→eq (last text) serial_monitor_ready_marker e in
    (length text - 24, ap (take 24) same)

not_yet-Occurs :
    (text : Bytes) (b : ℕ)
    → ¬ Occurs text
    → str_eq (last (text ++ (b ∷ []))) serial_monitor_ready_marker ≡ false
    → ¬ Occurs (text ++ (b ∷ []))
not_yet-Occurs text b none_before ne (i, e) =
    let text' = text ++ (b ∷ []) in
    let room = occurs_room text' i e in
    let total : length text' ≡ length text + 1 = length-append text (b ∷ []) in
    elim (Bool-cases (leb (i + 24) (length text))) [
      | inl q ↦
          let fits : i + 24 ≤ length text = ground (arith, q) in
          none_before (
            i,
            sym (take-append 24 (drop i text) (b ∷ []) (omega (arith, fits, length-drop i text)))
                ∙ ap (take 24) (sym (drop-append i text (b ∷ []) (omega (arith, fits))))
                ∙ e,
          )
      | inr q ↦
          let at_end : i ≡ length text' - 24 = ground (arith, q, room, total) in
          let whole : take 24 (drop i text') ≡ drop i text' =
            take_all 24 (drop i text') (omega (arith, length-drop i text', room, total, at_end)) in
          let same : last text' ≡ serial_monitor_ready_marker =
            ap (λ j. drop j text') (sym at_end) ∙ sym whole ∙ e in
          let yes : str_eq (last text') serial_monitor_ready_marker ≡ true =
            ap (λ l. str_eq l serial_monitor_ready_marker) same in
          let wrong : false ≡ true = sym ne ∙ yes in ground (arith, wrong)
    ]

-- What the loop over a chunk leaves, after the text before it.
abbrev Scanned : Bytes → Bytes × Bool → Type 0
Scanned text (window, true) = Occurs text
Scanned text (window, false) = (window ≡ last text) × ¬ Occurs text

scan_lem : (rest text : Bytes) → ¬ Occurs text → Scanned (text ++ rest) (scan rest (last text))
unfolding scan
scan_lem [] text h = rw (append-nil text) (refl, h)
scan_lem (b ∷ rest) text h =
    let text' = text ++ (b ∷ []) in
    let split : text ++ (b ∷ rest) ≡ text' ++ rest = sym (append_assoc text (b ∷ []) rest) in
    elim (Bool-cases (str_eq (last text') serial_monitor_ready_marker)) [
      | inl e ↦
          rw (split, push_window-last b text, e) (Occurs-append text' rest (last-Occurs text' e))
      | inr e ↦
          rw (split, push_window-last b text, e) (scan_lem rest text' (not_yet-Occurs text b h e))
    ]

-- The thread after a text.
abbrev Tracks : Bytes → Forwarder → Type 0
Tracks text f = (f.host_stdout ≡ text) × Scanned text (f.marker_window, f.ready_sent)

after_scan_lem :
    (text out window : Bytes) (r : Bytes × Bool)
    → Scanned text r
    → out ≡ text
    → Tracks text
        (after_scan (record { host_stdout = out; marker_window = window; ready_sent = false }) r)
after_scan_lem text out window (w, true) s e = (e, s)
after_scan_lem text out window (w, false) s e = (e, s)

forward_bytes_lem :
    (text chunk out window : Bytes) (ready : Bool)
    → Tracks text (record { host_stdout = out; marker_window = window; ready_sent = ready })
    → Tracks (text ++ chunk) (
        forward_bytes chunk
          (record { host_stdout = out; marker_window = window; ready_sent = ready }))
forward_bytes_lem text chunk out window true (e, occurs) =
    (ap (λ t. t ++ chunk) e, Occurs-append text chunk occurs)
forward_bytes_lem text chunk out window false (e, (w, h)) =
    after_scan_lem (text ++ chunk) (out ++ chunk) window (scan chunk window)
      (rw w (scan_lem chunk text h)) (ap (λ t. t ++ chunk) e)

forward_from :
    (reads : List Read) (text : Bytes) (f : Forwarder)
    → Tracks text f
    → Tracks (text ++ stream reads) (forward reads f)
unfolding forward
forward_from [] text f h = rw (append-nil text) h
forward_from (closed ∷ reads) text f h = rw (append-nil text) h
forward_from (failed ∷ reads) text f h = rw (append-nil text) h
forward_from (received chunk false ∷ reads) text f h = rw (append-nil text) h
forward_from (received chunk true ∷ reads) text f h =
    let split : text ++ (chunk ++ stream reads) ≡ (text ++ chunk) ++ stream reads =
      sym (append_assoc text chunk (stream reads)) in
    rw split (
      forward_from reads (text ++ chunk) (forward_bytes chunk f)
        (forward_bytes_lem text chunk f.host_stdout f.marker_window f.ready_sent h))

ready_iff :
    (text window : Bytes) (ready : Bool)
    → Scanned text (window, ready)
    → (ready ≡ true) ↔ Occurs text
ready_iff text window true s = ((λ e. s), (λ o. refl))
ready_iff text window false (w, h) = ((λ e. ground (arith, e)), (λ o. absurd (h o)))

empty_text : ¬ Occurs []
empty_text (i, e) = let room = occurs_room [] i e in omega (arith, room)

-- However the output of the emulator is cut into reads, and wherever the reads or the writes end: the
-- host gets exactly the bytes that came through, and the script thread is signalled exactly if the
-- marker occurs in them.
pub forward_lem :
    (reads : List Read)
    → ((forward reads start).host_stdout ≡ stream reads)
      × (((forward reads start).ready_sent ≡ true) ↔ Occurs (stream reads))
forward_lem reads =
    let (out, scanned) = forward_from reads [] start (refl, (refl, empty_text)) in
    (
      out,
      ready_iff (stream reads) (forward reads start).marker_window (forward reads start).ready_sent
          scanned,
    )
