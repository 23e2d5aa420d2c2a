-- ===== src/Host/Forwarder.antt =====
-- src/main.rs: the thread of `spawn_serial_output_forwarder`. What its reads of the emulator's output and its
-- writes to the host's give is an argument.
use jing_os.Base.{
  ℕ, Bool, true, false, List, [], ◌∷◌, ◌++◌, Bytes, bytes, str_eq, length, drop, ◌==◌,
  if◌then◌else◌,
}

abbrev pub serial_monitor_ready_marker : Bytes
serial_monitor_ready_marker = bytes "[[JINGOS_MONITOR_READY]]"

-- A turn of the loop: the bytes read and whether they could be written, the end, or an error.
pub data Read : Type 0 where
  received : Bytes → Bool → Read
  closed failed : Read

-- The bytes written to the host, the window, and whether the channel was signalled.
pub record Forwarder : Type 0 where
  pub host_stdout : Bytes
  pub marker_window : Bytes
  pub ready_sent : Bool

abbrev pub start : Forwarder
start = record { host_stdout = []; marker_window = []; ready_sent = false }

abbrev pub push_window : ℕ → Bytes → Bytes
push_window byte window =
    (if length window == length serial_monitor_ready_marker then drop 1 window else window)
    ++ (byte ∷ [])

-- The loop over the bytes read, which ends with the marker: the window, and whether it was seen.
unfoldable pub scan : Bytes → Bytes → Bytes × Bool
scan [] window = (window, false)
scan (byte ∷ rest) window =
    let window' = push_window byte window in
    let further = scan rest window' in
    if str_eq window' serial_monitor_ready_marker then (window', true) else further

abbrev pub after_scan : Forwarder → Bytes × Bool → Forwarder
after_scan f (window, seen) = record f { marker_window = window; ready_sent = seen }

abbrev pub forward_bytes : Bytes → Forwarder → Forwarder
forward_bytes chunk f =
    let f' = record f { host_stdout = f.host_stdout ++ chunk } in
    if f.ready_sent then f' else after_scan f' (scan chunk f.marker_window)

unfoldable pub forward : List Read → Forwarder → Forwarder
forward [] f = f
forward (closed ∷ reads) f = f
forward (failed ∷ reads) f = f
forward (received chunk false ∷ reads) f = f
forward (received chunk true ∷ reads) f = forward reads (forward_bytes chunk f)

-- The bytes that come through before the loop ends.
abbrev pub stream : List Read → Bytes
stream [] = []
stream (closed ∷ reads) = []
stream (failed ∷ reads) = []
stream (received chunk false ∷ reads) = []
stream (received chunk true ∷ reads) = chunk ++ stream reads
