-- ===== src/Host/Tests.antt =====
-- Runs of the launcher's code, and the theorems on src/main.rs at such inputs.
use jing_os.Base.{◌≡◌, refl, true, [], ◌∷◌, bytes}
use jing_os.Host.Forwarder.{received, closed, start, scan, forward}
use jing_os.Host.Marker.{forward_lem}

-- The marker arrives in two reads.
forward_runs :
    (forward
      (received (bytes "boot [[[JINGOS_") true
        ∷ received (bytes "MONITOR_READY]] jingos> ") true
        ∷ closed
        ∷ [])
      start).ready_sent
    ≡ true
unfolding forward scan
forward_runs = refl

forward_lem_example :
    (forward
      (received (bytes "boot [[[JINGOS_") true
        ∷ received (bytes "MONITOR_READY]] jingos> ") true
        ∷ closed
        ∷ [])
      start).ready_sent
    ≡ true
forward_lem_example =
    (forward_lem (
        received (bytes "boot [[[JINGOS_") true
        ∷ received (bytes "MONITOR_READY]] jingos> ") true
        ∷ closed
        ∷ [])).1.1
      (6, refl)
