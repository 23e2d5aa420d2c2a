-- ===== src/Recall/Tests.antt =====
-- Runs of the history, and the theorem on it at such inputs.
use jing_os.Base.{List, ◌≡◌, refl, [], ◌∷◌, none, some, bytes}
use jing_os.Line.Buffer.{append_str}
use jing_os.Line.Refine.{inserts}
use jing_os.Recall.Ring.{new, push_line, previous, next, entry_by_age}
use jing_os.Recall.Spec.{nothing}
use jing_os.Recall.Refine.{Event, enters, goes_older, goes_newer, run, run_spec, history_refines}

abbrev session : List Event
session =
    enters (inserts (bytes "ticks") ∷ [])
    ∷ enters (inserts (bytes "mem") ∷ [])
    ∷ enters (inserts (bytes "mem") ∷ [])
    ∷ enters []
    ∷ goes_older
    ∷ goes_older
    ∷ goes_older
    ∷ goes_newer
    ∷ goes_newer
    ∷ []

session_runs :
    (run session new).0
    ≡ some (bytes "mem")
      ∷ some (bytes "ticks")
      ∷ some (bytes "ticks")
      ∷ some (bytes "mem")
      ∷ none
      ∷ []
unfolding push_line append_str previous next entry_by_age
session_runs = refl

history_refines_example : (run session new).0 ≡ (run_spec session nothing).0
history_refines_example = (history_refines session).0
