-- ===== src/Monitor/Effects.antt =====
-- kernel/src/main.rs: `execute_command` keeps what each command promises.
use jing_os.Base.{◌≡◌, List, [], ◌∷◌, Bytes}
use jing_os.Monitor.Words.{Words}
use jing_os.Monitor.Commands.{World, Platform, Command, perform_command}
use jing_os.Monitor.Promised.{Promise}

-- Row by row, a table of commands keeps a table of promises.
abbrev Keeps : Platform → List (Bytes × Command) → List (Bytes × Promise) → Type 0
Keeps k [] [] = Unit {0}
Keeps k ((name, c) ∷ rows) ((name', p) ∷ promised) =
    (name ≡ name')
    × ((args : List Bytes) (w : World) → p args w (perform_command k c args w))
    × Keeps k rows promised
Keeps k _ _ = ⊥
