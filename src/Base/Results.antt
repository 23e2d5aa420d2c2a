-- ===== src/Base/Results.antt =====
-- `core::result::Result`, with the bind of the `?` operator.
use mathlib.Core.Option.{Option, none, some}

pub data Result {ℓ κ} (A : Type ℓ) (E : Type κ) : Type (ℓ ⊔ κ) where
  ok : A → Result A E
  err : E → Result A E

infixl 5 ◌>>=◌
abbrev pub ◌>>=◌ {ℓ κ μ} :
    {A : Type ℓ} {B : Type κ} {E : Type μ} → Result A E → (A → Result B E) → Result B E
ok a >>= f = f a
err e >>= f = err e

-- `Option::ok_or`.
abbrev pub ok_or {ℓ κ} : {A : Type ℓ} {E : Type κ} → Option A → E → Result A E
ok_or none e = err e
ok_or (some a) e = ok a

-- `?` on the result of a call that changes a state: the next call, unless there was an error.
abbrev pub and_then {ℓ κ} :
    {S : Type ℓ} {E : Type κ}
    → Result (Unit {0}) E × S
    → (S → Result (Unit {0}) E × S)
    → Result (Unit {0}) E × S
and_then (ok u, s) f = f s
and_then (err e, s) f = (err e, s)
