-- ===== src/Prelude/Results.antt =====
-- How a Go call ends: with a value, with an error, or with a run-time panic.
use mathlib.Core.Option.{Option, none, some}

-- `none` is a panic of the Go run time: an index or a slice out of range, a division by zero.
infixl 5 ◌>>=◌ ◌>>◌
abbrev pub ◌>>=◌ {ℓ κ} : {A : Type ℓ} {B : Type κ} → Option A → (A → Option B) → Option B
none >>= f = none
some a >>= f = f a

abbrev pub ◌>>◌ {ℓ κ} : {A : Type ℓ} {B : Type κ} → Option A → Option B → Option B
m >> k = m >>= λ _. k
