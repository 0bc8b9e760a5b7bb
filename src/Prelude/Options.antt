-- ===== src/Prelude/Options.antt =====
-- Sequencing of calls that may give nothing.
use mathlib.Core.Bool.{Bool, true, false}
use mathlib.Core.Option.{Option, none, some}

infixl 5 ◌>>=◌
abbrev pub ◌>>=◌ {ℓ κ} : {A : Type ℓ} {B : Type κ} → Option A → (A → Option B) → Option B
none >>= k = none
some a >>= k = k a

-- A test that ends the run where it fails.
abbrev pub require : Bool → Option (Unit {0})
require true = some tt
require false = none
