-- ===== src/Prelude/Chain.antt =====
-- Chains of fallible steps: `?` on `Option`s, for `do` blocks.
use mathlib.Core.Bool.{Bool, true, false}
use mathlib.Core.Option.{Option, none, some}

infixl 5 ◌>>=◌ ◌>>◌
abbrev pub ◌>>=◌ {ℓ κ} : {A : Type ℓ} {B : Type κ} → Option A → (A → Option B) → Option B
some a >>= rest = rest a
none >>= rest = none

abbrev pub ◌>>◌ {ℓ} : {B : Type ℓ} → Option (Unit {0}) → Option B → Option B
step >> rest = step >>= λ _. rest

-- `ensure!`
abbrev pub ensure : Bool → Option (Unit {0})
ensure true = some tt
ensure false = none
