-- ===== src/Common/Partial.antt =====
-- Chains of steps that may have no result.
use mathlib.Core.Option.{Option, none, some}

infixl 5 ◌>>=◌
abbrev pub ◌>>=◌ {ℓ κ} :
    {Found : Type ℓ} {Next : Type κ} → Option Found → (Found → Option Next) → Option Next
none >>= next = none
some found >>= next = next found
