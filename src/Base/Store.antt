-- ===== src/Base/Store.antt =====
-- Memory: what stands at an address, `none` where nothing is allocated.
use Prim.Native.Nat.{ℕ}
use mathlib.Core.Path.{◌≡◌}
use mathlib.Core.Logic.{◌≢◌}
use mathlib.Core.Option.{Option}
use native.Mathlib.Omega.{arith}
use package.caligo_engine.Base.Tests.{◌==◌, if◌then◌else◌}

abbrev pub Store {ℓ} : Type ℓ → Type ℓ
Store A = ℕ → Option A

abbrev pub put {ℓ} : {A : Type ℓ} → ℕ → Option A → Store A → Store A
put at cell store = λ j. if j == at then cell else store j

pub put_self {ℓ} :
    {A : Type ℓ} (at : ℕ) (cell : Option A) (store : Store A) → put at cell store at ≡ cell
put_self at cell store = ground arith

pub put_other {ℓ} :
    {A : Type ℓ} (at j : ℕ) (cell : Option A) (store : Store A)
    → j ≢ at
    → put at cell store j ≡ store j
put_other at j cell store h = ground arith
