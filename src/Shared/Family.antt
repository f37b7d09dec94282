-- ===== src/Shared/Family.antt =====
-- A family of values over the numbers, and a change of one of them.
use Prim.Native.Nat.{ℕ}
use mathlib.Core.Path.{◌≡◌}
use mathlib.Core.Logic.{◌≢◌}
use native.Mathlib.Omega.{arith}
use safe_client_libs.Shared.Tests.{nat_beq, nat_beq_iff, if◌then◌else◌}

module _ {ℓ} {A : Type ℓ} where
  abbrev pub update : ℕ → A → (ℕ → A) → ℕ → A
  update i a f j = if nat_beq i j then a else f j

  pub update-same : (i : ℕ) (a : A) (f : ℕ → A) → update i a f i ≡ a
  update-same i a f = ground (arith, nat_beq_iff i i)

  pub update-other : (i j : ℕ) (a : A) (f : ℕ → A) → i ≢ j → update i a f j ≡ f j
  update-other i j a f ne = ground (arith, nat_beq_iff i j)
