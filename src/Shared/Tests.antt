-- ===== src/Shared/Tests.antt =====
-- Boolean tests on the native numbers, the conditional, and equality as an interface.
use Prim.Native.Nat.{ℕ, compare, Ordering}
use Prim.Native.String.{String, compare as compare_text}
use mathlib.Core.Path.{◌≡◌, refl}
use mathlib.Core.Logic.{◌⊎◌, inl, inr, ◌↔◌}
use mathlib.Core.Bool.{Bool, true, false}
use mathlib.Core.Option.{Option, none, some}
use native.Mathlib.Omega.{arith}
use text.Mathlib.Text.{find?}

abbrev pub ltb : ℕ → ℕ → Bool
ltb a b = elim (compare a b) [ Ordering.lt ↦ true | _ ↦ false ]

abbrev pub nat_beq : ℕ → ℕ → Bool
nat_beq a b = elim (compare a b) [ Ordering.eq ↦ true | _ ↦ false ]

infix 1 if◌then◌else◌
abbrev pub if◌then◌else◌ {ℓ} : {A : Type ℓ} → Bool → A → A → A
if true then x else _ = x
if false then _ else y = y

pub nat_beq_iff : (a b : ℕ) → (nat_beq a b ≡ true) ↔ (a ≡ b)
nat_beq_iff a b = (λ h. ground arith, λ h. ground arith)

pub Bool-cases : (b : Bool) → (b ≡ true) ⊎ (b ≡ false)
Bool-cases true = inl refl
Bool-cases false = inr refl

pub Option-cases {ℓ} : {A : Type ℓ} (o : Option A) → (o ≡ none) ⊎ ((a : A) × (o ≡ some a))
Option-cases none = inl refl
Option-cases (some a) = inr (a, refl)

abbrev pub is_some {ℓ} : {A : Type ℓ} → Option A → Bool
is_some none = false
is_some (some _) = true

-- Rust's `PartialEq`, with the law that derived instances have.
pub record PartialEq {ℓ} (R : Type ℓ) : Type ℓ where
  pub same : R → R → Bool
  pub same_iff : (r s : R) → (same r s ≡ true) ↔ (r ≡ s)

module _ {ℓ} {R : Type ℓ} ⦃e : PartialEq R⦄ where
  infix 50 ◌==◌
  abbrev pub ◌==◌ : R → R → Bool
  r == s = e.same r s

instance abbrev pub partial_eq_nat : PartialEq ℕ
partial_eq_nat = record { same_iff = nat_beq_iff; same = nat_beq }

-- Rust's `str::contains`.
abbrev pub contains_text : String → String → Bool
contains_text text piece = is_some (find? text piece)

abbrev pub same_text : String → String → Bool
same_text a b = elim (compare_text a b) [ Ordering.eq ↦ true | _ ↦ false ]
