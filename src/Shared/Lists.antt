-- ===== src/Shared/Lists.antt =====
-- Lists over the native numbers: lengths, positions and predicates on every item.
use Prim.Native.Nat.{ℕ, zero, suc, ◌+◌}
use mathlib.Core.Path.{◌≡◌}
use mathlib.Core.List.{List, [], ◌∷◌, ◌++◌}
use native.Mathlib.Omega.{arith}

module _ {ℓ} {A : Type ℓ} where
  abbrev pub length : List A → ℕ
  length [] = 0
  length (_ ∷ xs) = suc (length xs)

  pub length-append : (xs ys : List A) → length (xs ++ ys) ≡ length xs + length ys
  length-append [] ys = omega arith
  length-append (_ ∷ xs) ys = omega (arith, length-append xs ys)

  abbrev pub take : ℕ → List A → List A
  take zero xs = []
  take (suc n) [] = []
  take (suc n) (x ∷ xs) = x ∷ take n xs

abbrev pub All {ℓ κ} : {A : Type ℓ} → (A → Type κ) → List A → Type κ
All P [] = Unit
All P (x ∷ xs) = P x × All P xs

-- The first list is the second one, less some of its items.
pub data IsSublist {ℓ} {A : Type ℓ} : List A → List A → Type ℓ where
  nil : IsSublist [] []
  keep : {xs ys : List A} (x : A) → IsSublist xs ys → IsSublist (x ∷ xs) (x ∷ ys)
  skip : {xs ys : List A} (y : A) → IsSublist xs ys → IsSublist xs (y ∷ ys)

module _ {ℓ} {A : Type ℓ} where
  pub IsSublist-snoc :
      {xs ys : List A} (z : A) → IsSublist xs ys → IsSublist (xs ++ (z ∷ [])) (ys ++ (z ∷ []))
  IsSublist-snoc z nil = keep z nil
  IsSublist-snoc z (keep x h) = keep x (IsSublist-snoc z h)
  IsSublist-snoc z (skip y h) = skip y (IsSublist-snoc z h)

  pub IsSublist-skip_last :
      {xs ys : List A} (z : A) → IsSublist xs ys → IsSublist xs (ys ++ (z ∷ []))
  IsSublist-skip_last z nil = skip z nil
  IsSublist-skip_last z (keep x h) = keep x (IsSublist-skip_last z h)
  IsSublist-skip_last z (skip y h) = skip y (IsSublist-skip_last z h)
