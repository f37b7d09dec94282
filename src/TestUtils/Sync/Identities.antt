-- ===== src/TestUtils/Sync/Identities.antt =====
-- Lists of identities: what is in them, and what is left when one is removed.
use safe_client_libs.Shared.{
  ℕ, ◌≤◌, ◌<◌, ◌≡◌, ◌≢◌, ◌⊎◌, inl, inr, refl, ap, ◌∙◌, Option, none, some, List, [], ◌∷◌, ◌++◌,
  arith, nat_beq, nat_beq_iff, Bool-cases, All, if◌then◌else◌,
}
use safe_client_libs.TestUtils.Sync.{position, one_more, remove_at, remove_found}

abbrev pub Has : ℕ → List ℕ → Type 0
Has x [] = ⊥
Has x (y ∷ ys) = (x ≡ y) ⊎ Has x ys

abbrev pub AreDistinct : List ℕ → Type 0
AreDistinct [] = Unit
AreDistinct (x ∷ xs) = All (λ y. x ≢ y) xs × AreDistinct xs

-- The list without the first item that is this one.
abbrev pub without : ℕ → List ℕ → List ℕ
without id [] = []
without id (x ∷ xs) = if nat_beq x id then xs else x ∷ without id xs

pub remove_found-suc :
    (x : ℕ) (xs : List ℕ) (o : Option ℕ)
    → remove_found (one_more o) (x ∷ xs) ≡ x ∷ remove_found o xs
unfolding remove_at
remove_found-suc x xs none = refl
remove_found-suc x xs (some index) = refl

pub remove_found-position :
    (id : ℕ) (xs : List ℕ) → remove_found (position id xs) xs ≡ without id xs
unfolding position remove_at
remove_found-position id [] = refl
remove_found-position id (x ∷ xs) = elim (Bool-cases (nat_beq x id)) [
  | inl e ↦ rw e refl
  | inr e ↦
      rw e
        (remove_found-suc x xs (position id xs) ∙ ap (λ ys. x ∷ ys) (remove_found-position id xs))
]

pub All-without : (P : ℕ → Type 0) (id : ℕ) (xs : List ℕ) → All P xs → All P (without id xs)
All-without P id [] h = h
All-without P id (x ∷ xs) (p, h) = elim (Bool-cases (nat_beq x id)) [
  | inl e ↦ rw e h
  | inr e ↦ rw e (p, All-without P id xs h)
]

pub AreDistinct-without : (id : ℕ) (xs : List ℕ) → AreDistinct xs → AreDistinct (without id xs)
AreDistinct-without id [] h = h
AreDistinct-without id (x ∷ xs) (p, h) = elim (Bool-cases (nat_beq x id)) [
  | inl e ↦ rw e h
  | inr e ↦ rw e (All-without _ id xs p, AreDistinct-without id xs h)
]

pub Has-without : (id x : ℕ) (xs : List ℕ) → x ≢ id → Has x xs → Has x (without id xs)
Has-without id x [] other h = h
Has-without id x (y ∷ ys) other h = elim (Bool-cases (nat_beq y id)) [
  | inl e ↦
      rw e
        (elim h [ inl same ↦ absurd (other (same ∙ (nat_beq_iff y id).0 e)) | inr there ↦ there ])
  | inr e ↦
      rw e (elim h [ inl same ↦ inl same | inr there ↦ inr (Has-without id x ys other there) ])
]

pub All-snoc : (P : ℕ → Type 0) (x : ℕ) (xs : List ℕ) → All P xs → P x → All P (xs ++ (x ∷ []))
All-snoc P x [] h p = (p, tt)
All-snoc P x (y ∷ ys) (q, h) p = (q, All-snoc P x ys h p)

pub AreDistinct-snoc :
    (x : ℕ) (xs : List ℕ) → AreDistinct xs → All (λ y. y < x) xs → AreDistinct (xs ++ (x ∷ []))
AreDistinct-snoc x [] h less = (tt, tt)
AreDistinct-snoc x (y ∷ ys) (p, h) (q, less) =
    (All-snoc _ x ys p (omega arith), AreDistinct-snoc x ys h less)

pub Has-snoc : (x : ℕ) (xs : List ℕ) → Has x (xs ++ (x ∷ []))
Has-snoc x [] = inl refl
Has-snoc x (y ∷ ys) = inr (Has-snoc x ys)

pub All-weaken : (n m : ℕ) (xs : List ℕ) → n ≤ m → All (λ y. y < n) xs → All (λ y. y < m) xs
All-weaken n m [] le h = h
All-weaken n m (x ∷ xs) le (p, h) = (omega arith, All-weaken n m xs le h)
