-- ===== src/Connection/Election/Verdict.antt =====
-- What the count after a reply decides.
use mathlib.Core.List.{Permᴰ}
use safe_client_libs.Shared.{ℕ, ◌≤◌, ◌<◌, ◌≡◌, ◌≢◌, ◌⊎◌}
use safe_client_libs.Shared.{false, inl, inr, none, some, [], ◌∷◌, arith, All}
use safe_client_libs.Shared.{Bool-cases, ltb, PartialEq}
use safe_client_libs.Connection.Election.{VoteMap, Winner, threshold, votes, survey, verdict}
use safe_client_libs.Connection.Election.Tally.{
  total, AtMost, total-perm, All-perm, AtMost-perm, IsPopular, survey-none, survey-total,
  IsDistinct, entries_votes,
}

module _ {R : Type 0} ⦃e : PartialEq R⦄ (iterate : VoteMap R → VoteMap R)
    (visits : (m : VoteMap R) → Permᴰ m (iterate m)) where
  -- A walk over a map that is not empty finds an entry with the most votes.
  survey-iterate :
      (m : VoteMap R)
      → IsDistinct m
      → 0 < total m
      → (n : ℕ) × IsPopular
          (λ p. p.1 ≡ votes p.0 m)
          n
          (iterate m)
          (survey 0 (none, threshold) (iterate m)).1
  survey-iterate m d h =
      go (iterate m) (total-perm (visits m)) (All-perm _ (visits m) (entries_votes m d))
    where
      go :
          (m' : VoteMap R)
          → total m ≡ total m'
          → All (λ p. p.1 ≡ votes p.0 m) m'
          → (n : ℕ) × IsPopular (λ p. p.1 ≡ votes p.0 m) n m' (survey 0 (none, threshold) m').1
      go [] t hs = absurd (omega arith)
      go ((r, v) ∷ m') t (hv, hs) = (v, survey-none _ 0 threshold r v m' hv hs)

  survey-iterate-total : (m : VoteMap R) → (survey 0 (none, threshold) (iterate m)).0 ≡ total m
  survey-iterate-total m =
      omega (arith, survey-total 0 (none, threshold) (iterate m), total-perm (visits m))

  pub verdict_undecided :
      (elders : ℕ) (r : R) (m : VoteMap R)
      → votes r m ≤ threshold
      → total m ≢ elders
      → verdict iterate elders r m ≡ none
  unfolding verdict
  verdict_undecided elders r m h ne = ground (arith, survey-iterate-total m)

  pub verdict-eq-none :
      (elders : ℕ) (r : R) (m : VoteMap R)
      → verdict iterate elders r m ≡ none
      → (votes r m ≤ threshold) × (total m ≢ elders)
  unfolding verdict
  verdict-eq-none elders r m h = ground (arith, survey-iterate-total m)

  -- What a decision after counting `r` says of the map.
  pub verdict_decides :
      (elders : ℕ) (r : R) (m : VoteMap R) (w : Winner R)
      → IsDistinct m
      → 0 < total m
      → verdict iterate elders r m ≡ some w
      → (s : R) × (w.0 ≡ some s)
        × (w.1 ≡ votes s m)
        × ((threshold < w.1) ⊎ ((total m ≡ elders) × AtMost w.1 m))
  unfolding verdict
  verdict_decides elders r m w d h v =
      let (n, p) = survey-iterate m d h in
      elim (Bool-cases (ltb threshold (votes r m))) [
        | inl more ↦ (r, ground arith, ground arith, inl (ground arith))
        | inr less ↦ (
          p.response,
          ground arith,
          ground arith,
          inr (
            ground (arith, survey-iterate-total m),
            rw (← ended less) (AtMost-perm _ (visits m) p.most),
          ),
        )
      ]
    where
      ended : ltb threshold (votes r m) ≡ false → (survey 0 (none, threshold) (iterate m)).1 ≡ w
      ended less = ground arith
