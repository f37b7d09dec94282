-- ===== src/Connection/Election/Tally.antt =====
-- The vote map as a tally: what counting a response changes, and what the walk over the map finds.
use mathlib.Core.Path.{subst}
use mathlib.Core.List.{Permᴰ}
use safe_client_libs.Shared.{ℕ, ◌+◌, ◌≤◌, ◌≡◌, refl, ap, ◌∙◌, false, inl, inr}
use safe_client_libs.Shared.{none, some, List, [], ◌∷◌, arith, All, Bool-cases}
use safe_client_libs.Shared.{ltb, if◌then◌else◌, PartialEq, ◌==◌}
use safe_client_libs.Connection.Election.{VoteMap, Winner, add_vote, votes, popular, survey}

-- The votes in a map.
abbrev pub total {ℓ} : {R : Type ℓ} → List (R × ℕ) → ℕ
total [] = 0
total ((_, n) ∷ m) = n + total m

abbrev pub AtMost {ℓ} : {R : Type ℓ} → ℕ → List (R × ℕ) → Type 0
AtMost k [] = Unit
AtMost k ((_, n) ∷ m) = (n ≤ k) × AtMost k m

module _ {R : Type 0} where
  pub total-perm : {m m' : VoteMap R} → Permᴰ m m' → total m ≡ total m'
  total-perm Permᴰ.nil = refl
  total-perm (Permᴰ.cons e d) = omega (arith, ap (λ (p : R × ℕ). p.1) e, total-perm d)
  total-perm (Permᴰ.swap e f) = omega (arith, ap (λ (p : R × ℕ). p.1) e, ap (λ (p : R × ℕ). p.1) f)
  total-perm (Permᴰ.trans d d') = total-perm d ∙ total-perm d'

  pub All-perm : (P : R × ℕ → Type 0) {m m' : VoteMap R} → Permᴰ m m' → All P m → All P m'
  All-perm P Permᴰ.nil h = h
  All-perm P (Permᴰ.cons e d) (h, hs) = (subst P e h, All-perm P d hs)
  All-perm P (Permᴰ.swap e f) (h, (h', hs)) = (subst P f h', (subst P e h, hs))
  All-perm P (Permᴰ.trans d d') h = All-perm P d' (All-perm P d h)

  pub AtMost-perm : (k : ℕ) {m m' : VoteMap R} → Permᴰ m m' → AtMost k m' → AtMost k m
  AtMost-perm k Permᴰ.nil h = h
  AtMost-perm k (Permᴰ.cons e d) (h, hs) =
      (omega (arith, ap (λ (p : R × ℕ). p.1) e), AtMost-perm k d hs)
  AtMost-perm k (Permᴰ.swap e f) (h, (h', hs)) =
      (omega (arith, ap (λ (p : R × ℕ). p.1) e), (omega (arith, ap (λ (p : R × ℕ). p.1) f), hs))
  AtMost-perm k (Permᴰ.trans d d') h = AtMost-perm k d (AtMost-perm k d' h)

  -- What a walk that began at `(some r, n)` ends with: an entry that satisfies what all of them
  -- satisfy, with no fewer votes than any other.
  pub record IsPopular (P : R × ℕ → Type 0) (n : ℕ) (m : VoteMap R) (w : Winner R) : Type 0 where
    pub response : R
    pub is_response : w.0 ≡ some response
    pub holds : P (response, w.1)
    pub start : n ≤ w.1
    pub most : AtMost w.1 m

  AtMost-weaken : (j k : ℕ) (m : VoteMap R) → j ≤ k → AtMost j m → AtMost k m
  AtMost-weaken j k [] h a = tt
  AtMost-weaken j k (_ ∷ m) h (a, below) = (omega arith, AtMost-weaken j k m h below)

  IsPopular-cons :
      (P : R × ℕ → Type 0) (n k v : ℕ) (s : R) (m : VoteMap R) (w : Winner R)
      → n ≤ k
      → v ≤ k
      → IsPopular P k m w
      → IsPopular P n ((s, v) ∷ m) w
  IsPopular-cons P n k v s m w h g p = record {
    response = p.response;
    is_response = p.is_response;
    holds = p.holds;
    start = omega (arith, p.start);
    most = (omega (arith, p.start), p.most);
  }

  pub survey-IsPopular :
      (P : R × ℕ → Type 0) (t n : ℕ) (r : R) (m : VoteMap R)
      → P (r, n)
      → All P m
      → IsPopular P n m (survey t (some r, n) m).1
  unfolding survey
  survey-IsPopular P t n r [] h hs = record {
    response = r;
    is_response = refl;
    holds = h;
    start = omega arith;
    most = tt;
  }
  survey-IsPopular P t n r ((s, v) ∷ m) h (hv, hs) = elim (Bool-cases (ltb n v)) [
    | inl more ↦
        rw (more, survey)
          (IsPopular-cons P n v v s m _ (ground arith) (omega arith)
            (survey-IsPopular P (t + v) v s m hv hs))
    | inr less ↦
        rw (less, survey)
          (IsPopular-cons P n n v s m _ (omega arith) (ground arith)
            (survey-IsPopular P (t + v) n r m h hs))
  ]

  -- The walk adds up all votes.
  pub survey-total : (t : ℕ) (w : Winner R) (m : VoteMap R) → (survey t w m).0 ≡ t + total m
  unfolding survey
  survey-total t w [] = omega arith
  survey-total t w ((s, v) ∷ m) = omega (arith, survey-total (t + v) (popular w (s, v)) m)

  -- From no response the walk takes the first entry, whatever the votes that it starts with.
  pub survey-none :
      (P : R × ℕ → Type 0) (t k : ℕ) (r : R) (v : ℕ) (m : VoteMap R)
      → P (r, v)
      → All P m
      → IsPopular P v ((r, v) ∷ m) (survey t (none, k) ((r, v) ∷ m)).1
  unfolding survey
  survey-none P t k r v m h hs = elim (Bool-cases (ltb v v)) [
    | inl more ↦ absurd (ground arith)
    | inr same ↦
        rw (same, survey)
          (IsPopular-cons P v v v r m _ (omega arith) (omega arith)
            (survey-IsPopular P (t + v) v r m h hs))
  ]

module _ {R : Type 0} ⦃e : PartialEq R⦄ where
  pub votes-add_vote :
      (r s : R) (m : VoteMap R)
      → votes s (add_vote r m) ≡ (if r == s then votes s m + 1 else votes s m)
  unfolding votes add_vote
  votes-add_vote r s [] = ground arith
  votes-add_vote r s ((k, n) ∷ m) =
      ground (arith, e.same_iff k r, e.same_iff k s, e.same_iff r s, votes-add_vote r s m)

  pub total-add_vote : (r : R) (m : VoteMap R) → total (add_vote r m) ≡ total m + 1
  unfolding add_vote
  total-add_vote r [] = refl
  total-add_vote r ((k, n) ∷ m) = ground (arith, total-add_vote r m)

  -- No entry has this key.
  abbrev pub IsFresh : R → VoteMap R → Type 0
  IsFresh s [] = Unit
  IsFresh s ((k, _) ∷ m) = ((s == k) ≡ false) × IsFresh s m

  -- The keys of a hash map are distinct.
  abbrev pub IsDistinct : VoteMap R → Type 0
  IsDistinct [] = Unit
  IsDistinct ((k, _) ∷ m) = IsFresh k m × IsDistinct m

  add_vote-IsFresh :
      (s r : R) (m : VoteMap R) → (s == r) ≡ false → IsFresh s m → IsFresh s (add_vote r m)
  unfolding add_vote
  add_vote-IsFresh s r [] h f = (h, tt)
  add_vote-IsFresh s r ((k, n) ∷ m) h (f, fs) = ground (arith, add_vote-IsFresh s r m h fs)

  pub add_vote-IsDistinct : (r : R) (m : VoteMap R) → IsDistinct m → IsDistinct (add_vote r m)
  unfolding add_vote
  add_vote-IsDistinct r [] d = (tt, tt)
  add_vote-IsDistinct r ((k, n) ∷ m) (f, d) =
      ground (arith, add_vote-IsDistinct r m d, add_vote-IsFresh k r m)

  shift_votes :
      (k : R) (n : ℕ) (m' m : VoteMap R)
      → IsFresh k m
      → All (λ p. p.1 ≡ votes p.0 m') m
      → All (λ p. p.1 ≡ votes p.0 ((k, n) ∷ m')) m
  unfolding votes
  shift_votes k n m' [] f h = tt
  shift_votes k n m' ((s, v) ∷ m) (f, fs) (h, hs) = (ground arith, shift_votes k n m' m fs hs)

  -- Each entry holds the votes of its key.
  pub entries_votes : (m : VoteMap R) → IsDistinct m → All (λ p. p.1 ≡ votes p.0 m) m
  unfolding votes
  entries_votes [] d = tt
  entries_votes ((k, n) ∷ m) (f, d) =
      (ground (arith, e.same_iff k k), shift_votes k n m m f (entries_votes m d))

  -- A bound on all entries bounds every key.
  pub votes-le : (j : ℕ) (s : R) (m : VoteMap R) → AtMost j m → votes s m ≤ j
  unfolding votes
  votes-le j s [] a = omega arith
  votes-le j s ((k, n) ∷ m) (a, below) = ground (arith, votes-le j s m below)
