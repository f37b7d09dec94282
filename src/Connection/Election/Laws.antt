-- ===== src/Connection/Election/Laws.antt =====
-- What the vote elects, and when it ends without electing anything, against counts over the replies.
use mathlib.Core.List.{Permᴰ}
use safe_client_libs.Shared.{ℕ, suc, ◌+◌, ◌≤◌, ◌<◌, ◌≡◌, ◌↔◌, ◌⊎◌, refl, ◌∙◌}
use safe_client_libs.Shared.{inl, inr, Option, none, some, List, [], ◌∷◌, arith}
use safe_client_libs.Shared.{Option-cases, take}
use safe_client_libs.Shared.{if◌then◌else◌, PartialEq, ◌==◌}
use safe_client_libs.Connection.Election.{
  VoteMap, Winner, threshold, elected, exhausted, add_vote, votes, verdict, elect,
}
use safe_client_libs.Connection.Election.Verdict.{
  verdict_undecided, verdict-eq-none, verdict_decides,
}
use safe_client_libs.Connection.Election.Tally.{
  total, votes-add_vote, total-add_vote, IsDistinct, add_vote-IsDistinct, votes-le,
}

-- The replies that brought a response.
abbrev pub answered {ℓ} : {R : Type ℓ} → List (Option R) → ℕ
answered [] = 0
answered (none ∷ l) = answered l
answered (some _ ∷ l) = suc (answered l)

-- The replies that brought this response.
abbrev pub count {ℓ} : {R : Type ℓ} ⦃e : PartialEq R⦄ → R → List (Option R) → ℕ
count r [] = 0
count r (none ∷ l) = count r l
count r (some s ∷ l) = (if s == r then 1 else 0) + count r l

module _ {R : Type 0} ⦃e : PartialEq R⦄ where
  -- `w` is a response of those in `replies` with its number of votes, which is more than two, or
  -- else the largest once every elder has answered.
  pub record IsElected (elders : ℕ) (replies : List (Option R)) (w : Winner R) : Type 0 where
    pub response : R
    pub is_response : w.0 ≡ some response
    pub counted : w.1 ≡ count response replies
    pub reason :
        (threshold < w.1) ⊎ ((answered replies ≡ elders) × ((s : R) → count s replies ≤ w.1))

  -- The same, on top of the votes of a map.
  record Decides (m : VoteMap R) (elders : ℕ) (replies : List (Option R)) (w : Winner R)
      : Type 0 where
    response : R
    is_response : w.0 ≡ some response
    counted : w.1 ≡ votes response m + count response replies
    reason :
        (threshold < w.1)
        ⊎ ((total m + answered replies ≡ elders) × ((s : R) → votes s m + count s replies ≤ w.1))

module _ {R : Type 0} ⦃e : PartialEq R⦄ (iterate : VoteMap R → VoteMap R)
    (visits : (m : VoteMap R) → Permᴰ m (iterate m)) where
  elect_continue :
      (elders : ℕ) (r : R) (m : VoteMap R) (replies : List (Option R))
      → verdict iterate elders r (add_vote r m) ≡ none
      → elect iterate elders m (some r ∷ replies) ≡ elect iterate elders (add_vote r m) replies
  unfolding elect
  elect_continue elders r m replies h = ground arith

  elect_stop :
      (elders : ℕ) (r : R) (m : VoteMap R) (replies : List (Option R)) (w : Winner R)
      → verdict iterate elders r (add_vote r m) ≡ some w
      → elect iterate elders m (some r ∷ replies) ≡ elected w
  unfolding elect
  elect_stop elders r m replies w h = ground arith

  Decides-cons :
      (elders : ℕ) (r : R) (m : VoteMap R) (replies : List (Option R)) (w : Winner R)
      → Decides (add_vote r m) elders replies w
      → Decides m elders (some r ∷ replies) w
  Decides-cons elders r m replies w p = record {
    response = p.response;
    is_response = p.is_response;
    counted = ground (arith, p.counted, votes-add_vote r p.response m);
    reason = elim p.reason [
      | inl more ↦ inl more
      | inr (all_in, most) ↦
          inr (omega (arith, total-add_vote r m), λ s. ground (arith, most s, votes-add_vote r s m))
    ];
  }

  elect-Decides :
      (elders : ℕ) (m : VoteMap R) (replies : List (Option R)) (w : Winner R)
      → IsDistinct m
      → elect iterate elders m replies ≡ elected w
      → (k : ℕ) × Decides m elders (take k replies) w
  unfolding elect
  elect-Decides elders m [] w d h = cc
  elect-Decides elders m (none ∷ replies) w d h =
      let (k, p) = elect-Decides elders m replies w d h in
      (
        suc k,
        record {
          response = p.response;
          is_response = p.is_response;
          counted = p.counted;
          reason = p.reason;
        },
      )
  elect-Decides elders m (some r ∷ replies) w d h =
      elim (Option-cases (verdict iterate elders r (add_vote r m))) [
        | inl undecided ↦
            let (k, p) =
              elect-Decides elders (add_vote r m) replies w (add_vote-IsDistinct r m d)
                (rw (elect_continue elders r m replies undecided) at h) in
            (suc k, Decides-cons elders r m (take k replies) w p)
        | inr (w', now) ↦
            let (s, is_s, counted, reason) =
              verdict_decides iterate visits elders r (add_vote r m) w (add_vote-IsDistinct r m d)
                (omega (arith, total-add_vote r m))
                (ground (arith, elect_stop elders r m replies w' now)) in
            (
              1,
              Decides-cons elders r m [] w (record {
                response = s;
                is_response = is_s;
                counted = omega arith;
                reason = elim reason [
                  | inl more ↦ inl more
                  | inr (all_in, most) ↦
                      inr (omega arith, λ q. omega (arith, votes-le _ q (add_vote r m) most))
                ];
              }),
            )
      ]

  exhausted-total :
      (elders : ℕ) (m : VoteMap R) (replies : List (Option R))
      → total m < elders
      → elect iterate elders m replies ≡ exhausted
      → total m + answered replies < elders
  unfolding elect
  exhausted-total elders m [] t h = omega arith
  exhausted-total elders m (none ∷ replies) t h = exhausted-total elders m replies t h
  exhausted-total elders m (some r ∷ replies) t h =
      elim (Option-cases (verdict iterate elders r (add_vote r m))) [
        | inl undecided ↦ omega (
          arith,
          exhausted-total elders (add_vote r m) replies
              (omega (
                arith,
                total-add_vote r m,
                (verdict-eq-none iterate visits elders r (add_vote r m) undecided).1,
              ))
              (ground arith),
          total-add_vote r m,
        )
        | inr (w, decided) ↦ absurd (ground arith)
      ]

  exhausted-votes :
      (elders : ℕ) (m : VoteMap R) (replies : List (Option R)) (s : R)
      → votes s m ≤ threshold
      → elect iterate elders m replies ≡ exhausted
      → votes s m + count s replies ≤ threshold
  unfolding elect
  exhausted-votes elders m [] s v h = omega arith
  exhausted-votes elders m (none ∷ replies) s v h = exhausted-votes elders m replies s v h
  exhausted-votes elders m (some r ∷ replies) s v h =
      elim (Option-cases (verdict iterate elders r (add_vote r m))) [
        | inl undecided ↦
            let below = (verdict-eq-none iterate visits elders r (add_vote r m) undecided).0 in
            let kept : votes s (add_vote r m) ≤ threshold =
              ground (arith, votes-add_vote r s m, e.same_iff r s) in
            ground (
              arith,
              exhausted-votes elders (add_vote r m) replies s kept,
              elect_continue elders r m replies undecided,
              votes-add_vote r s m,
            )
        | inr (w, decided) ↦ absurd (ground (arith, elect_stop elders r m replies w decided))
      ]

  undecided-exhausted :
      (elders : ℕ) (m : VoteMap R) (replies : List (Option R))
      → total m + answered replies < elders
      → ((s : R) → votes s m + count s replies ≤ threshold)
      → elect iterate elders m replies ≡ exhausted
  unfolding elect
  undecided-exhausted elders m [] t h = refl
  undecided-exhausted elders m (none ∷ replies) t h = undecided-exhausted elders m replies t h
  undecided-exhausted elders m (some r ∷ replies) t h =
      elect_continue elders r m replies (
        verdict_undecided iterate visits elders r (add_vote r m)
          (ground (arith, h r, votes-add_vote r r m, e.same_iff r r))
          (omega (arith, total-add_vote r m)))
      ∙ undecided-exhausted elders (add_vote r m) replies (omega (arith, total-add_vote r m))
          (λ s. ground (arith, h s, votes-add_vote r s m))

  -- If the walk over the vote map meets every entry once, a response that the vote elects has,
  -- after some number of replies, more than two of their votes, or all elders have answered by then
  -- and no response has more votes than it.
  pub elect-IsElected :
      (elders : ℕ) (replies : List (Option R)) (w : Winner R)
      → elect iterate elders [] replies ≡ elected w
      → (k : ℕ) × IsElected elders (take k replies) w
  unfolding votes
  elect-IsElected elders replies w h =
      let (k, p) = elect-Decides elders [] replies w tt h in
      (
        k,
        record {
          response = p.response;
          is_response = p.is_response;
          counted = omega (arith, p.counted);
          reason = elim p.reason [
            | inl more ↦ inl more
            | inr (all_in, most) ↦ inr (omega arith, λ s. omega (arith, most s))
          ];
        },
      )

  -- If the walk over the vote map meets every entry once, and there is at least one elder, the loop
  -- ends by the panic of `select_all` exactly when fewer responses come in than there are elders,
  -- and none of them comes in more than twice.
  pub elect-exhausted_iff :
      (elders : ℕ) (replies : List (Option R))
      → 0 < elders
      → (elect iterate elders [] replies ≡ exhausted)
        ↔ ((answered replies < elders) × ((s : R) → count s replies ≤ threshold))
  unfolding votes
  elect-exhausted_iff elders replies h = (
    λ x. (
      omega (arith, exhausted-total elders [] replies h x),
      λ s. omega (arith, exhausted-votes elders [] replies s (omega arith) x),
    ),
    λ (few, low). undecided-exhausted elders [] replies (omega arith) (λ s. omega (arith, low s)),
  )
