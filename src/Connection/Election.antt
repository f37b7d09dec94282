-- ===== src/Connection/Election.antt =====
-- The vote of `ConnectionManager::send_query` (src/connection_manager.rs): the replies of the elders
-- are counted as they come in, and one of them is returned. `R` is the type of the responses, and
-- `iterate` is the order in which a walk over the hash map meets its entries.
pub mod Tally
pub mod Verdict
pub mod Laws
use safe_client_libs.Shared.{ℕ, ◌+◌, Bool, Option, none, some, List, [], ◌∷◌, length}
use safe_client_libs.Shared.{ltb, nat_beq, if◌then◌else◌, PartialEq, ◌==◌}

abbrev pub VoteMap : Type 0 → Type 0
VoteMap R = List (R × ℕ)

-- The response elected so far, if any, and its votes.
abbrev pub Winner : Type 0 → Type 0
Winner R = Option R × ℕ

abbrev pub threshold : ℕ
threshold = 2

-- How the loop ends: with a winner, or by a `select_all` over no task, which panics.
pub data Outcome (R : Type 0) : Type 0 where
  elected : Winner R → Outcome R
  exhausted : Outcome R

module _ {R : Type 0} ⦃e : PartialEq R⦄ where
  -- `vote_map.entry(response).or_insert(0)`, then `*counter += 1`
  unfoldable pub add_vote : R → VoteMap R → VoteMap R
  add_vote r [] = (r, 1) ∷ []
  add_vote r ((s, n) ∷ m) = if s == r then (s, n + 1) ∷ m else (s, n) ∷ add_vote r m

  -- `*counter`
  unfoldable pub votes : R → VoteMap R → ℕ
  votes r [] = 0
  votes r ((s, n) ∷ m) = if s == r then n else votes r m

-- One round of the walk over the map: the votes so far, and the most popular response so far.
module _ {R : Type 0} where
  abbrev pub first_if_none : Winner R → R × ℕ → Winner R
  first_if_none (none, _) (r, n) = (some r, n)
  first_if_none (some s, k) _ = (some s, k)

  abbrev pub popular : Winner R → R × ℕ → Winner R
  popular w (r, n) = let w' = first_if_none w (r, n) in if ltb w'.1 n then (some r, n) else w'

  unfoldable pub survey : ℕ → Winner R → VoteMap R → ℕ × Winner R
  survey responses w [] = (responses, w)
  survey responses w (entry ∷ m) = survey (responses + entry.1) (popular w entry) m

-- The body of the loop, after a response has been counted: the winner, if it is decided now.
module _ {R : Type 0} ⦃e : PartialEq R⦄ (iterate : VoteMap R → VoteMap R) where
  unfoldable pub verdict : ℕ → R → VoteMap R → Option (Winner R)
  unfolding survey votes
  verdict elders r m =
      if ltb threshold (votes r m)
      then some (some r, votes r m)
      else (let (responses, most_popular) = survey 0 (none, threshold) (iterate m) in
          if nat_beq responses elders then some most_popular else none)

  -- `while !has_elected_a_response`. The list holds what the tasks give, in the order in which they
  -- finish: a response, or `none` for a task that failed or brought another message.
  unfoldable pub elect : ℕ → VoteMap R → List (Option R) → Outcome R
  unfolding add_vote verdict
  elect elders m [] = exhausted
  elect elders m (none ∷ rest) = elect elders m rest
  elect elders m (some r ∷ rest) = elim (verdict elders r (add_vote r m)) [
    | some w ↦ elected w
    | none ↦ elect elders (add_vote r m) rest
  ]
