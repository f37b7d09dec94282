-- ===== src/TestUtils/Sync.antt =====
-- The state with which a `Synchronizer` lets one of several clients run at a time
-- (src/utils/test_utils/sync.rs). `none` is a panic: an overflow of the next identity, or an `unwrap!`.
pub mod Identities
pub mod Laws
pub mod Monitor
use safe_client_libs.Shared.{
  ℕ, zero, suc, ◌+◌, Bool, true, false, Option, none, some, List, [], ◌∷◌, ◌++◌, nat_beq, ltb,
  if◌then◌else◌,
}

-- `usize::MAX`
abbrev pub usize_max : ℕ
usize_max = 18446744073709551615

pub record State (Rng : Type 0) : Type 0 where
  pub rng : Rng
  pub all : List ℕ
  pub next : ℕ
  pub awake : ℕ

-- `self.all.iter().position(|other| *other == id)`
abbrev pub one_more : Option ℕ → Option ℕ
one_more none = none
one_more (some index) = some (suc index)

unfoldable pub position : ℕ → List ℕ → Option ℕ
position id [] = none
position id (other ∷ rest) =
    let later = one_more (position id rest) in if nat_beq other id then some 0 else later

-- `Vec::remove`
unfoldable pub remove_at : ℕ → List ℕ → List ℕ
remove_at index [] = []
remove_at zero (x ∷ xs) = xs
remove_at (suc index) (x ∷ xs) = x ∷ remove_at index xs

abbrev pub remove_found : Option ℕ → List ℕ → List ℕ
remove_found none all = all
remove_found (some index) all = remove_at index all

module _ {Rng : Type 0} where
  abbrev pub new_state : Rng → State Rng
  new_state rng = record { rng = rng; all = []; next = 0; awake = 0 }

  unfoldable pub register_id : State Rng → Option (ℕ × State Rng)
  register_id s =
      if ltb s.next usize_max
      then some
          (s.next, record s { next = s.next + 1; all = s.all ++ (s.next ∷ []); awake = s.next })
      else none

  -- `choose` gives an item of a list that has one, and the generator after that (`rand`).
  module _ (choose : List ℕ → Rng → Option ℕ × Rng) where
    abbrev pub wake_chosen : State Rng → Option ℕ × Rng → Option (State Rng)
    wake_chosen s (none, rng) = none
    wake_chosen s (some id, rng) = some (record s { rng = rng; awake = id })

    abbrev pub wake_one_of : State Rng → List ℕ → Option (State Rng)
    wake_one_of s [] = some s
    wake_one_of s (id ∷ ids) = wake_chosen s (choose (id ∷ ids) s.rng)

    unfoldable pub wake_next : State Rng → Option (State Rng)
    wake_next s = wake_one_of s s.all

    unfoldable pub unregister_id : State Rng → ℕ → Option (State Rng)
    unfolding wake_next position remove_at
    unregister_id s id =
        let removed = record s { all = remove_found (position id s.all) s.all } in
        let woken = wake_next removed in if nat_beq s.awake id then woken else some removed

  -- `wait`: whether the loop that waits for this identity is left.
  unfoldable pub is_awake : State Rng → ℕ → Bool
  is_awake s id = nat_beq s.awake id
