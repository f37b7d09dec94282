-- ===== src/TestUtils/Balance.antt =====
-- The balance that a test expects after its writes (src/utils/test_utils/mod.rs), in the smallest
-- unit. `none` is the panic of an `unwrap!`. With `cost_of_put` as it is, the product is below 2 ^ 64
-- for every number of mutations.
use safe_client_libs.Shared.{ℕ, ◌-◌, ◌*◌, Option, none, some, ltb, if◌then◌else◌}
use safe_client_libs.Client.State.{cost_of_put}

-- `checked_sub`, unwrapped
abbrev pub less : ℕ → Option ℕ → Option ℕ
less amount none = none
less amount (some balance) = if ltb balance amount then none else some (balance - amount)

abbrev pub without_some : (ℕ → ℕ) → Option ℕ → Option ℕ → Option ℕ
without_some cost none balance = balance
without_some cost (some n) balance = less (cost n) balance

unfoldable pub calculate_new_balance : ℕ → Option ℕ → Option ℕ → Option ℕ
calculate_new_balance balance mutation_count transferred_coins =
    without_some (λ coins. coins) transferred_coins
      (without_some (λ x. x * cost_of_put) mutation_count (some balance))
