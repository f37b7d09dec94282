-- ===== src/TestUtils/Sync/Monitor.antt =====
-- The hooks of a `Synchronizer`, and the lock and the condition variable that they share
-- (src/utils/test_utils/sync.rs). A thread that finds another identity awake blocks until it is
-- notified, and then looks again. `none` is a panic.
pub mod Laws
use safe_client_libs.Shared.{ℕ, Bool, true, false, Option, none, some, List, update}
use safe_client_libs.TestUtils.Sync.{
  State, new_state, register_id, unregister_id, wake_next, is_awake,
}

-- The thread of a hook: not in `wait`, about to look at the state there, or blocked.
pub data Phase : Type 0 where
  away : Phase
  looking : Phase
  blocked : Phase

-- The state behind the lock, and the threads at its condition variable.
pub record Inner (Rng : Type 0) : Type 0 where
  pub state : State Rng
  pub phase : ℕ → Phase

pub record Hook : Type 0 where
  pub id : ℕ

abbrev pub notified : Phase → Phase
notified blocked = looking
notified looking = looking
notified away = away

-- Whether the loop of `wait` is left, where the identity is awake or not.
abbrev pub looked : Bool → Phase
looked true = away
looked false = blocked

module _ {Rng : Type 0} where
  -- `Synchronizer::new`
  abbrev pub new_synchronizer : Rng → Inner Rng
  new_synchronizer rng = record { state = new_state rng; phase = λ id. away }

  -- `self.condvar.notify_all()`
  abbrev pub notify_all : Inner Rng → Inner Rng
  notify_all inner = record inner { phase = λ id. notified (inner.phase id) }

  abbrev pub hooked : Inner Rng → Option (ℕ × State Rng) → Option (Hook × Inner Rng)
  hooked inner none = none
  hooked inner (some (id, state)) = some (record { id = id }, record inner { state = state })

  -- `Hook::new`, with `Inner::register_id`
  unfoldable pub new_hook : Inner Rng → Option (Hook × Inner Rng)
  new_hook inner = hooked inner (register_id inner.state)

  -- `Inner::wait`: the lock is taken, and a round of the loop.
  unfoldable pub wait : Hook → Inner Rng → Inner Rng
  wait hook inner = record inner { phase = update hook.id looking inner.phase }

  unfoldable pub look_again : Hook → Inner Rng → Inner Rng
  look_again hook inner = record inner {
    phase = update hook.id (looked (is_awake inner.state hook.id)) inner.phase;
  }

  module _ (choose : List ℕ → Rng → Option ℕ × Rng) where
    abbrev pub with_state : Inner Rng → Option (State Rng) → Option (Inner Rng)
    with_state inner none = none
    with_state inner (some state) = some (notify_all (record inner { state = state }))

    -- `Inner::sleep`, which `Hook::response` calls
    unfoldable pub sleep : Inner Rng → Option (Inner Rng)
    sleep inner = with_state inner (wake_next choose inner.state)

    -- The drop of a hook, with `Inner::unregister_id`
    unfoldable pub drop_hook : Hook → Inner Rng → Option (Inner Rng)
    drop_hook hook inner = with_state inner (unregister_id choose inner.state hook.id)
