-- ===== src/Examples/Sync.antt =====
-- Two clients that a `Synchronizer` lets run in turn.
use safe_client_libs.Shared.{ℕ, ◌≡◌, ◌≢◌, refl, inl, true, Option, none, some, List, [], ◌∷◌}
use safe_client_libs.TestUtils.Sync.{
  State, new_state, register_id, wake_next, unregister_id, is_awake, position, remove_at,
}
use safe_client_libs.TestUtils.Sync.Identities.{Has}
use safe_client_libs.TestUtils.Sync.Laws.{
  IsChoice, Reach, IsSafe, made, registered, unregistered, Reach-IsSafe, Reach_goes_on,
}
use safe_client_libs.TestUtils.Sync.Monitor.{
  away, blocked, Inner, Hook, notified, new_synchronizer, new_hook, wait, look_again, sleep,
}
use safe_client_libs.TestUtils.Sync.Monitor.Laws.{
  Reached, begins, follows, hooks, requests, looks, responds, Reached-progress,
}

-- Always the first.
abbrev first : List ℕ → ℕ → Option ℕ × ℕ
first [] rng = (none, rng)
first (id ∷ _) rng = (some id, rng)

first-IsChoice : IsChoice first
first-IsChoice = record { chosen = λ id ids rng. (id, refl, inl refl) }

-- Two have registered, and the second one, which was awake, has unregistered.
abbrev one_left : State ℕ
one_left = record { rng = 7; all = 0 ∷ []; next = 2; awake = 0 }

one_left-Reach : Reach first one_left
unfolding register_id unregister_id position remove_at wake_next
one_left-Reach =
    unregistered {s = record { rng = 7; all = 0 ∷ 1 ∷ []; next = 2; awake = 1 }} 1
      (registered {s = record { rng = 7; all = 0 ∷ []; next = 1; awake = 0 }} 1
        (registered {s = new_state 7} 0 (made 7) refl) refl)
      refl

Reach-IsSafe_example : IsSafe first one_left
Reach-IsSafe_example = Reach-IsSafe first first-IsChoice one_left-Reach

Reach_goes_on_example :
    ((id : ℕ) → (s' : State ℕ) × (unregister_id first one_left id ≡ some s'))
    × ((s' : State ℕ) × (wake_next first one_left ≡ some s'))
    × ((one_left.all ≢ []) → (id : ℕ) × Has id one_left.all × (is_awake one_left id ≡ true))
Reach_goes_on_example = Reach_goes_on first first-IsChoice one_left-Reach

abbrev hook_of : ℕ → Hook
hook_of id = record { id = id }

-- Two hooks have registered, and the thread of the first one is blocked, since the second is awake.
abbrev two_hooks : Inner ℕ
two_hooks = record {
  state = record { rng = 7; all = 0 ∷ 1 ∷ []; next = 2; awake = 1 };
  phase = λ id. away;
}

abbrev one_blocked : Inner ℕ
one_blocked = look_again (hook_of 0) (wait (hook_of 0) two_hooks)

one_blocked_run : one_blocked.phase 0 ≡ blocked
unfolding look_again wait is_awake
one_blocked_run = refl

-- Then the second one sleeps, which wakes the first.
abbrev one_woken : Inner ℕ
one_woken = record {
  state = record { rng = 7; all = 0 ∷ 1 ∷ []; next = 2; awake = 0 };
  phase = λ id. notified (one_blocked.phase id);
}

one_woken-Reached : Reached first one_woken
unfolding new_hook register_id wait look_again is_awake sleep wake_next
one_woken-Reached =
    let one_hook : Inner ℕ = record {
      state = record { rng = 7; all = 0 ∷ []; next = 1; awake = 0 };
      phase = λ id. away;
    } in
    let registered₁ : Reached first one_hook =
      follows {i = new_synchronizer 7} (begins 7) (hooks (hook_of 0) refl) in
    let registered₂ : Reached first two_hooks =
      follows {i = one_hook} registered₁ (hooks (hook_of 1) refl) in
    let waits : Reached first (wait (hook_of 0) two_hooks) =
      follows registered₂ (requests (hook_of 0) (inl refl) refl) in
    let blocks : Reached first one_blocked = follows waits (looks (hook_of 0) refl) in
    follows blocks (responds refl)

Reached-progress_example :
    (hook : Hook) × Has hook.id (0 ∷ 1 ∷ [])
    × (one_woken.phase hook.id ≢ blocked)
    × ((look_again hook one_woken).phase hook.id ≡ away)
Reached-progress_example = Reached-progress first first-IsChoice one_woken-Reached (λ h. cc h)
