-- ===== src/TestUtils/Sync/Monitor/Laws.antt =====
-- No thread of a `Synchronizer` misses that it has been woken.
use mathlib.Core.Path.{subst}
use native.Mathlib.Decide.{ℕ_discrete, dec_lt}
use safe_client_libs.Shared.{
  ◌++◌, ℕ, ◌+◌, ◌<◌, ◌≤◌, ◌≡◌, ◌≢◌, inl, inr, refl, sym, ap, ◌∙◌, Bool, true, false, Option, none,
  some, List, [], ◌∷◌, arith, nat_beq, nat_beq_iff, Bool-cases, All, update, update-same,
  update-other, ltb,
}
use safe_client_libs.TestUtils.Sync.{
  State, register_id, unregister_id, wake_next, wake_one_of, wake_chosen, is_awake, usize_max,
}
use safe_client_libs.TestUtils.Sync.Identities.{Has}
use safe_client_libs.TestUtils.Sync.Laws.{
  IsChoice, Reach, made, registered, unregistered, slept, Reach-IsSafe, Reach_goes_on,
}
use safe_client_libs.TestUtils.Sync.Monitor.{
  Phase, away, looking, blocked, Inner, Hook, notified, new_synchronizer, hooked, new_hook, wait,
  looked, look_again, with_state, sleep, drop_hook,
}

module _ {Rng : Type 0} (choose : List ℕ → Rng → Option ℕ × Rng) where
  -- What the threads do, each step under the lock. A hook makes its request when it is not in `wait`
  -- already, and it is not dropped while it is in there.
  pub data Turn : Inner Rng → Inner Rng → Type 0 where
    hooks : {i i' : Inner Rng} (hook : Hook) → new_hook i ≡ some (hook, i') → Turn i i'
    requests :
        {i : Inner Rng} (hook : Hook)
        → Has hook.id i.state.all
        → i.phase hook.id ≡ away
        → Turn i (wait hook i)
    looks : {i : Inner Rng} (hook : Hook) → i.phase hook.id ≡ looking → Turn i (look_again hook i)
    responds : {i i' : Inner Rng} → sleep choose i ≡ some i' → Turn i i'
    drops :
        {i i' : Inner Rng} (hook : Hook)
        → i.phase hook.id ≡ away
        → drop_hook choose hook i ≡ some i'
        → Turn i i'

  pub data Reached : Inner Rng → Type 0 where
    begins : (rng : Rng) → Reached (new_synchronizer rng)
    follows : {i i' : Inner Rng} → Reached i → Turn i i' → Reached i'

  hooked-some :
      (o : Option (ℕ × State Rng)) (i i' : Inner Rng) (hook : Hook)
      → hooked i o ≡ some (hook, i')
      → (o ≡ some (hook.id, i'.state)) × (i'.phase ≡ i.phase)
  hooked-some none i i' hook h = cc
  hooked-some (some (id, state)) i i' hook h = (cc, cc)

  with_state-some :
      (o : Option (State Rng)) (i i' : Inner Rng)
      → with_state choose i o ≡ some i'
      → (o ≡ some i'.state) × (i'.phase ≡ (λ id. notified (i.phase id)))
  with_state-some none i i' h = cc
  with_state-some (some state) i i' h = (cc, cc)

  Reached-Reach : {i : Inner Rng} → Reached i → Reach choose i.state
  unfolding new_hook wait look_again sleep drop_hook
  Reached-Reach (begins rng) = made rng
  Reached-Reach (follows {i = i} {i' = i'} r (hooks hook h)) =
      registered hook.id (Reached-Reach r) (hooked-some (register_id i.state) i i' hook h).0
  Reached-Reach (follows r (requests hook has at)) = Reached-Reach r
  Reached-Reach (follows r (looks hook at)) = Reached-Reach r
  Reached-Reach (follows {i = i} {i' = i'} r (responds h)) =
      slept (Reached-Reach r) (with_state-some (wake_next choose i.state) i i' h).0
  Reached-Reach (follows {i = i} {i' = i'} r (drops hook at h)) =
      unregistered hook.id (Reached-Reach r)
        (with_state-some (unregister_id choose i.state hook.id) i i' h).0

  -- Nobody who is awake is blocked, and nobody is in `wait` for an identity that is not given yet.
  pub record IsAlert (i : Inner Rng) : Type 0 where
    pub not_awake : (id : ℕ) → i.phase id ≡ blocked → id ≢ i.state.awake
    pub not_given : (id : ℕ) → i.state.next ≤ id → i.phase id ≡ away

  notified-ne-blocked : (p : Phase) → notified p ≢ blocked
  notified-ne-blocked away = λ h. cc h
  notified-ne-blocked looking = λ h. cc h
  notified-ne-blocked blocked = λ h. cc h

  looked-blocked : (b : Bool) → looked b ≡ blocked → b ≡ false
  looked-blocked true h = cc h
  looked-blocked false h = refl

  register_id-next :
      (s s' : State Rng) (id : ℕ)
      → register_id s ≡ some (id, s')
      → (s'.awake ≡ s.next) × (s'.next ≡ s.next + 1)
  unfolding register_id
  register_id-next s s' id h = elim (Bool-cases (ltb s.next usize_max)) [
    | inl room ↦
        let e = rw room at h in
        (ap (λ (s : State Rng). s.awake) (same e), ap (λ (s : State Rng). s.next) (same e))
    | inr full ↦ cc (rw full at h)
  ]
    where
      after : State Rng
      after = record s { next = s.next + 1; all = s.all ++ (s.next ∷ []); awake = s.next }

      same : ◌≡◌ {A = Option (ℕ × State Rng)} (some (s.next, after)) (some (id, s')) → s' ≡ after
      same e = cc e

  wake_next-next : (s s' : State Rng) → wake_next choose s ≡ some s' → s'.next ≡ s.next
  unfolding wake_next
  wake_next-next s s' h = woken s.all h
    where
      drawn : (r : Option ℕ × Rng) → wake_chosen choose s r ≡ some s' → s'.next ≡ s.next
      drawn (none, rng) e = cc e
      drawn (some id, rng) e = ground (arith, e)

      woken : (ids : List ℕ) → wake_one_of choose s ids ≡ some s' → s'.next ≡ s.next
      woken [] e = ground (arith, e)
      woken (id ∷ ids) e = drawn (choose (id ∷ ids) s.rng) e

  unregister_id-next :
      (s s' : State Rng) (id : ℕ) → unregister_id choose s id ≡ some s' → s'.next ≡ s.next
  unfolding unregister_id
  unregister_id-next s s' id h = elim (Bool-cases (nat_beq s.awake id)) [
    | inl own ↦ wake_next-next _ s' (rw own at h)
    | inr other ↦ let e = rw other at h in ground (arith, e)
  ]

  -- Whoever wakes another one notifies everyone.
  with_state-IsAlert :
      (o : Option (State Rng)) (i i' : Inner Rng)
      → with_state choose i o ≡ some i'
      → i'.state.next ≡ i.state.next
      → IsAlert i
      → IsAlert i'
  with_state-IsAlert o i i' h same alert =
      let phases = (with_state-some o i i' h).1 in
      record {
        not_awake = λ id e.
            absurd
              (notified-ne-blocked (i.phase id) (sym (ap (λ (f : ℕ → Phase). f id) phases) ∙ e));
        not_given = λ id e.
            ap (λ (f : ℕ → Phase). f id) phases
            ∙ ap notified (alert.not_given id (subst (λ n. n ≤ id) same e));
      }

  new_hook-IsAlert :
      (i i' : Inner Rng) (hook : Hook) → new_hook i ≡ some (hook, i') → IsAlert i → IsAlert i'
  unfolding new_hook
  new_hook-IsAlert i i' hook h alert =
      let (given, phases) = hooked-some (register_id i.state) i i' hook h in
      let (awake, next) = register_id-next i.state i'.state hook.id given in
      record {
        not_awake = λ id e same.
            let still = sym (ap (λ (f : ℕ → Phase). f id) phases) ∙ e in
            let gone = alert.not_given id (omega (arith, same, awake)) in cc (still, gone);
        not_given = λ id e.
            ap (λ (f : ℕ → Phase). f id) phases ∙ alert.not_given id (omega (arith, next, e));
      }

  -- A phase that a hook comes to in `wait`, where it is given and not blocked though awake.
  moved-IsAlert :
      (i : Inner Rng) (id : ℕ) (p : Phase)
      → id < i.state.next
      → (p ≡ blocked → id ≢ i.state.awake)
      → IsAlert i
      → IsAlert (record i { phase = update id p i.phase })
  moved-IsAlert i id p given fits alert = record {
    not_awake = λ other e. elim (ℕ_discrete id other) [
      | yes same ↦
          subst (λ x. x ≢ i.state.awake) same
            (fits (sym (update-same id p i.phase) ∙ ap (update id p i.phase) same ∙ e))
      | no differ ↦ alert.not_awake other (sym (update-other id other p i.phase differ) ∙ e)
    ];
    not_given = λ other e.
        update-other id other p i.phase (λ same. omega (arith, same, given, e))
        ∙ alert.not_given other e;
  }

  given : (n id : ℕ) (all : List ℕ) → All (λ x. x < n) all → Has id all → id < n
  given n id [] h has = absurd has
  given n id (x ∷ xs) (less, h) (inl same) = omega (arith, same, less)
  given n id (x ∷ xs) (less, h) (inr there) = given n id xs h there

  module _ (choice : IsChoice choose) where
    Reached-IsAlert : {i : Inner Rng} → Reached i → IsAlert i
    unfolding new_hook wait look_again sleep drop_hook is_awake
    Reached-IsAlert (begins rng) = record { not_awake = λ id h. cc h; not_given = λ id h. refl }
    Reached-IsAlert (follows {i = i} {i' = i'} r (hooks hook h)) =
        new_hook-IsAlert i i' hook h (Reached-IsAlert r)
    Reached-IsAlert (follows {i = i} r (requests hook has at)) =
        let (_, below, _) = Reach-IsSafe choose choice (Reached-Reach r) in
        moved-IsAlert i hook.id looking (given i.state.next hook.id i.state.all below has)
          (λ h. cc h) (Reached-IsAlert r)
    Reached-IsAlert (follows {i = i} r (looks hook at)) =
        let alert = Reached-IsAlert r in
        elim (dec_lt hook.id i.state.next) [
          | yes less ↦
              moved-IsAlert i hook.id (looked (is_awake i.state hook.id)) less
                (λ h same.
                  let asleep = looked-blocked (is_awake i.state hook.id) h in
                  let awake = (nat_beq_iff i.state.awake hook.id).1 (sym same) in
                  cc (asleep, awake))
                alert
          | no more ↦ cc (at, alert.not_given hook.id (omega arith))
        ]
    Reached-IsAlert (follows {i = i} {i' = i'} r (responds h)) =
        let (woken, _) = with_state-some (wake_next choose i.state) i i' h in
        with_state-IsAlert (wake_next choose i.state) i i' h (wake_next-next i.state i'.state woken)
          (Reached-IsAlert r)
    Reached-IsAlert (follows {i = i} {i' = i'} r (drops hook at h)) =
        let (woken, _) = with_state-some (unregister_id choose i.state hook.id) i i' h in
        with_state-IsAlert (unregister_id choose i.state hook.id) i i' h
          (unregister_id-next i.state i'.state hook.id woken) (Reached-IsAlert r)

    -- If `choose` gives an item of a list that has one: whatever turns the threads of the hooks take,
    -- as long as there is a hook, the thread of one of them is not blocked, and it leaves the loop of
    -- `wait` when it looks again. So a thread that is woken before it blocks does not miss that.
    pub Reached-progress :
        {i : Inner Rng}
        → Reached i
        → i.state.all ≢ []
        → (hook : Hook) × Has hook.id i.state.all
          × (i.phase hook.id ≢ blocked)
          × ((look_again hook i).phase hook.id ≡ away)
    unfolding look_again is_awake
    Reached-progress {i = i} r some_hook =
        let (id, has, awake) = (Reach_goes_on choose choice (Reached-Reach r)).2 some_hook in
        (
          record { id = id },
          has,
          (λ stuck.
              (Reached-IsAlert r).not_awake id stuck
                (sym ((nat_beq_iff i.state.awake id).0 awake))),
          update-same id (looked (is_awake i.state id)) i.phase ∙ ap looked awake,
        )
