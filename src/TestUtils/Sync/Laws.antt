-- ===== src/TestUtils/Sync/Laws.antt =====
-- What holds of the state of a `Synchronizer` at any time.
use mathlib.Core.Path.{subst}
use safe_client_libs.Shared.{
  ltb, ℕ, ◌+◌, ◌<◌, ◌≡◌, ◌≢◌, inl, inr, refl, sym, ◌∙◌, true, Option, none, some, List, [], ◌∷◌,
  ◌++◌, arith, nat_beq, nat_beq_iff, Bool-cases, All,
}
use safe_client_libs.TestUtils.Sync.{
  State, new_state, register_id, wake_chosen, wake_one_of, wake_next, unregister_id, is_awake,
  usize_max,
}
use safe_client_libs.TestUtils.Sync.Identities.{
  Has, AreDistinct, without, remove_found-position, All-without, AreDistinct-without, Has-without,
  All-snoc, AreDistinct-snoc, Has-snoc, All-weaken,
}

some-injective : {A : Type 0} (a b : A) → some a ≡ some b → a ≡ b
some-injective a b h = cc h

module _ {Rng : Type 0} (choose : List ℕ → Rng → Option ℕ × Rng) where
  -- What `rand` documents of `choose`: it gives an item of a list that has one.
  pub record IsChoice : Type 0 where
    pub chosen :
        (id : ℕ) (ids : List ℕ) (rng : Rng)
        → (x : ℕ) × ((choose (id ∷ ids) rng).0 ≡ some x) × Has x (id ∷ ids)

  -- What the clients may do to the state, one after another.
  pub data Reach : State Rng → Type 0 where
    made : (rng : Rng) → Reach (new_state rng)
    registered : {s s' : State Rng} (id : ℕ) → Reach s → register_id s ≡ some (id, s') → Reach s'
    unregistered :
        {s s' : State Rng} (id : ℕ) → Reach s → unregister_id choose s id ≡ some s' → Reach s'
    slept : {s s' : State Rng} → Reach s → wake_next choose s ≡ some s' → Reach s'

  -- One of these identities, if there is one at all.
  abbrev pub IsAwakeAmong : ℕ → List ℕ → Type 0
  IsAwakeAmong awake [] = Unit
  IsAwakeAmong awake (id ∷ ids) = Has awake (id ∷ ids)

  abbrev pub IsSafe : State Rng → Type 0
  IsSafe s = AreDistinct s.all × All (λ id. id < s.next) s.all × IsAwakeAmong s.awake s.all

  IsAwakeAmong-Has : (x : ℕ) (xs : List ℕ) → Has x xs → IsAwakeAmong x xs
  IsAwakeAmong-Has x [] h = tt
  IsAwakeAmong-Has x (y ∷ ys) h = h

  register_id-IsSafe :
      (s s' : State Rng) (id : ℕ) → register_id s ≡ some (id, s') → IsSafe s → IsSafe s'
  unfolding register_id
  register_id-IsSafe s s' id h (distinct, below, awake) = elim (Bool-cases (ltb s.next usize_max)) [
    | inl room ↦ subst IsSafe (same (rw room at h)) after-IsSafe
    | inr full ↦ cc (rw full at h)
  ]
    where
      after : State Rng
      after = record s { next = s.next + 1; all = s.all ++ (s.next ∷ []); awake = s.next }

      same : ◌≡◌ {A = Option (ℕ × State Rng)} (some (s.next, after)) (some (id, s')) → after ≡ s'
      same e = cc e

      after-IsSafe : IsSafe after
      after-IsSafe = (
        AreDistinct-snoc s.next s.all distinct below,
        All-snoc (λ y. y < s.next + 1) s.next s.all
            (All-weaken s.next (s.next + 1) s.all (omega arith) below) (omega arith),
        IsAwakeAmong-Has s.next (s.all ++ (s.next ∷ [])) (Has-snoc s.next s.all),
      )

  IsAwakeAmong-without :
      (x id : ℕ) (xs : List ℕ) → x ≢ id → IsAwakeAmong x xs → IsAwakeAmong x (without id xs)
  IsAwakeAmong-without x id [] other h = tt
  IsAwakeAmong-without x id (y ∷ ys) other h =
      IsAwakeAmong-Has x (without id (y ∷ ys)) (Has-without id x (y ∷ ys) other h)

  wake_chosen-some :
      (s : State Rng) (x : ℕ) (r : Option ℕ × Rng)
      → r.0 ≡ some x
      → wake_chosen choose s r ≡ some (record s { rng = r.1; awake = x })
  wake_chosen-some s x (none, rng) h = cc h
  wake_chosen-some s x (some y, rng) h = rw (some-injective y x h) refl

  module _ (choice : IsChoice) where
    wake_one_of-IsSafe :
        (s : State Rng) (ids : List ℕ)
        → s.all ≡ ids
        → AreDistinct ids
        → All (λ id. id < s.next) ids
        → (s' : State Rng) × (wake_one_of choose s ids ≡ some s') × IsSafe s'
    wake_one_of-IsSafe s [] e distinct below = (s, refl, rw e (tt, tt, tt))
    wake_one_of-IsSafe s (id ∷ ids) e distinct below =
        let (x, drawn, among) = choice.chosen id ids s.rng in
        (
          record s { rng = (choose (id ∷ ids) s.rng).1; awake = x },
          wake_chosen-some s x (choose (id ∷ ids) s.rng) drawn,
          rw e (distinct, below, among),
        )

    wake_next-IsSafe :
        (s : State Rng)
        → AreDistinct s.all
        → All (λ id. id < s.next) s.all
        → (s' : State Rng) × (wake_next choose s ≡ some s') × IsSafe s'
    unfolding wake_next
    wake_next-IsSafe s distinct below = wake_one_of-IsSafe s s.all refl distinct below

    unregister_id-IsSafe :
        (s : State Rng) (id : ℕ)
        → IsSafe s
        → (s' : State Rng) × (unregister_id choose s id ≡ some s') × IsSafe s'
    unfolding unregister_id
    unregister_id-IsSafe s id (distinct, below, awake) =
        rw (remove_found-position id s.all) (elim (Bool-cases (nat_beq s.awake id)) [
          | inl own ↦ rw own (wake_next-IsSafe left distinct' below')
          | inr other ↦ rw other (
            left,
            refl,
            (
              distinct',
              below',
              IsAwakeAmong-without s.awake id s.all (λ e. cc (other, (nat_beq_iff s.awake id).1 e))
                  awake,
            ),
          )
        ])
      where
        left : State Rng
        left = record s { all = without id s.all }

        distinct' : AreDistinct (without id s.all)
        distinct' = AreDistinct-without id s.all distinct

        below' : All (λ y. y < s.next) (without id s.all)
        below' = All-without _ id s.all below

    -- If `choose` gives an item of a list that has one: in every state that clients can bring about
    -- by registering, unregistering and sleeping, no identity is registered twice, the next identity
    -- is a new one, and the identity that is awake is a registered one, as long as there is any.
    pub Reach-IsSafe : {s : State Rng} → Reach s → IsSafe s
    Reach-IsSafe (made rng) = (tt, tt, tt)
    Reach-IsSafe (registered {s = s} {s' = s'} id r h) =
        register_id-IsSafe s s' id h (Reach-IsSafe r)
    Reach-IsSafe (unregistered {s = s} {s' = s'} id r h) =
        let (t, e, safe) = unregister_id-IsSafe s id (Reach-IsSafe r) in
        subst IsSafe (some-injective t s' (sym e ∙ h)) safe
    Reach-IsSafe (slept {s = s} {s' = s'} r h) =
        let (distinct, below, _) = Reach-IsSafe r in
        let (t, e, safe) = wake_next-IsSafe s distinct below in
        subst IsSafe (some-injective t s' (sym e ∙ h)) safe

    awake_one : (x : ℕ) (xs : List ℕ) → IsAwakeAmong x xs → xs ≢ [] → Has x xs
    awake_one x [] h some_wait = absurd (some_wait refl)
    awake_one x (y ∷ ys) h some_wait = h

    -- If `choose` gives an item of a list that has one: in every state that the clients can bring
    -- about, no client panics when it unregisters or sleeps, and as long as any is registered, a
    -- registered one leaves the loop in which it waits.
    pub Reach_goes_on :
        {s : State Rng}
        → Reach s
        → ((id : ℕ) → (s' : State Rng) × (unregister_id choose s id ≡ some s'))
          × ((s' : State Rng) × (wake_next choose s ≡ some s'))
          × ((s.all ≢ []) → (id : ℕ) × Has id s.all × (is_awake s id ≡ true))
    unfolding is_awake
    Reach_goes_on {s = s} r =
        let safe = Reach-IsSafe r in
        let (distinct, below, awake) = safe in
        let (t, e, _) = wake_next-IsSafe s distinct below in
        (
          λ id. (let (u, f, _) = unregister_id-IsSafe s id safe in (u, f)),
          (t, e),
          λ some_wait. (
            s.awake,
            awake_one s.awake s.all awake some_wait,
            (nat_beq_iff s.awake s.awake).1 refl,
          ),
        )
