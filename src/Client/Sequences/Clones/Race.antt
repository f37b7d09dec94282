-- ===== src/Client/Sequences/Clones/Race.antt =====
-- Two clones that append to one sequence: what becomes of the first entry depends on their turns.
use safe_client_libs.Shared.{◌≡◌, ◌≢◌, sym, ap, ◌∙◌, ℕ, some, [], ◌∷◌, arith}
use safe_client_libs.External.Types.{Types}
use safe_client_libs.External.Protocol.{Bytes, Result}
use safe_client_libs.External.Api.{Api}
use safe_client_libs.Client.State.{World, set_cache}
use safe_client_libs.Client.Money.Payments.{Validation}
use safe_client_libs.Client.Sequences.Replicas.{remember}
use safe_client_libs.Client.Sequences.Laws.{IsLawfulCache, cached}
use safe_client_libs.Client.Sequences.Clones.{
  Task, called, holding, sending, advance, Clones, turns,
}
use safe_client_libs.Client.Sequences.Clones.Pair.{view, left, right, mixed_turns, apart_turns}

-- What a sequence promises of an entry that is appended: its address and who may append stay.
pub record IsLawfulAppend {T : Types} (X : Api T) : Type 0 where
  pub keeps_address :
      (s : T.Sequence) (entry : Bytes)
      → X.sequence.address (X.sequence.append s entry).1 ≡ X.sequence.address s
  pub keeps_permission :
      (s : T.Sequence) (entry : Bytes) (key : T.PublicKey)
      → X.sequence.check_permission (X.sequence.append s entry).1 X.sequence.append_action key
        ≡ X.sequence.check_permission s X.sequence.append_action key

module _ {T : Types} (X : Api T) (await : Validation T) where
  abbrev pub looked_up : T.SequenceAddress → World T → World T
  looked_up address w = set_cache (X.sequence.cache_get w.client.sequence_cache address).1 w

  advance-hit :
      (address : T.SequenceAddress) (entry : Bytes) (s : T.Sequence) (w : World T)
      → cached X w address ≡ some s
      → advance X await (called address entry) w ≡ (holding entry s, looked_up address w)
  unfolding advance
  advance-hit address entry s w hit = ground arith

  advance-allowed :
      (entry : Bytes) (s : T.Sequence) (w : World T)
      → X.sequence.check_permission s X.sequence.append_action (X.net.public_key w.client.full_id)
        ≡ Result.ok tt
      → advance X await (holding entry s) w
        ≡ (sending (X.sequence.append s entry).0, (remember X (X.sequence.append s entry).1 w).1)
  unfolding advance
  advance-allowed entry s w allowed = ground arith

  module _ (lawful : IsLawfulCache X) (appends : IsLawfulAppend X) (address : T.SequenceAddress)
      (entry entry' : Bytes) (s : T.Sequence) where
    get-put_own :
        (edited : T.Sequence) (cache : T.SequenceCache)
        → X.sequence.address edited ≡ address
        → (X.sequence.cache_get
            (X.sequence.cache_put cache (X.sequence.address edited) edited)
            address).0
          ≡ some edited
    get-put_own edited cache own =
        ap
          (λ a.
            (X.sequence.cache_get (X.sequence.cache_put cache (X.sequence.address edited) edited)
              a).0)
          (sym own)
        ∙ lawful.get-put cache (X.sequence.address edited) edited

    mixed_view :
        (w : World T)
        → cached X w address ≡ some s
        → X.sequence.check_permission s X.sequence.append_action (X.net.public_key w.client.full_id)
          ≡ Result.ok tt
        → right X await (
            left X await
              (right X await (left X await (called address entry, called address entry', w))))
          ≡ (
            sending (X.sequence.append s entry).0,
            sending (X.sequence.append s entry').0,
            (remember X
                (X.sequence.append s entry').1
                (remember X
                  (X.sequence.append s entry).1
                  (looked_up address (looked_up address w))).1).1,
          )
    mixed_view w hit allowed =
        let w₁ = looked_up address w in
        let w₂ = looked_up address w₁ in
        let w₃ = (remember X (X.sequence.append s entry).1 w₂).1 in
        ap (λ r. right X await (left X await (right X await (r.0, called address entry', r.1))))
          (advance-hit address entry s w hit)
        ∙ ap (λ r. right X await (left X await (holding entry s, r.0, r.1)))
            (advance-hit address entry' s w₁ (lawful.get-get _ address s hit))
        ∙ ap (λ r. right X await (r.0, holding entry' s, r.1)) (advance-allowed entry s w₂ allowed)
        ∙ ap (λ r. (sending (X.sequence.append s entry).0, r.0, r.1))
            (advance-allowed entry' s w₃ allowed)

    apart_view :
        (w : World T)
        → cached X w address ≡ some s
        → X.sequence.address s ≡ address
        → X.sequence.check_permission s X.sequence.append_action (X.net.public_key w.client.full_id)
          ≡ Result.ok tt
        → let first = X.sequence.append s entry in
          let w₁ = (remember X first.1 (looked_up address w)).1 in
          right X await (
            right X await
              (left X await (left X await (called address entry, called address entry', w))))
          ≡ (
            sending first.0,
            sending (X.sequence.append first.1 entry').0,
            (remember X (X.sequence.append first.1 entry').1 (looked_up address w₁)).1,
          )
    apart_view w hit own allowed =
        let first = X.sequence.append s entry in
        let w₁ = looked_up address w in
        let w₂ = (remember X first.1 w₁).1 in
        let w₃ = looked_up address w₂ in
        ap (λ r. right X await (right X await (left X await (r.0, called address entry', r.1))))
          (advance-hit address entry s w hit)
        ∙ ap (λ r. right X await (right X await (r.0, called address entry', r.1)))
            (advance-allowed entry s w₁ allowed)
        ∙ ap (λ r. right X await (sending first.0, r.0, r.1))
            (advance-hit address entry' first.1 w₂
              (get-put_own first.1 w₁.client.sequence_cache (appends.keeps_address s entry ∙ own)))
        ∙ ap (λ r. (sending first.0, r.0, r.1))
            (advance-allowed entry' first.1 w₃ (appends.keeps_permission s entry _ ∙ allowed))

    -- Let two clones append to a sequence that is in the cache and that they may append to, where
    -- the cache finds what was just put in or found, and an entry that is appended changes neither
    -- the address nor the permission. If the first clone stores its copy before the second looks
    -- the sequence up, then the second operation stands on the first, and the cache has both
    -- entries. If both look it up before either stores, then both operations are still to be sent,
    -- but the cache has the second entry alone.
    pub appends_race :
        (i j : ℕ) (c : Clones T)
        → i ≢ j
        → c.tasks i ≡ called address entry
        → c.tasks j ≡ called address entry'
        → cached X c.world address ≡ some s
        → X.sequence.address s ≡ address
        → X.sequence.check_permission s X.sequence.append_action
            (X.net.public_key c.world.client.full_id)
          ≡ Result.ok tt
        → let apart = turns X await (i ∷ i ∷ j ∷ j ∷ []) c in
          let mixed = turns X await (i ∷ j ∷ i ∷ j ∷ []) c in
          let (op, edited) = X.sequence.append s entry in
          let (op₂, edited₂) = X.sequence.append edited entry' in
          let (op', edited') = X.sequence.append s entry' in
          ((apart.tasks i ≡ sending op)
            × (apart.tasks j ≡ sending op₂)
            × (cached X apart.world address ≡ some edited₂))
          × ((mixed.tasks i ≡ sending op)
              × (mixed.tasks j ≡ sending op')
              × (cached X mixed.world address ≡ some edited'))
    appends_race i j c ne at_i at_j hit own allowed =
        let first = (X.sequence.append s entry).1 in
        let own₁ = appends.keeps_address s entry ∙ own in
        let both : view X await i j c ≡ (called address entry, called address entry', c.world) =
          rw (at_i, at_j) in
        let apart =
          apart_turns X await i j c ne
          ∙ ap (λ v. right X await (right X await (left X await (left X await v)))) both
          ∙ apart_view c.world hit own allowed in
        let mixed =
          mixed_turns X await i j c ne
          ∙ ap (λ v. right X await (left X await (right X await (left X await v)))) both
          ∙ mixed_view c.world hit allowed in
        (
          (
            ap (λ v. v.0) apart,
            ap (λ v. v.1) apart,
            ap (λ (v : Task T × Task T × World T). cached X v.2 address) apart
                ∙ get-put_own _ _ (appends.keeps_address first entry' ∙ own₁),
          ),
          (
            ap (λ v. v.0) mixed,
            ap (λ v. v.1) mixed,
            ap (λ (v : Task T × Task T × World T). cached X v.2 address) mixed
                ∙ get-put_own _ _ (appends.keeps_address s entry' ∙ own),
          ),
        )
