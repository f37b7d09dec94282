-- ===== src/Client/Sequences/Clones/Alone.antt =====
-- A clone that nobody interrupts does what the call does.
use safe_client_libs.Shared.{
  ◌≡◌, ◌≢◌, refl, ap, ◌∙◌, ℕ, zero, suc, List, [], ◌∷◌, arith, update-same, update-other,
}
use safe_client_libs.External.Types.{Types}
use safe_client_libs.External.Protocol.{Bytes}
use safe_client_libs.External.Api.{Api}
use safe_client_libs.Client.State.{World, public_key}
use safe_client_libs.Client.Money.Payments.{Validation}
use safe_client_libs.Client.Sequences.Replicas.{append_to_sequence, get_sequence, fetch_sequence}
use safe_client_libs.Client.Sequences.Clones.{Task, called, over, advance, Clones, turn, turns}

abbrev pub times : ℕ → ℕ → List ℕ
times zero i = []
times (suc n) i = i ∷ times n i

module _ {T : Types} (X : Api T) (await : Validation T) where
  abbrev pub again : ℕ → Task T × World T → Task T × World T
  again zero (task, w) = (task, w)
  again (suc n) (task, w) = again n (advance X await task w)

  again_five :
      (address : T.SequenceAddress) (entry : Bytes) (w : World T)
      → again 5 (called address entry, w) ≡ (
        over (append_to_sequence X await address entry w).0,
        (append_to_sequence X await address entry w).1,
      )
  unfolding advance append_to_sequence get_sequence fetch_sequence public_key
  again_five address entry w = ground arith

  own_turns :
      (n i : ℕ) (c : Clones T)
      → ◌≡◌ {A = Task T × World T}
          ((turns X await (times n i) c).tasks i, (turns X await (times n i) c).world)
          (again n (c.tasks i, c.world))
  own_turns zero i c = refl
  own_turns (suc n) i c =
      own_turns n i (turn X await i c)
      ∙ ap (λ task. again n (task, (advance X await (c.tasks i) c.world).1))
          (update-same i (advance X await (c.tasks i) c.world).0 c.tasks)

  other_turns :
      (n i j : ℕ) (c : Clones T) → i ≢ j → (turns X await (times n i) c).tasks j ≡ c.tasks j
  other_turns zero i j c ne = refl
  other_turns (suc n) i j c ne =
      other_turns n i j (turn X await i c) ne
      ∙ update-other i j (advance X await (c.tasks i) c.world).0 c.tasks ne

  -- A clone that calls `append_to_sequence` and then takes five turns with none of another clone in
  -- between ends its call with what the call returns on what the clones share, leaves behind what
  -- the call leaves behind, and changes no other clone's call.
  pub turns-eq-append_to_sequence :
      (i : ℕ) (address : T.SequenceAddress) (entry : Bytes) (c : Clones T)
      → c.tasks i ≡ called address entry
      → let (end, w) = append_to_sequence X await address entry c.world in
        let c' = turns X await (times 5 i) c in
        (c'.tasks i ≡ over end) × (c'.world ≡ w) × ((j : ℕ) → i ≢ j → c'.tasks j ≡ c.tasks j)
  turns-eq-append_to_sequence i address entry c h =
      let whole =
        own_turns 5 i c
        ∙ ap (λ task. again 5 (task, c.world)) h
        ∙ again_five address entry c.world in
      (ap (λ r. r.0) whole, ap (λ r. r.1) whole, λ j ne. other_turns 5 i j c ne)
