-- ===== src/Client/Money/Paid.antt =====
-- What a payment that returns has asked for (src/client/transfer_actor/write_apis.rs).
use safe_client_libs.Shared.{◌≡◌, refl, sym, ap, ◌∙◌, Option, none, some}
use safe_client_libs.External.Types.{Types}
use safe_client_libs.External.Protocol.{Result, Cmd, TransferCmd, Message, ActorEvent}
use safe_client_libs.External.Api.{Api}
use safe_client_libs.Errors.{from_text, from_snd}
use safe_client_libs.Exec.{
  Exec, Exit, ok, err, continue-eq-ok, continue-ok, try, ok_or, ◌>>=◌, ◌>>◌,
}
use safe_client_libs.Client.State.{World, create_cmd_message, apply_event, cost_of_put}
use safe_client_libs.Client.Money.Balance.{get_history}
use safe_client_libs.Client.Money.Payments.{Validation, create_write_payment_proof}

module _ {T : Types} (X : Api T) (await : Validation T) where
  -- The validation of a signed transfer, as a payment asks for it.
  abbrev validated : T.SignedTransfer → Exec T (World T) T.DebitAgreementProof
  validated signed w =
      let (id, rng) = X.net.random_name w.link.rng in
      (apply_event X (ActorEvent.transfer_initiated signed)
          >> await (Message.cmd (Cmd.transfer (TransferCmd.validate_transfer signed)) id)
              (X.actor.transfer_id signed))
        (record w { link = record (w.link) { rng = rng } })

  -- In `w` the actor has initiated `signed`, and the elders have given the proof `p` for it.
  abbrev pub IsProvenFor :
      T.SignedTransfer
      → World T
      → T.DebitAgreementProof
      → Exit T T.DebitAgreementProof × World T
      → Type 0
  IsProvenFor signed w p result =
      let (id, rng) = X.net.random_name w.link.rng in
      let initiated =
        apply_event X (ActorEvent.transfer_initiated signed)
          (record w { link = record (w.link) { rng = rng } }) in
      (initiated.0 ≡ ok tt)
      × (result
          ≡ await (Message.cmd (Cmd.transfer (TransferCmd.validate_transfer signed)) id)
              (X.actor.transfer_id signed) initiated.1)

  -- The transfer for which the proof `p` is given is one that the actor signs, on the history that
  -- was taken over, for the cost of a put and for the key of the section.
  abbrev pub IsPaid :
      World T → T.DebitAgreementProof → Exit T T.DebitAgreementProof × World T → Type 0
  IsPaid w p result =
      let w₁ : World T = (get_history X w).1 in
      (signed : T.SignedTransfer) × (X.actor.transfer w₁.client.transfer_actor
          (X.actor.from_nano cost_of_put) (X.actor.set_public_key w₁.client.replicas_pk_set)
        ≡ Result.ok (some signed))
      × IsProvenFor signed w₁ p result

  validated-IsProvenFor :
      (signed : T.SignedTransfer) (w : World T) (p : T.DebitAgreementProof)
      → (validated signed w).0 ≡ ok p
      → IsProvenFor signed w p (validated signed w)
  validated-IsProvenFor signed w p h =
      let (id, rng) = X.net.random_name w.link.rng in
      let w' : World T = record w { link = record (w.link) { rng = rng } } in
      let initiated = apply_event X (ActorEvent.transfer_initiated signed) w' in
      let wait : Exec T (World T) T.DebitAgreementProof =
        await (Message.cmd (Cmd.transfer (TransferCmd.validate_transfer signed)) id)
          (X.actor.transfer_id signed) in
      let (_, e, _) = continue-eq-ok initiated.0 (λ _. wait) initiated.1 h in
      (e, continue-ok initiated.0 (λ _. wait) initiated.1 tt e)

  -- What a payment does with the transfer that the actor gives.
  abbrev paid_with :
      Result T.SndError (Option T.SignedTransfer) → Exec T (World T) T.DebitAgreementProof
  paid_with (Result.ok (some signed)) w = validated signed w
  paid_with (Result.ok none) w = (err (from_text "No transfer produced by actor."), w)
  paid_with (Result.err e) w = (err (from_snd e), w)

  paid_with-IsProvenFor :
      (r : Result T.SndError (Option T.SignedTransfer)) (w : World T) (p : T.DebitAgreementProof)
      → (paid_with r w).0 ≡ ok p
      → (signed : T.SignedTransfer) × (r ≡ Result.ok (some signed))
        × IsProvenFor signed w p (paid_with r w)
  paid_with-IsProvenFor (Result.ok (some signed)) w p h =
      (signed, refl, validated-IsProvenFor signed w p h)
  paid_with-IsProvenFor (Result.ok none) w p h = cc h
  paid_with-IsProvenFor (Result.err e) w p h = cc h

  -- The same in the steps of the source.
  abbrev produced_from :
      Result T.SndError (Option T.SignedTransfer) → Exec T (World T) T.DebitAgreementProof
  produced_from result = do
    produced ← try from_snd result
    signed ← ok_or (from_text "No transfer produced by actor.") produced
    validated signed

  produced_from-eq-paid_with :
      (r : Result T.SndError (Option T.SignedTransfer)) (w : World T)
      → produced_from r w ≡ paid_with r w
  produced_from-eq-paid_with (Result.ok (some signed)) w = refl
  produced_from-eq-paid_with (Result.ok none) w = refl
  produced_from-eq-paid_with (Result.err e) w = refl

  create_write_payment_proof-eq-paid_with :
      (w : World T)
      → (get_history X w).0 ≡ ok tt
      → let w₁ = (get_history X w).1 in
        create_write_payment_proof X await w
        ≡ paid_with
            (X.actor.transfer w₁.client.transfer_actor
              (X.actor.from_nano cost_of_put)
              (X.actor.set_public_key w₁.client.replicas_pk_set))
            w₁
  unfolding create_write_payment_proof create_cmd_message
  create_write_payment_proof-eq-paid_with w h =
      continue-ok (get_history X w).0
        (λ _ w₁.
          produced_from
            (X.actor.transfer w₁.client.transfer_actor (X.actor.from_nano cost_of_put)
              (X.actor.set_public_key w₁.client.replicas_pk_set))
            w₁)
        (get_history X w).1 tt h
      ∙ produced_from-eq-paid_with _ (get_history X w).1

  -- A payment that returns a proof has taken over the history of the account, then had the actor
  -- sign a transfer of the cost of a put to the key of the section, and initiate it; and the proof
  -- is what the validation of that transfer has given.
  pub create_write_payment_proof-IsPaid :
      (w : World T) (p : T.DebitAgreementProof)
      → (create_write_payment_proof X await w).0 ≡ ok p
      → ((get_history X w).0 ≡ ok tt) × IsPaid w p (create_write_payment_proof X await w)
  unfolding create_write_payment_proof
  create_write_payment_proof-IsPaid w p h =
      let (_, e, _) = continue-eq-ok (get_history X w).0 _ _ h in
      let went = create_write_payment_proof-eq-paid_with w e in
      let (signed, made, (initiated, ended)) =
        paid_with-IsProvenFor _ _ p
          (sym (ap (λ (r : Exit T T.DebitAgreementProof × World T). r.0) went) ∙ h) in
      (e, (signed, made, (initiated, went ∙ ended)))
