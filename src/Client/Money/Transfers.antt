-- ===== src/Client/Money/Transfers.antt =====
-- What a transfer of money that returns has done.
use mathlib.Core.Path.{subst}
use safe_client_libs.Shared.{◌≡◌, refl, sym, ap, ◌∙◌, Option, none, some, arith}
use safe_client_libs.External.Types.{Types}
use safe_client_libs.External.Protocol.{Result, Cmd, TransferCmd, Message, XorName, ActorEvent}
use safe_client_libs.External.Api.{Api}
use safe_client_libs.Errors.{from_text, from_snd}
use safe_client_libs.Exec.{
  Exec, Exit, ok, err, continue-eq-ok, continue-ok, try, ok_or, gets, ◌>>=◌, ◌>>◌,
}
use safe_client_libs.Connection.Link.{Link}
use safe_client_libs.Connection.Query.Laws.{IsSent, IsSent-rng, send_cmd-trace}
use safe_client_libs.Client.State.{World, create_cmd_message, send_cmd, apply_event}
use safe_client_libs.Client.Money.Balance.{get_history}
use safe_client_libs.Client.Money.Payments.{Validation, send_money}

module _ {T : Types} (X : Api T) where
  -- The end of `send_money`: the registration with the local actor.
  abbrev settle : T.DebitAgreementProof → Exec T (World T) (Unit {0})
  settle debit_proof = do
    actor' ← gets (λ w. w.client.transfer_actor)
    outcome ← try from_snd (X.actor.register actor' debit_proof)
    register_event ← ok_or (from_text "No transfer event to register locally") outcome
    apply_event X (ActorEvent.transfer_registration_sent register_event)

  -- The actor has taken over that the transfer with this proof is registered.
  abbrev pub IsSettled : T.DebitAgreementProof → T.Actor → T.Actor → Type 0
  IsSettled p before after =
      (event : T.TransferRegistrationSent) × (X.actor.register before p ≡ Result.ok (some event))
      × (after ≡ (X.actor.apply before (ActorEvent.transfer_registration_sent event)).1)

  settle-ok :
      (p : T.DebitAgreementProof) (w : World T)
      → (settle p w).0 ≡ ok tt
      → ((settle p w).1.link ≡ w.link)
        × IsSettled p w.client.transfer_actor (settle p w).1.client.transfer_actor
  settle-ok p w h = go (X.actor.register w.client.transfer_actor p) refl
    where
      go :
          (r : Result T.SndError (Option T.TransferRegistrationSent))
          → X.actor.register w.client.transfer_actor p ≡ r
          → ((settle p w).1.link ≡ w.link)
            × IsSettled p w.client.transfer_actor (settle p w).1.client.transfer_actor
      go (Result.ok (some event)) e = (ground arith, (event, e, ground arith))
      go (Result.ok none) e = cc (rw e at h)
      go (Result.err x) e = cc (rw e at h)

  -- What comes after the validation.
  abbrev registered : T.DebitAgreementProof → Exec T (World T) (Unit {0})
  registered p w =
      let (id, rng) = X.net.random_name w.link.rng in
      (send_cmd X (Message.cmd (Cmd.transfer (TransferCmd.register_transfer p)) id) >> settle p)
        (record w { link = record (w.link) { rng = rng } })

  -- From `w` on the transfer with the proof `p` has been registered: with every elder, and with the
  -- actor.
  abbrev pub IsRegistered : T.DebitAgreementProof → World T → World T → Type 0
  IsRegistered p w last =
      ((id : XorName) × IsSent X.net w.client.connection_manager
          (Message.cmd (Cmd.transfer (TransferCmd.register_transfer p)) id) w.link last.link.trace)
      × IsSettled p w.client.transfer_actor last.client.transfer_actor

  registered-IsRegistered :
      (p : T.DebitAgreementProof) (w : World T)
      → (registered p w).0 ≡ ok tt
      → IsRegistered p w (registered p w).1
  registered-IsRegistered p w h =
      let (id, rng) = X.net.random_name w.link.rng in
      let message : Message T = Message.cmd (Cmd.transfer (TransferCmd.register_transfer p)) id in
      let w' : World T = record w { link = record (w.link) { rng = rng } } in
      let cm = w.client.connection_manager in
      let (_, sent, rest) = continue-eq-ok (send_cmd X message w').0 _ _ h in
      let w'' : World T = (send_cmd X message w').1 in
      let went = continue-ok (send_cmd X message w').0 (λ _. settle p) w'' tt sent in
      let (same, (event, given, after)) = settle-ok p w'' rest in
      let (bytes, made, held) =
        IsSent-rng X.net cm message w.link rng _ (send_cmd-trace X.net cm message w'.link sent) in
      (
        (
          id,
          (
            bytes,
            made,
            ap (λ (r : Exit T (Unit {0}) × World T). r.1.link.trace) went
                ∙ ap (λ (l : Link T). l.trace) same
                ∙ held,
          ),
        ),
        (
          event,
          given,
          ap (λ (r : Exit T (Unit {0}) × World T). r.1.client.transfer_actor) went ∙ after,
        ),
      )

  module _ (await : Validation T) where
    -- The validation of a signed transfer, and what comes after it.
    abbrev initiated : T.SignedTransfer → Exec T (World T) (Unit {0})
    initiated signed w =
        let (id, rng) = X.net.random_name w.link.rng in
        (apply_event X (ActorEvent.transfer_initiated signed)
            >> (await (Message.cmd (Cmd.transfer (TransferCmd.validate_transfer signed)) id)
                  (X.actor.transfer_id signed)
                >>= registered))
          (record w { link = record (w.link) { rng = rng } })

    -- In `w` the validation of `signed` begins: the actor has initiated it, the elders give a proof,
    -- and it is registered with that.
    abbrev pub IsAgreed : T.SignedTransfer → World T → World T → Type 0
    IsAgreed signed w last =
        let (id, rng) = X.net.random_name w.link.rng in
        let w' : World T = record w { link = record (w.link) { rng = rng } } in
        let validated =
          await (Message.cmd (Cmd.transfer (TransferCmd.validate_transfer signed)) id)
            (X.actor.transfer_id signed)
            (apply_event X (ActorEvent.transfer_initiated signed) w').1 in
        ((apply_event X (ActorEvent.transfer_initiated signed) w').0 ≡ ok tt)
        × (p : T.DebitAgreementProof) × (validated.0 ≡ ok p)
        × IsRegistered p validated.1 last

    -- The transfer that the actor signs for `amount` and `to`, after the history, is agreed on.
    abbrev pub IsValidated : T.PublicKey → T.Money → World T → Exit T (Unit {0}) × World T → Type 0
    IsValidated to amount w (end, last) =
        let w₁ : World T = (get_history X w).1 in
        (signed : T.SignedTransfer) × (X.actor.transfer w₁.client.transfer_actor amount to
          ≡ Result.ok (some signed))
        × IsAgreed signed w₁ last

    initiated-IsAgreed :
        (signed : T.SignedTransfer) (w : World T)
        → (initiated signed w).0 ≡ ok tt
        → IsAgreed signed w (initiated signed w).1
    initiated-IsAgreed signed w h =
        let (id, rng) = X.net.random_name w.link.rng in
        let w₀ : World T = record w { link = record (w.link) { rng = rng } } in
        let (_, e, h₁) =
          continue-eq-ok (apply_event X (ActorEvent.transfer_initiated signed) w₀).0 _ _ h in
        let w₁ : World T = (apply_event X (ActorEvent.transfer_initiated signed) w₀).1 in
        let wait : Exec T (World T) T.DebitAgreementProof =
          await (Message.cmd (Cmd.transfer (TransferCmd.validate_transfer signed)) id)
            (X.actor.transfer_id signed) in
        let (p, e₁, h₂) = continue-eq-ok (wait w₁).0 registered (wait w₁).1 h₁ in
        let went =
          continue-ok (apply_event X (ActorEvent.transfer_initiated signed) w₀).0
            (λ _. wait >>= registered) w₁ tt e
          ∙ continue-ok (wait w₁).0 registered (wait w₁).1 p e₁ in
        (
          e,
          p,
          e₁,
          subst (λ (r : Exit T (Unit {0}) × World T). IsRegistered p (wait w₁).1 r.1) (sym went)
              (registered-IsRegistered p (wait w₁).1 h₂),
        )

    -- What `send_money` does with the transfer that the actor gives.
    abbrev transferred : Result T.SndError (Option T.SignedTransfer) → Exec T (World T) (Unit {0})
    transferred (Result.ok (some signed)) w = initiated signed w
    transferred (Result.ok none) w = (err (from_text "No transfer generated by the actor."), w)
    transferred (Result.err e) w = (err (from_snd e), w)

    transferred-IsAgreed :
        (r : Result T.SndError (Option T.SignedTransfer)) (w : World T)
        → (transferred r w).0 ≡ ok tt
        → (signed : T.SignedTransfer) × (r ≡ Result.ok (some signed))
          × IsAgreed signed w (transferred r w).1
    transferred-IsAgreed (Result.ok (some signed)) w h =
        (signed, refl, initiated-IsAgreed signed w h)
    transferred-IsAgreed (Result.ok none) w h = cc h
    transferred-IsAgreed (Result.err e) w h = cc h

    -- The same in the steps of the source.
    abbrev produced_from : Result T.SndError (Option T.SignedTransfer) → Exec T (World T) (Unit {0})
    produced_from result = do
      produced ← try from_snd result
      signed ← ok_or (from_text "No transfer generated by the actor.") produced
      initiated signed

    produced_from-eq-transferred :
        (r : Result T.SndError (Option T.SignedTransfer)) (w : World T)
        → produced_from r w ≡ transferred r w
    produced_from-eq-transferred (Result.ok (some signed)) w = refl
    produced_from-eq-transferred (Result.ok none) w = refl
    produced_from-eq-transferred (Result.err e) w = refl

    send_money-eq-transferred :
        (to : T.PublicKey) (amount : T.Money) (w : World T)
        → (get_history X w).0 ≡ ok tt
        → let w₁ = (get_history X w).1 in
          send_money X await to amount w
          ≡ transferred (X.actor.transfer w₁.client.transfer_actor amount to) w₁
    unfolding send_money create_cmd_message
    send_money-eq-transferred to amount w h =
        continue-ok (get_history X w).0
          (λ _ w₁. produced_from (X.actor.transfer w₁.client.transfer_actor amount to) w₁)
          (get_history X w).1 tt h
        ∙ produced_from-eq-transferred _ (get_history X w).1

    -- Where a transfer of money returns, the actor has signed, on the history that was taken over,
    -- a transfer of this amount to this key, and has initiated it; its validation has given a proof;
    -- and all that has been sent after that is the envelope that registers the transfer with that
    -- proof, to each elder. In the end the actor has taken over the registration.
    pub send_money-IsValidated :
        (to : T.PublicKey) (amount : T.Money) (w : World T)
        → (send_money X await to amount w).0 ≡ ok tt
        → IsValidated to amount w (send_money X await to amount w)
    unfolding send_money
    send_money-IsValidated to amount w h =
        let (_, e, _) = continue-eq-ok (get_history X w).0 _ _ h in
        let went = send_money-eq-transferred to amount w e in
        let (signed, made, agreed) =
          transferred-IsAgreed _ _ (sym (ap (λ (r : Exit T (Unit {0}) × World T). r.0) went) ∙ h) in
        (
          signed,
          made,
          subst (λ (r : Exit T (Unit {0}) × World T). IsAgreed signed (get_history X w).1 r.1)
              (sym went) agreed,
        )
