-- ===== src/Client/Money/Payments.antt =====
-- Payments (src/client/transfer_actor): the proof that a write is paid for, its registration with the
-- local actor, transfers of money, and simulated payouts. `await_validation` is a parameter `await`
-- of what calls it, so that what comes after it can be stated; in the source it is
-- `unimplemented!()`.
use safe_client_libs.External.Types.{Types}
use safe_client_libs.External.Protocol.{Cmd, TransferCmd, Transfer, Message, ActorEvent}
use safe_client_libs.External.Api.{Api}
use safe_client_libs.Errors.{from_text, from_snd}
use safe_client_libs.Exec.{Exec, raise, panics, try, ok_or, gets, modify, ◌>>=◌, ◌>>◌}
use safe_client_libs.Client.State.{
  World, on_link, create_cmd_message, send_cmd, apply_event, public_key, cost_of_put,
}
use safe_client_libs.Client.Money.Balance.{get_history}

abbrev pub Validation : Types → Type 0
Validation T = Message T → T.TransferId → Exec T (World T) T.DebitAgreementProof

unfoldable pub await_validation : (T : Types) → Validation T
await_validation T message id = panics

module _ {T : Types} (X : Api T) where
  unfoldable pub apply_write_payment_to_local_actor :
      T.DebitAgreementProof → Exec T (World T) (Unit {0})
  apply_write_payment_to_local_actor debit_proof = do
    actor ← gets (λ w. w.client.transfer_actor)
    outcome ← try from_snd (X.actor.register actor debit_proof)
    register_event ← ok_or (from_text "No events to register for proof.") outcome
    apply_event X (ActorEvent.transfer_registration_sent register_event)

  module _ (await : Validation T) where
    unfoldable pub create_write_payment_proof : Exec T (World T) T.DebitAgreementProof
    create_write_payment_proof = do
      get_history X
      section_key ← gets (λ w. X.actor.set_public_key w.client.replicas_pk_set)
      actor ← gets (λ w. w.client.transfer_actor)
      produced ← try from_snd (X.actor.transfer actor (X.actor.from_nano cost_of_put) section_key)
      signed_transfer ← ok_or (from_text "No transfer produced by actor.") produced
      let command = Cmd.transfer (TransferCmd.validate_transfer signed_transfer)
      transfer_message ← on_link (create_cmd_message X command)
      apply_event X (ActorEvent.transfer_initiated signed_transfer)
      await transfer_message (X.actor.transfer_id signed_transfer)

    unfoldable pub send_money : T.PublicKey → T.Money → Exec T (World T) (Unit {0})
    send_money to amount = do
      get_history X
      actor ← gets (λ w. w.client.transfer_actor)
      produced ← try from_snd (X.actor.transfer actor amount to)
      signed_transfer ← ok_or (from_text "No transfer generated by the actor.") produced
      let msg_contents = Cmd.transfer (TransferCmd.validate_transfer signed_transfer)
      message ← on_link (create_cmd_message X msg_contents)
      apply_event X (ActorEvent.transfer_initiated signed_transfer)
      debit_proof ← await message (X.actor.transfer_id signed_transfer)
      register_message ←
          on_link (create_cmd_message X (Cmd.transfer (TransferCmd.register_transfer debit_proof)))
      send_cmd X register_message
      actor' ← gets (λ w. w.client.transfer_actor)
      outcome ← try from_snd (X.actor.register actor' debit_proof)
      register_event ← ok_or (from_text "No transfer event to register locally") outcome
      apply_event X (ActorEvent.transfer_registration_sent register_event)

  -- Without the feature `simulated-payouts`.
  unfoldable pub trigger_simulated_farming_payout_unavailable :
      T.Money → Exec T (World T) (Unit {0})
  trigger_simulated_farming_payout_unavailable amount =
      raise (from_text "Simulated payouts not available without 'simulated-payouts' feature flag")

  -- With it.
  unfoldable pub trigger_simulated_farming_payout : T.Money → Exec T (World T) (Unit {0})
  trigger_simulated_farming_payout amount = do
    pk ← public_key X
    modify (λ w. record w {
      client = record (w.client) {
        simulated_farming_payout_dot = X.actor.apply_inc w.client.simulated_farming_payout_dot;
      };
    })
    dot ← gets (λ w. w.client.simulated_farming_payout_dot)
    let simulated_transfer : Transfer T = record { to = pk; amount = amount; id = dot }
    message ←
        on_link
          (create_cmd_message X (Cmd.transfer (TransferCmd.simulate_payout simulated_transfer)))
    send_cmd X message
    get_history X
