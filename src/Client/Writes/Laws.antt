-- ===== src/Client/Writes/Laws.antt =====
-- What a write that returns has done, and what every write does as long as no validation comes.
use safe_client_libs.Shared.{◌≡◌, ◌≢◌, refl, ap, ◌∙◌, arith}
use safe_client_libs.External.Types.{Types}
use safe_client_libs.External.Protocol.{Cmd, DataCmd, Message, XorName}
use safe_client_libs.External.Api.{Api}
use safe_client_libs.Exec.{Exit, ok, err, panic, blocked}
use safe_client_libs.Connection.Link.{Link}
use safe_client_libs.Connection.Query
use safe_client_libs.Connection.Query.Laws.{IsSent, IsSent-rng, send_cmd-trace}
use safe_client_libs.Client.State.{World, create_cmd_message}
use safe_client_libs.Client.Money.Payments.{
  Validation, await_validation, create_write_payment_proof, apply_write_payment_to_local_actor,
}
use safe_client_libs.Client.Money.Laws.{
  SentHistoryQuery, create_write_payment_proof_unpaid, create_write_payment_proof_keeps_cache,
}
use safe_client_libs.Client.Maps.Writes.{
  delete_map, delete_map_user_perms, set_map_user_perms, edit_map_entries, new_map,
}
use safe_client_libs.Client.Blobs.{delete_blob}
use safe_client_libs.Client.Sequences.Writes.{
  delete_sequence, pay_and_write_append_to_sequence_to_network, pay_and_write_sequence_to_network,
  set_sequence_owner, edit_sequence_private_perms, edit_sequence_public_perms,
}
use safe_client_libs.Client.Writes.{
  WriteCall, map_deletion, map_permissions_deletion, map_permissions, map_edit, map_creation,
  blob_deletion, sequence_deletion, sequence_append, sequence_creation, sequence_owner,
  sequence_private_permissions, sequence_public_permissions, order, run, send_paid, pay_and_send,
}

module _ {T : Types} (X : Api T) (await : Validation T) where
  -- Every one of the twelve writes of maps, sequences and blobs pays, sends its own command with
  -- the payment, and registers the payment, in this order.
  pub run-eq-pay_and_send : (c : WriteCall T) → run X await c ≡ pay_and_send X await (order c)
  unfolding run pay_and_send order delete_blob delete_map delete_map_user_perms set_map_user_perms
      edit_map_entries new_map delete_sequence pay_and_write_append_to_sequence_to_network
      pay_and_write_sequence_to_network set_sequence_owner edit_sequence_private_perms
      edit_sequence_public_perms
  run-eq-pay_and_send (map_deletion a) = refl
  run-eq-pay_and_send (map_permissions_deletion a user version) = refl
  run-eq-pay_and_send (map_permissions a user permissions version) = refl
  run-eq-pay_and_send (map_edit a changes) = refl
  run-eq-pay_and_send (map_creation m) = refl
  run-eq-pay_and_send (blob_deletion a) = refl
  run-eq-pay_and_send (sequence_deletion a) = refl
  run-eq-pay_and_send (sequence_append op) = refl
  run-eq-pay_and_send (sequence_creation s) = refl
  run-eq-pay_and_send (sequence_owner op) = refl
  run-eq-pay_and_send (sequence_private_permissions op) = refl
  run-eq-pay_and_send (sequence_public_permissions op) = refl

module _ {T : Types} (X : Api T) where
  pub apply_write_payment_keeps :
      (p : T.DebitAgreementProof) (w : World T)
      → (apply_write_payment_to_local_actor X p w).1.link ≡ w.link
  unfolding apply_write_payment_to_local_actor
  apply_write_payment_keeps p w = ground arith

  send_paid-trace :
      (write : DataCmd T) (p : T.DebitAgreementProof) (w : World T)
      → (send_paid X write p w).0 ≡ ok tt
      → IsSent X.net w.client.connection_manager
          (Message.cmd (Cmd.data_cmd write p) (X.net.random_name w.link.rng).0)
          w.link
          (send_paid X write p w).1.link.trace
  unfolding send_paid create_cmd_message
  send_paid-trace write p w h = go _ refl
    where
      message : Message T
      message = Message.cmd (Cmd.data_cmd write p) (X.net.random_name w.link.rng).0

      l : Link T
      l = record (w.link) { rng = (X.net.random_name w.link.rng).1 }

      go :
          (r : Exit T (Unit {0}))
          → (Query.send_cmd X.net w.client.connection_manager message l).0 ≡ r
          → IsSent X.net w.client.connection_manager message w.link
              (send_paid X write p w).1.link.trace
      go (ok tt) e =
          let cm = w.client.connection_manager in
          let (bytes, made, held) =
            IsSent-rng X.net cm message w.link (X.net.random_name w.link.rng).1 _
              (send_cmd-trace X.net cm message l e) in
          (bytes, made, rw e (ap (λ (k : Link T). k.trace) (apply_write_payment_keeps p _) ∙ held))
      go (err x) e = cc (rw e at h)
      go panic e = cc (rw e at h)
      go blocked e = cc (rw e at h)

  module _ (await : Validation T) where
    pay_and_send-eq-ok :
        (write : DataCmd T) (w : World T)
        → (pay_and_send X await write w).0 ≡ ok tt
        → (p : T.DebitAgreementProof) × (id : XorName) × ((create_write_payment_proof X await w).0
            ≡ ok p)
          × (let w₁ = (create_write_payment_proof X await w).1 in
              IsSent X.net w₁.client.connection_manager
                (Message.cmd (Cmd.data_cmd write p) id)
                w₁.link
                (pay_and_send X await write w).1.link.trace)
    unfolding pay_and_send
    pay_and_send-eq-ok write w h = go _ refl
      where
        w₁ : World T
        w₁ = (create_write_payment_proof X await w).1

        go :
            (r : Exit T T.DebitAgreementProof)
            → (create_write_payment_proof X await w).0 ≡ r
            → (p : T.DebitAgreementProof) × (id : XorName) × ((create_write_payment_proof X await
                  w).0
                ≡ ok p)
              × IsSent X.net w₁.client.connection_manager
                  (Message.cmd (Cmd.data_cmd write p) id)
                  w₁.link
                  (pay_and_send X await write w).1.link.trace
        go (ok p) e =
            (p, (X.net.random_name w₁.link.rng).0, e, rw e (send_paid-trace write p w₁ (rw e at h)))
        go (err x) e = cc (rw e at h)
        go panic e = cc (rw e at h)
        go blocked e = cc (rw e at h)

    pay_and_send-stops :
        (write : DataCmd T) (w : World T)
        → ((p : T.DebitAgreementProof) → (create_write_payment_proof X await w).0 ≢ ok p)
        → ((pay_and_send X await write w).0 ≢ ok tt)
          × ((pay_and_send X await write w).1 ≡ (create_write_payment_proof X await w).1)
    unfolding pay_and_send
    pay_and_send-stops write w h = go _ refl
      where
        go :
            (r : Exit T T.DebitAgreementProof)
            → (create_write_payment_proof X await w).0 ≡ r
            → ((pay_and_send X await write w).0 ≢ ok tt)
              × ((pay_and_send X await write w).1 ≡ (create_write_payment_proof X await w).1)
        go (ok p) e = absurd (h p e)
        go (err x) e = (λ k. ground arith, ground arith)
        go panic e = (λ k. ground arith, ground arith)
        go blocked e = (λ k. ground arith, ground arith)

    -- A write that returns has paid with a proof `p` before, and all that it has sent after that is
    -- the envelope of its own command with that proof, to each elder.
    pub run-eq-ok :
        (c : WriteCall T) (w : World T)
        → (run X await c w).0 ≡ ok tt
        → (p : T.DebitAgreementProof) × (id : XorName) × ((create_write_payment_proof X await w).0
            ≡ ok p)
          × (let w₁ = (create_write_payment_proof X await w).1 in
              IsSent X.net w₁.client.connection_manager
                (Message.cmd (Cmd.data_cmd (order c) p) id)
                w₁.link
                (run X await c w).1.link.trace)
    run-eq-ok c w h =
        rw (run-eq-pay_and_send X await c)
          (pay_and_send-eq-ok (order c) w (rw (run-eq-pay_and_send X await c) at h))

  -- With `await_validation` as it is, no write returns, and all that it has sent to the elders is
  -- at most one query for the own history: no command.
  pub run_unpaid :
      (c : WriteCall T) (w : World T)
      → ((run X (await_validation T) c w).0 ≢ ok tt)
        × SentHistoryQuery X w (run X (await_validation T) c w).1
  run_unpaid c w =
      let (never, sent) = create_write_payment_proof_unpaid X w in
      let (fails, same) = pay_and_send-stops (await_validation T) (order c) w never in
      rw (run-eq-pay_and_send X (await_validation T) c) (fails, rw same sent)

  -- So a write leaves the cached sequences alone.
  pub run_unpaid_keeps_cache :
      (c : WriteCall T) (w : World T)
      → (run X (await_validation T) c w).1.client.sequence_cache ≡ w.client.sequence_cache
  run_unpaid_keeps_cache c w =
      let (never, _) = create_write_payment_proof_unpaid X w in
      let (_, same) = pay_and_send-stops (await_validation T) (order c) w never in
      rw (run-eq-pay_and_send X (await_validation T) c)
        (rw same (create_write_payment_proof_keeps_cache X w))
