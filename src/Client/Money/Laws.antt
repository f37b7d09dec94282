-- ===== src/Client/Money/Laws.antt =====
-- What the history and the payments send and change.
use safe_client_libs.Shared.{◌≡◌, ◌≢◌, ◌⊎◌, inl, inr, ap, ◌∙◌, arith}
use safe_client_libs.External.Types.{Types}
use safe_client_libs.External.Protocol.{Query, TransferQuery, Message, XorName}
use safe_client_libs.External.Api.{Api}
use safe_client_libs.Exec.{ok}
use safe_client_libs.Connection.Link.{Link}
use safe_client_libs.Connection.Query
use safe_client_libs.Connection.Query.Laws.{IsSent, IsSent-rng, send_query-trace}
use safe_client_libs.Client.State.{World, create_cmd_message}
use safe_client_libs.Client.Money.Balance.{get_history}
use safe_client_libs.Client.Money.Payments.{
  await_validation, create_write_payment_proof, send_money,
}

module _ {T : Types} (X : Api T) where
  -- What a call has sent is at most one query for the own history, to each elder.
  abbrev pub SentHistoryQuery : World T → World T → Type 0
  SentHistoryQuery w w' =
      (w'.link.trace ≡ w.link.trace)
      ⊎ ((id : XorName) × IsSent X.net w.client.connection_manager
            (Message.query
              (Query.transfer (TransferQuery.get_history (X.net.public_key w.client.full_id) 0)) id)
            w.link w'.link.trace)

  -- The link of a client after a query of its history is that of the query itself.
  get_history-link :
      (w : World T)
      → let (id, rng) = X.net.random_name w.link.rng in
        let message : Message T =
          Message.query
            (Query.transfer (TransferQuery.get_history (X.net.public_key w.client.full_id) 0))
            id in
        let l : Link T = record (w.link) { rng = rng } in
        (get_history X w).1.link ≡ (Query.send_query X.net w.client.connection_manager message l).1
  unfolding get_history
  get_history-link w = ground arith

  get_history_sends : (w : World T) → SentHistoryQuery w (get_history X w).1
  get_history_sends w =
      let (id, rng) = X.net.random_name w.link.rng in
      let cm = w.client.connection_manager in
      let message : Message T =
        Message.query
          (Query.transfer (TransferQuery.get_history (X.net.public_key w.client.full_id) 0)) id in
      let went = ap (λ (l : Link T). l.trace) (get_history-link w) in
      elim (send_query-trace X.net cm message (record (w.link) { rng = rng })) [
        | inl same ↦ inl (went ∙ same)
        | inr sent ↦
            let (bytes, made, held) = IsSent-rng X.net cm message w.link rng _ sent in
            inr (id, (bytes, made, went ∙ held))
      ]

  create_write_payment_proof-trace :
      (w : World T)
      → (create_write_payment_proof X (await_validation T) w).1.link.trace
        ≡ (get_history X w).1.link.trace
  unfolding create_write_payment_proof await_validation create_cmd_message
  create_write_payment_proof-trace w = ground arith

  -- With `await_validation` as it is, no write is ever paid for: the call does not return a proof,
  -- and it has sent nothing but at most a query for the own history.
  pub create_write_payment_proof_unpaid :
      (w : World T)
      → let (end, w') = create_write_payment_proof X (await_validation T) w in
        ((p : T.DebitAgreementProof) → end ≢ ok p) × SentHistoryQuery w w'
  unfolding create_write_payment_proof await_validation
  create_write_payment_proof_unpaid w =
      (λ p h. ground arith, rw (create_write_payment_proof-trace w) (get_history_sends w))

  get_history_keeps_cache :
      (w : World T) → (get_history X w).1.client.sequence_cache ≡ w.client.sequence_cache
  unfolding get_history
  get_history_keeps_cache w = ground arith

  -- An attempt to pay leaves the cached sequences alone.
  pub create_write_payment_proof_keeps_cache :
      (w : World T)
      → (create_write_payment_proof X (await_validation T) w).1.client.sequence_cache
        ≡ w.client.sequence_cache
  unfolding create_write_payment_proof await_validation create_cmd_message
  create_write_payment_proof_keeps_cache w = ground (arith, get_history_keeps_cache w)

  send_money-trace :
      (to : T.PublicKey) (amount : T.Money) (w : World T)
      → (send_money X (await_validation T) to amount w).1.link.trace
        ≡ (get_history X w).1.link.trace
  unfolding send_money await_validation create_cmd_message
  send_money-trace to amount w = ground arith

  -- With `await_validation` as it is, no transfer of money returns, and it has sent nothing but at
  -- most a query for the own history.
  pub send_money_unpaid :
      (to : T.PublicKey) (amount : T.Money) (w : World T)
      → let (end, w') = send_money X (await_validation T) to amount w in
        (end ≢ ok tt) × SentHistoryQuery w w'
  unfolding send_money await_validation
  send_money_unpaid to amount w =
      (λ h. ground arith, rw (send_money-trace to amount w) (get_history_sends w))
