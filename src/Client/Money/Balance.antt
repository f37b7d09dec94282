-- ===== src/Client/Money/Balance.antt =====
-- The balance on the network and the local one, the history that the local actor takes over, and the
-- events that validate its transfers (src/client/transfer_actor/mod.rs and balance_management.rs).
use safe_client_libs.Shared.{◌<>◌, Option, none, some, contains_text, if◌then◌else◌}
use safe_client_libs.External.Types.{Types}
use safe_client_libs.External.Protocol.{
  Result, Query, TransferQuery, QueryResponse, ActorEvent, Event,
}
use safe_client_libs.External.Api.{Api}
use safe_client_libs.Errors.{from_text, from_snd}
use safe_client_libs.Exec.{Exec, Exit, pure, raise, try, gets, ◌>>=◌, ◌>>◌}
use safe_client_libs.Connection.Link.{ConnectionManager, Link}
use safe_client_libs.Connection.Query
use safe_client_libs.Client.State.{
  Client, World, on_link, create_query_message, send_query_message, apply_event, public_key,
}

module _ {T : Types} (X : Api T) where
  -- The matches on the response in `get_history`, `get_balance_from_network` and `get_replica_keys`.
  abbrev pub expect_history : QueryResponse T → World T → Exit T T.TransferHistory × World T
  expect_history (QueryResponse.get_history history) = try from_snd history
  expect_history res =
      raise
        (from_text ("Unexpected response when retrieving account history " <> X.debug_response res))

  abbrev pub expect_balance : QueryResponse T → World T → Exit T T.Money × World T
  expect_balance (QueryResponse.get_balance balance) = try from_snd balance
  expect_balance _ = raise (from_text "Unexpected response when querying balance")

  abbrev pub expect_replica_keys :
      T.FullId → QueryResponse T → Link T → Exit T T.PublicKeySet × Link T
  expect_replica_keys full_id (QueryResponse.get_replica_keys pk_set) = try from_snd pk_set
  expect_replica_keys full_id _ = raise (
      from_text (
        "Unexpected response when retrieving account replica keys for "
        <> X.debug_public_key (X.net.public_key full_id)))

  -- The match on `actor.synch(history)`.
  abbrev pub take_over :
      Result T.SndError (Option T.SynchedTransfers) → World T → Exit T (Unit {0}) × World T
  take_over (Result.ok (some transfers)) = apply_event X (ActorEvent.transfers_synched transfers)
  take_over (Result.ok none) = pure tt
  take_over (Result.err error) =
      if contains_text (X.net.text.display_snd error) "No credits or debits found to sync to actor"
      then pure tt
      else raise (from_snd error)

  unfoldable pub get_history : Exec T (World T) (Unit {0})
  unfolding create_query_message public_key
  get_history = do
    key ← public_key X
    message ← on_link (create_query_message X (Query.transfer (TransferQuery.get_history key 0)))
    res ← send_query_message X message
    history ← expect_history res
    actor ← gets (λ w. w.client.transfer_actor)
    take_over (X.actor.synch actor history)

  abbrev pub or_own : Option T.PublicKey → Client T → T.PublicKey
  or_own (some key) client = key
  or_own none client = X.net.public_key client.full_id

  unfoldable pub get_balance_from_network : Option T.PublicKey → Exec T (World T) T.Money
  unfolding create_query_message
  get_balance_from_network pk = do
    key ← gets (λ w. or_own pk w.client)
    message ← on_link (create_query_message X (Query.transfer (TransferQuery.get_balance key)))
    expect_balance (← send_query_message X message)

  unfoldable pub get_balance : Exec T (World T) T.Money
  unfolding get_balance_from_network
  get_balance = get_balance_from_network none

  unfoldable pub get_balance_for : T.PublicKey → Exec T (World T) T.Money
  unfolding get_balance_from_network
  get_balance_for key = get_balance_from_network (some key)

  unfoldable pub get_local_balance : Exec T (World T) T.Money
  get_local_balance = gets (λ w. X.actor.balance w.client.transfer_actor)

  -- An associated function: it runs before there is a client.
  unfoldable pub get_replica_keys : T.FullId → ConnectionManager T → Exec T (Link T) T.PublicKeySet
  unfolding create_query_message
  get_replica_keys full_id cm = do
    message ←
        create_query_message X
          (Query.transfer (TransferQuery.get_replica_keys (X.net.public_key full_id)))
    res ← Query.send_query X.net cm message
    expect_replica_keys full_id res

  -- The match on `actor.receive(validation)`.
  abbrev pub after_receive :
      Result T.SndError (Option T.TransferValidationReceived)
      → World T
      → Exit T (Option T.DebitAgreementProof) × World T
  after_receive (Result.ok (some validation)) = do
    apply_event X (ActorEvent.transfer_validation_received validation)
    pure (X.actor.proof validation)
  after_receive (Result.ok none) = pure none
  after_receive (Result.err error) =
      if contains_text (X.net.text.display_snd error) "Already received validation"
      then pure none
      else raise (from_snd error)

  unfoldable pub handle_validation_event : Event T → Exec T (World T) (Option T.DebitAgreementProof)
  handle_validation_event (Event.transfer_validated validation) = do
    actor ← gets (λ w. w.client.transfer_actor)
    after_receive (X.actor.receive actor validation)
  handle_validation_event Event.other =
      raise
        (from_text ("Unexpected event received at TransferActor, " <> X.debug_event Event.other))
