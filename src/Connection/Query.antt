-- ===== src/Connection/Query.antt =====
-- `serialise_in_envelope`, `send_cmd` and `send_query` (src/connection_manager.rs).
pub mod Laws
use safe_client_libs.Shared.{Option, none, some, List, [], ◌∷◌, map, length, String, ◌<>◌}
use safe_client_libs.Shared.{PartialEq}
use safe_client_libs.External.Types.{Types}
use safe_client_libs.External.Protocol.{Bytes, Result, Message, QueryResponse}
use safe_client_libs.External.Api.{NetApi}
use safe_client_libs.Errors.{CoreError, from_text, from_serialisation, from_quic}
use safe_client_libs.Exec.{
  Exec, Exit, ok, err, panic, pure, panics, try, unwrap, ok_or, ◌>>=◌, ◌>>◌,
}
use safe_client_libs.Connection.Link.{ConnectionManager, Link, send_each, send_all}
use safe_client_libs.Connection.Election.{elect, Outcome, elected, exhausted}

module _ {T : Types} (X : NetApi T) where
  unfoldable pub serialise_in_envelope : ConnectionManager T → Message T → Exec T (Link T) Bytes
  serialise_in_envelope cm message = do
    bytes ← try from_serialisation (X.serialise_message message)
    let sign = X.sign cm.full_id bytes
    public_key ← unwrap (X.bls (X.public_key cm.full_id))
    signature ← unwrap (X.into_bls sign)
    try from_serialisation (
        X.serialise_envelope
          (record { message = message; public_key = public_key; signature = signature }))

  -- The results of the tasks are dropped.
  unfoldable pub send_cmd : ConnectionManager T → Message T → Exec T (Link T) (Unit {0})
  unfolding serialise_in_envelope send_each
  send_cmd cm msg = do
    msg_bytes ← serialise_in_envelope cm msg
    send_all X X.send_only msg_bytes cm.elders
    pure tt

  -- What a task gives: the message of the reply, or an error.
  unfoldable pub read_reply : Result T.QuicError Bytes → Result (CoreError T) (Message T)
  read_reply (Result.err e) = Result.err (from_quic e)
  read_reply (Result.ok response) = elim (X.deserialise_envelope response) [
    | Result.ok message ↦ Result.ok message
    | Result.err e ↦
        Result.err (from_text ("Unexpected deserialisation error: " <> X.debug_serialisation e))
  ]

  -- The two matches at the head of the loop: only a query response counts.
  unfoldable pub usable : Option (Result T.QuicError Bytes) → Option (QueryResponse T)
  unfolding read_reply
  usable none = none
  usable (some reply) = elim (read_reply reply) [
    | Result.ok (Message.query_response response) ↦ some response
    | _ ↦ none
  ]

  -- The end of `send_query`, after its loop.
  abbrev pub conclude : Outcome (QueryResponse T) → Link T → Exit T (QueryResponse T) × Link T
  conclude exhausted = panics
  conclude (elected (winner, _)) =
      ok_or (from_text "Failed to obtain a response from the network.") winner

  unfoldable pub send_query : ConnectionManager T → Message T → Exec T (Link T) (QueryResponse T)
  unfolding serialise_in_envelope send_each
  send_query cm msg = do
    msg_bytes ← serialise_in_envelope cm msg
    replies ← send_all X X.send msg_bytes cm.elders
    conclude (elect ⦃e = X.response_eq⦄ X.iterate (length cm.elders) [] (map (usable) replies))
