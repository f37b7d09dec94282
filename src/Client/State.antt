-- ===== src/Client/State.antt =====
-- `Client` and its messages (src/client/mod.rs). A clone shares the caches and the actor; here one
-- client runs its calls one after the other, so a lock is always free.
use safe_client_libs.Shared.{ℕ}
use safe_client_libs.External.Types.{Types}
use safe_client_libs.External.Protocol.{Query, Cmd, Message, QueryResponse, ActorEvent}
use safe_client_libs.External.Api.{Api}
use safe_client_libs.Errors.{from_snd}
use safe_client_libs.Exec.{Exec, pure, try, gets, ◌>>=◌}
use safe_client_libs.Connection.Link.{ConnectionManager, Link, random_name}
use safe_client_libs.Connection.Query

abbrev pub immut_data_cache_size : ℕ
immut_data_cache_size = 300

abbrev pub sequence_crdt_replica_size : ℕ
sequence_crdt_replica_size = 300

-- `COST_OF_PUT`, in nanos
abbrev pub cost_of_put : ℕ
cost_of_put = 1

pub record Client (T : Types) : Type 0 where
  pub full_id : T.FullId
  pub blob_cache : T.BlobCache
  pub sequence_cache : T.SequenceCache
  pub transfer_actor : T.Actor
  pub replicas_pk_set : T.PublicKeySet
  pub simulated_farming_payout_dot : T.Dot
  pub connection_manager : ConnectionManager T

-- A client and what its connection manager writes to.
pub record World (T : Types) : Type 0 where
  pub client : Client T
  pub link : Link T

module _ {T : Types} where
  -- A call of the connection manager.
  abbrev pub via_link :
      {A : Type 0} → (ConnectionManager T → Exec T (Link T) A) → Exec T (World T) A
  via_link f w = let (r, l) = f w.client.connection_manager w.link in (r, record w { link = l })

  abbrev pub on_link : {A : Type 0} → Exec T (Link T) A → Exec T (World T) A
  on_link f = via_link (λ _. f)

  abbrev pub set_actor : T.Actor → World T → World T
  set_actor actor w = record w { client = record (w.client) { transfer_actor = actor } }

  abbrev pub set_blob_cache : T.BlobCache → World T → World T
  set_blob_cache cache w = record w { client = record (w.client) { blob_cache = cache } }

  abbrev pub set_cache : T.SequenceCache → World T → World T
  set_cache cache w = record w { client = record (w.client) { sequence_cache = cache } }

module _ {T : Types} (X : Api T) where
  unfoldable pub public_key : Exec T (World T) T.PublicKey
  public_key = gets (λ w. X.net.public_key w.client.full_id)

  -- `Self::create_cmd_message` and `Self::create_query_message`, which need no client.
  unfoldable pub create_cmd_message : Cmd T → Exec T (Link T) (Message T)
  create_cmd_message msg_contents = do id ← random_name X.net; pure (Message.cmd msg_contents id)

  unfoldable pub create_query_message : Query T → Exec T (Link T) (Message T)
  create_query_message msg_contents = do
    id ← random_name X.net
    pure (Message.query msg_contents id)

  -- `connection_manager.send_cmd` and `connection_manager.send_query`
  abbrev pub send_cmd : Message T → Exec T (World T) (Unit {0})
  send_cmd message = via_link (λ cm. Query.send_cmd X.net cm message)

  abbrev pub send_query_message : Message T → Exec T (World T) (QueryResponse T)
  send_query_message message = via_link (λ cm. Query.send_query X.net cm message)

  -- `Client::send_query`
  unfoldable pub send_query : Query T → Exec T (World T) (QueryResponse T)
  unfolding create_query_message
  send_query query = do message ← on_link (create_query_message query); send_query_message message

  -- `actor.apply(event)?`
  abbrev pub apply_event : ActorEvent T → Exec T (World T) (Unit {0})
  apply_event event w =
      let (r, actor) = X.actor.apply w.client.transfer_actor event in
      try from_snd r (set_actor actor w)
