-- ===== src/Client/Create.antt =====
-- How a client comes to be: `Client::new` and `listen_on_network` (src/client/mod.rs), and
-- `ConnectionManager::listen` (src/connection_manager.rs).
pub mod Laws
use safe_client_libs.Shared.{
  ℕ, zero, suc, String, Option, none, some, List, [], ◌∷◌, Bool, true, false, ◌&&◌,
}
use safe_client_libs.Shared.{◌≡◌, ◌≢◌, refl, ap, ◌∙◌, if◌then◌else◌}
use safe_client_libs.External.Types.{Types}
use safe_client_libs.External.Protocol.{Result, Message, Event}
use safe_client_libs.External.Api.{Api}
use safe_client_libs.Errors.{CoreError, from_snd}
use safe_client_libs.Exec.{
  Exec, Exit, ok, err, panic, blocked, continue-ne-ok, pure, try, unwrap, attempt, gets, ◌>>=◌,
  ◌>>◌,
}
use safe_client_libs.Connection.Link.{ConnectionManager, Link}
use safe_client_libs.Connection.Join.{attempt_bootstrap}
use safe_client_libs.Connection.Join.Laws.{attempt_bootstrap-ne-none}
use safe_client_libs.Client.State.{Client, World, immut_data_cache_size, sequence_crdt_replica_size}
use safe_client_libs.Client.Money.Balance.{get_history, get_replica_keys, handle_validation_event}
use safe_client_libs.Client.Money.Payments.{trigger_simulated_farming_payout}

-- `std::sync::mpsc`: the messages that wait. The loop keeps a sender, so a receiver never learns of
-- a hang-up: on an empty channel it waits.
abbrev pub Channel : Types → Type 0
Channel T = List (Message T)

module _ {T : Types} where
  -- The body of `listen` is commented out: it puts nothing into the channel.
  unfoldable pub listen : Channel T → World T → Exit T (Channel T) × World T
  listen channel = pure channel

  abbrev pub recv : Channel T → World T → Exit T (Message T × Channel T) × World T
  recv [] w = (blocked, w)
  recv (message ∷ channel) w = (ok (message, channel), w)

module _ {T : Types} (X : Api T) where
  -- What is done with a message. The outcome of a validation is only logged.
  abbrev pub handle : Message T → World T → Exit T (Unit {0}) × World T
  handle (Message.event event) = do attempt (handle_validation_event X event); pure tt
  handle _ = pure tt

  -- The `loop`. The first number is fuel, and `none` says that it ran out.
  unfoldable pub listen_loop : ℕ → Channel T → World T → Exit T (Option (Unit {0})) × World T
  unfolding listen
  listen_loop zero channel = pure none
  listen_loop (suc fuel) channel = do
    queued ← listen channel
    (message, channel') ← recv queued
    handle message
    listen_loop fuel channel'

  unfoldable pub listen_on_network : ℕ → World T → Exit T (Option (Unit {0})) × World T
  unfolding listen_loop
  listen_on_network fuel = listen_loop fuel []

  -- The key that was given, or a random one; and whether it is random.
  abbrev pub identity : Option T.SecretKey → Link T → Exit T (T.FullId × Bool) × Link T
  identity (some sk) l = (ok (X.actor.from_secret_key sk, false), l)
  identity none l =
      let (full_id, rng) = X.actor.new_bls l.rng in (ok (full_id, true), record l { rng = rng })

  -- With the feature `simulated-payouts`, a random client gets money to start with.
  abbrev pub starting_money : Bool → World T → Exit T (Unit {0}) × World T
  starting_money false = pure tt
  starting_money true = do
    amount ← try from_snd (X.actor.money_from_str "10")
    trigger_simulated_farming_payout X amount

  -- What `new` does once it has its client; the history's outcome is dropped.
  unfoldable pub start : ℕ → Bool → World T → Exit T (Option (Client T)) × World T
  start fuel starts_with_money = do
    starting_money starts_with_money
    attempt (get_history X)
    listened ← listen_on_network fuel
    client ← gets (λ w. w.client)
    pure (elim listened [ some _ ↦ some client | none ↦ none ])

  -- `start` with a new client, on the link of its connection manager.
  abbrev pub with_client : ℕ → Bool → Client T → Link T → Exit T (Option (Client T)) × Link T
  with_client fuel starts_with_money client l =
      let (r, w) = start fuel starts_with_money (record { client = client; link = l }) in
      (r, w.link)

  -- The rest of `new`, after the bootstrap.
  abbrev pub build :
      ℕ
      → Bool
      → T.FullId
      → Option (ConnectionManager T)
      → Link T
      → Exit T (Option (Client T)) × Link T
  build fuel starts_with_money full_id none = pure none
  build fuel starts_with_money full_id (some cm) = do
    replicas_pk_set ← get_replica_keys X full_id cm
    with_client fuel starts_with_money (record {
      full_id = full_id;
      blob_cache = X.blob.empty_cache immut_data_cache_size;
      sequence_cache = X.sequence.empty_cache sequence_crdt_replica_size;
      transfer_actor = X.actor.new_actor full_id replicas_pk_set;
      replicas_pk_set = replicas_pk_set;
      simulated_farming_payout_dot = X.actor.new_dot (X.net.public_key full_id) 0;
      connection_manager = cm;
    })

  -- `Client::new`, with the configuration that was read, and the feature `simulated-payouts`. The
  -- number is the fuel for listening, and `none` says that it ran out.
  unfoldable pub new :
      ℕ → T.QuicConfig → Bool → Option T.SecretKey → Link T → Exit T (Option (Client T)) × Link T
  unfolding start
  new fuel config simulated_payouts sk = do
    (full_id, is_random_client) ← identity sk
    connection_manager ← attempt_bootstrap X.net config full_id
    build fuel (simulated_payouts && is_random_client) full_id connection_manager
