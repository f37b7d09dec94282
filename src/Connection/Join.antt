-- ===== src/Connection/Join.antt =====
-- How a connection manager comes to its elders: `new`, `bootstrap_and_handshake`,
-- `connect_to_elders` and `bootstrap` (src/connection_manager.rs), and `attempt_bootstrap`
-- (src/client/mod.rs).
pub mod Laws
use mathlib.Core.List.{map}
use safe_client_libs.Shared.{ℕ, zero, suc, ◌+◌, String, ◌<>◌, Option, none, some, List, [], ◌∷◌}
use safe_client_libs.Shared.{◌++◌, length, ltb, if◌then◌else◌}
use safe_client_libs.External.Types.{Types}
use safe_client_libs.External.Protocol.{Bytes, XorName, Result, HandshakeRequest, HandshakeResponse}
use safe_client_libs.External.Api.{NetApi}
use safe_client_libs.Errors.{CoreError, from_text, from_serialisation, from_quic, display}
use safe_client_libs.Exec.{
  Exec, Exit, ok, err, panic, blocked, pure, raise, panics, finish, try, attempt, ◌>>=◌, ◌>>◌,
}
use safe_client_libs.Connection.Link.{ConnectionManager, Link, on_net, run_tasks}

module _ {T : Types} (X : NetApi T) where
  -- `ConnectionManager::new`
  unfoldable pub new : T.QuicConfig → T.FullId → Exec T (Link T) (ConnectionManager T)
  new config full_id = do
    quic_p2p ← try from_quic (← on_net X (X.with_config (X.with_port config 0)))
    pure (record { full_id = full_id; quic_p2p = quic_p2p; elders = [] })

  -- `unimplemented!()` stands in the branch of a rebootstrap.
  unfoldable pub bootstrap_and_handshake : ConnectionManager T → Exec T (Link T) (List T.SocketAddr)
  bootstrap_and_handshake cm = do
    conn ← try from_quic (← on_net X (X.bootstrap cm.quic_p2p))
    let handshake = HandshakeRequest.bootstrap (X.public_key cm.full_id)
    msg ← try from_serialisation (X.serialise_handshake handshake)
    response ← try from_quic (← on_net X (X.send conn msg))
    elim (X.deserialise_handshake response) [
      | Result.ok HandshakeResponse.rebootstrap ↦ panics
      | Result.ok (HandshakeResponse.join elders) ↦ pure (map (λ (_, ci). ci) elders)
      | Result.ok _ ↦
          raise
            (from_text "Unexpected message type received while expecting list of Elders to join.")
      | Result.err e ↦ raise (from_text ("Unexpected error " <> X.debug_serialisation e))
    ]

  -- A call of a task on the network, with `?`.
  abbrev call : {A : Type 0} → (T.Net → Result T.QuicError A × T.Net) → Exec T T.Net A
  call f net = try from_quic (f net).0 (f net).1

  -- The task for one elder.
  unfoldable pub join_elder : T.QuicP2p → T.FullId → T.SocketAddr → Exec T T.Net T.Connection
  join_elder quic_p2p full_id peer_addr = do
    conn ← call (X.connect_to quic_p2p peer_addr)
    msg ←
        try from_serialisation
          (X.serialise_handshake (HandshakeRequest.join (X.public_key full_id)))
    join_response ← call (X.send conn msg)
    elim (X.deserialise_handshake join_response) [
      | Result.ok (HandshakeResponse.challenge _ challenge) ↦ do
        let response = HandshakeRequest.challenge_result (X.sign full_id challenge)
        reply ← try from_serialisation (X.serialise_handshake response)
        call (X.send_only conn reply)
        pure conn
      | Result.ok _ ↦
          raise (from_text "Unexpected message type while expeccting challenge from Elder.")
      | Result.err e ↦ raise (from_text ("Unexpected error " <> X.debug_serialisation e))
    ]

  abbrev pub failed_to_connect : CoreError T → CoreError T
  failed_to_connect e = from_text ("Failed to connect to an Elder: " <> display X.text e)

  -- `while !has_sufficent_connections`, over what the tasks give.
  unfoldable pub collect :
      List (Option (Exit T T.Connection)) → List T.Connection → Exit T (List T.Connection)
  collect [] elders = panic
  collect (none ∷ todo) elders =
      let rest = collect todo elders in if ltb 2 (length elders) then ok elders else rest
  collect (some (ok conn) ∷ todo) elders =
      let rest = collect todo (elders ++ (conn ∷ [])) in
      if ltb 2 (length (elders ++ (conn ∷ []))) then ok (elders ++ (conn ∷ [])) else rest
  collect (some (err e) ∷ todo) elders = err (failed_to_connect e)
  collect (some panic ∷ todo) elders = panic
  collect (some blocked ∷ todo) elders = blocked

  unfoldable pub connect_to_elders :
      ConnectionManager T → List T.SocketAddr → Exec T (Link T) (ConnectionManager T)
  unfolding join_elder collect
  connect_to_elders cm elders_addrs = do
    results ← on_net X (λ net.
        run_tasks X (join_elder cm.quic_p2p cm.full_id) (X.addresses_order net elders_addrs) net)
    elders ← finish (collect results cm.elders)
    pure (record cm { elders = elders })

  -- `ConnectionManager::bootstrap`
  unfoldable pub bootstrap : ConnectionManager T → Exec T (Link T) (ConnectionManager T)
  unfolding bootstrap_and_handshake connect_to_elders
  bootstrap cm = do connect_to_elders cm (← bootstrap_and_handshake cm)

  -- The `match res` of the loop: the count of attempts has grown by then.
  abbrev pub after_attempt :
      Exec T (Link T) (Option (ConnectionManager T))
      → ℕ
      → Result (CoreError T) (ConnectionManager T)
      → Exec T (Link T) (Option (ConnectionManager T))
  after_attempt again attempts (Result.ok cm) = pure (some cm)
  after_attempt again attempts (Result.err e) = if ltb attempts 3 then again else raise e

  -- The loop of `attempt_bootstrap`. The first number is fuel, and `none` says that it ran out.
  unfoldable pub attempt_loop :
      ℕ → ℕ → T.QuicConfig → T.FullId → Exec T (Link T) (Option (ConnectionManager T))
  unfolding new bootstrap
  attempt_loop zero attempts config full_id = pure none
  attempt_loop (suc fuel) attempts config full_id = do
    connection_manager ← new config full_id
    res ← attempt (bootstrap connection_manager)
    after_attempt (attempt_loop fuel (attempts + 1) config full_id) (attempts + 1) res

  unfoldable pub attempt_bootstrap :
      T.QuicConfig → T.FullId → Exec T (Link T) (Option (ConnectionManager T))
  unfolding attempt_loop
  attempt_bootstrap config full_id = attempt_loop 3 0 config full_id
