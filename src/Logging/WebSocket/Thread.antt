-- ===== src/Logging/WebSocket/Thread.antt =====
-- The thread of a web socket: its handler, and the channel to the one that waits for the connection
-- (src/utils/logging/web_socket.rs).
use safe_client_libs.Shared.{Bool, true, false, String, List, [], ◌∷◌, ◌++◌}
use safe_client_libs.External.Protocol.{Result}
use safe_client_libs.External.Sockets.{LoopEvent, opened, errored, LoopRun}

-- The channel: whether its receiver is still there, and what has been sent.
pub record Channel (Sender Fault : Type 0) : Type 0 where
  pub has_receiver : Bool
  pub messages : List (Result Fault Sender)

module _ {Sender Fault : Type 0} where
  abbrev pub tx_send_if :
      Bool → Result Fault Sender → Channel Sender Fault → Bool × Channel Sender Fault
  tx_send_if false message channel = (false, channel)
  tx_send_if true message channel =
      (true, record channel { messages = channel.messages ++ (message ∷ []) })

  -- `tx.send(message)`, and whether it is `Ok`
  abbrev pub tx_send : Result Fault Sender → Channel Sender Fault → Bool × Channel Sender Fault
  tx_send message channel = tx_send_if channel.has_receiver message channel

  -- `rx.recv()`: the first message, or an error where no sender is left.
  abbrev pub recv : List (Result Fault Sender) → Result String (Result Fault Sender)
  recv [] = Result.err "RecvError"
  recv (message ∷ messages) = Result.ok message

  module _ (internal : String → Fault) where
    abbrev sent_or_not :
        Bool × Channel Sender Fault → Result Fault (Unit {0}) × Channel Sender Fault
    sent_or_not (true, channel) = (Result.ok tt, channel)
    sent_or_not (false, channel) =
        (Result.err (internal "Channel error - Could not send ws_tx."), channel)

    unfoldable pub on_open :
        Sender → Channel Sender Fault → Result Fault (Unit {0}) × Channel Sender Fault
    on_open ws_tx channel = sent_or_not (tx_send (Result.ok ws_tx) channel)

    unfoldable pub on_error : Fault → Channel Sender Fault → Channel Sender Fault
    on_error e channel = channel

    unfoldable pub run_events :
        Sender → List (LoopEvent Fault) → Channel Sender Fault → Channel Sender Fault
    unfolding on_open on_error
    run_events ws_tx [] channel = channel
    run_events ws_tx (opened ∷ events) channel = run_events ws_tx events (on_open ws_tx channel).1
    run_events ws_tx (errored e ∷ events) channel = run_events ws_tx events (on_error e channel)

  -- `if let Err(e) = ws::connect(…) { let _ = tx.send(Err(e)); }`
  abbrev pub notify : Result Fault (Unit {0}) → Channel Sender Fault → Channel Sender Fault
  notify (Result.ok _) channel = channel
  notify (Result.err e) channel = (tx_send (Result.err e) channel).1

  -- The body of the thread, while the receiver waits.
  unfoldable pub run_thread :
      (String → Fault) → LoopRun Sender Fault → Channel Sender Fault → Channel Sender Fault
  unfolding run_events
  run_thread internal run channel =
      notify run.returned (run_events internal run.ws_tx run.events channel)
