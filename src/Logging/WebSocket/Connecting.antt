-- ===== src/Logging/WebSocket/Connecting.antt =====
-- What the one who waits for the thread of a web socket is given
-- (src/utils/logging/web_socket.rs).
use mathlib.Core.List.{append_assoc, append-nil}
use safe_client_libs.Shared.{
  ◌≡◌, refl, sym, ap, ◌∙◌, Bool, true, false, String, Option, List, [], ◌∷◌, ◌++◌, if◌then◌else◌,
}
use safe_client_libs.External.Protocol.{Result}
use safe_client_libs.External.Sockets.{SocketApi, LoopEvent, opened, errored, LoopRun}
use safe_client_libs.Logging.WebSocket.Thread.{
  Channel, recv, on_open, on_error, run_events, run_thread, notify,
}
use safe_client_libs.Logging.WebSocket.{connect, received, started}

abbrev pub has_opened : {Fault : Type 0} → List (LoopEvent Fault) → Bool
has_opened [] = false
has_opened (opened ∷ events) = true
has_opened (errored e ∷ events) = has_opened events

module _ {Sender Fault Instant Net : Type 0} (X : SocketApi Sender Fault Instant Net) where
  abbrev openings : Sender → List (LoopEvent Fault) → List (Result Fault Sender)
  openings ws_tx [] = []
  openings ws_tx (opened ∷ events) = Result.ok ws_tx ∷ openings ws_tx events
  openings ws_tx (errored e ∷ events) = openings ws_tx events

  abbrev awaiting : List (Result Fault Sender) → Channel Sender Fault
  awaiting messages = record { has_receiver = true; messages = messages }

  run_events-awaiting :
      (ws_tx : Sender) (events : List (LoopEvent Fault)) (messages : List (Result Fault Sender))
      → run_events X.internal ws_tx events (awaiting messages)
        ≡ awaiting (messages ++ openings ws_tx events)
  unfolding run_events on_open on_error
  run_events-awaiting ws_tx [] messages = ap awaiting (sym (append-nil messages))
  run_events-awaiting ws_tx (opened ∷ events) messages =
      run_events-awaiting ws_tx events (messages ++ (Result.ok ws_tx ∷ []))
      ∙ ap awaiting (append_assoc messages (Result.ok ws_tx ∷ []) (openings ws_tx events))
  run_events-awaiting ws_tx (errored e ∷ events) messages =
      run_events-awaiting ws_tx events messages

  -- The error of a loop that has opened no connection.
  abbrev unopened : Result Fault (Unit {0}) → Result Fault Sender
  unopened (Result.err e) = Result.err e
  unopened (Result.ok _) = received X (Result.err "RecvError")

  abbrev pub outcome : LoopRun Sender Fault → Result Fault Sender
  outcome run = if has_opened run.events then Result.ok run.ws_tx else unopened run.returned

  notified :
      (ws_tx : Sender) (events : List (LoopEvent Fault)) (returned : Result Fault (Unit {0}))
      → received X (recv (notify returned (awaiting (openings ws_tx events))).messages)
        ≡ (if has_opened events then Result.ok ws_tx else unopened returned)
  notified ws_tx [] (Result.ok _) = refl
  notified ws_tx [] (Result.err e) = refl
  notified ws_tx (opened ∷ events) (Result.ok _) = refl
  notified ws_tx (opened ∷ events) (Result.err e) = refl
  notified ws_tx (errored e ∷ events) (Result.ok _) = notified ws_tx events (Result.ok tt)
  notified ws_tx (errored e ∷ events) (Result.err x) = notified ws_tx events (Result.err x)

  -- Once the thread has started, `connect` returns the sender if the event loop has opened a
  -- connection, whatever errors it reports before or after that, and whatever it returns. If not,
  -- `connect` returns the error that the loop ends with, or that of a channel without a sender.
  pub connect-eq-outcome :
      (url : String) (session_id : Option String) (net : Net) (run : LoopRun Sender Fault)
      → (X.spawn url session_id net).0 ≡ Result.ok run
      → (connect X url session_id net).0 ≡ outcome run
  unfolding connect run_thread
  connect-eq-outcome url session_id net run h =
      ap (started X) h
      ∙ ap (λ channel. received X (recv (notify run.returned channel).messages))
          (run_events-awaiting run.ws_tx run.events [])
      ∙ notified run.ws_tx run.events run.returned
