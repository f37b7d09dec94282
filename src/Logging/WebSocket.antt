-- ===== src/Logging/WebSocket.antt =====
-- The web socket that log messages are sent over, with the buffer of those that could not be sent
-- (src/utils/logging/web_socket.rs). `drain` runs on fuel and says whether it has ended; the trace
-- `sent` keeps the messages that a socket has taken.
pub mod Thread
pub mod Connecting
pub mod Laws
pub mod Delivery
use safe_client_libs.Shared.{
  ℕ, zero, suc, Bool, true, false, String, ◌<>◌, Option, none, some, List, [], ◌∷◌, ◌++◌, ltb,
  length, if◌then◌else◌,
}
use safe_client_libs.External.Protocol.{Bytes, Result}
use safe_client_libs.External.Sockets.{SocketApi, LoopRun}
use safe_client_libs.Logging.WebSocket.Thread.{run_thread, recv}

abbrev pub reconnect_period : ℕ
reconnect_period = 10

abbrev pub max_buffered_messages : ℕ
max_buffered_messages = 500000

pub record WebSocket (Sender Fault Instant : Type 0) : Type 0 where
  pub url : String
  pub session_id : Option String
  pub socket : Result Fault Sender
  pub last_reconnect : Instant
  pub message_buffer : List Bytes

pub record Line (Net : Type 0) : Type 0 where
  pub net : Net
  pub sent : List Bytes

module _ {Sender Fault Instant Net : Type 0} (X : SocketApi Sender Fault Instant Net) where
  abbrev Socket : Type 0
  Socket = WebSocket Sender Fault Instant

  -- What the channel of the thread has given.
  abbrev pub received : Result String (Result Fault Sender) → Result Fault Sender
  received (Result.ok r) = r
  received (Result.err text) = Result.err (X.internal ("WebSocket Logger Error: " <> text))

  abbrev pub started : Result Fault (LoopRun Sender Fault) → Result Fault Sender
  started (Result.err e) = Result.err e
  started (Result.ok run) =
      let channel = run_thread X.internal run (record { has_receiver = true; messages = [] }) in
      received (recv channel.messages)

  unfoldable pub connect : String → Option String → Net → Result Fault Sender × Net
  unfolding run_thread
  connect url session_id net = let (run, net') = X.spawn url session_id net in (started run, net')

  -- `WebSocket::new`
  unfoldable pub new_socket : String → Option String → Line Net → Socket × Line Net
  unfolding connect
  new_socket url session_id l =
      let (now, net) = X.now l.net in
      let (socket, net') = connect url session_id net in
      (
        record {
          url = url;
          session_id = session_id;
          socket = socket;
          last_reconnect = X.minus_secs now reconnect_period;
          message_buffer = [];
        },
        record l { net = net' },
      )

  abbrev pub get_sender : Result Fault Sender → Result Fault Sender
  get_sender (Result.ok sender) = Result.ok sender
  get_sender (Result.err _) = Result.err (X.internal "No web socket thread running")

  unfoldable pub queue_message : Bytes → Socket → Socket
  queue_message msg ws =
      if ltb (length ws.message_buffer) max_buffered_messages
      then record ws { message_buffer = ws.message_buffer ++ (msg ∷ []) }
      else ws

  -- Whether the message was sent: `self.get_sender().and_then(|sender| sender.send(to_send))`.
  abbrev pub after_send : Bytes → List Bytes → Result Fault (Unit {0}) × Net → Bool × Line Net
  after_send msg sent (Result.ok _, net) = (true, record { net = net; sent = sent ++ (msg ∷ []) })
  after_send msg sent (Result.err _, net) = (false, record { net = net; sent = sent })

  abbrev pub send_over : Result Fault Sender → Bytes → Line Net → Bool × Line Net
  send_over (Result.ok sender) msg l = after_send msg l.sent (X.send sender msg l.net)
  send_over (Result.err _) msg l = (false, l)

  -- After a failure: connect again, if the last time lies long enough back.
  unfoldable pub reconnect : Socket → Line Net → Socket × Line Net
  unfolding connect
  reconnect ws l =
      let (now, net) = X.now l.net in
      let (socket, net') = connect ws.url ws.session_id net in
      if X.lasts_secs now ws.last_reconnect reconnect_period
      then (record ws { last_reconnect = now; socket = socket }, record l { net = net' })
      else (ws, record l { net = net })

  -- A round of the loop of `write_all`. `later` is the rest of the loop.
  module _ (later : Socket → Line Net → Bool × Socket × Line Net) where
    abbrev pub unless_broken : Result Fault Sender → Socket → Line Net → Bool × Socket × Line Net
    unless_broken (Result.ok _) ws l = later ws l
    unless_broken (Result.err _) ws l = (true, ws, l)

    abbrev pub after_try : Socket → List Bytes → Bool × Line Net → Bool × Socket × Line Net
    after_try ws rest (true, l) = later (record ws { message_buffer = rest }) l
    after_try ws rest (false, l) =
        unless_broken (reconnect ws l).0.socket (reconnect ws l).0 (reconnect ws l).1

    abbrev pub round : Socket → Line Net → List Bytes → Bool × Socket × Line Net
    round ws l [] = (true, ws, l)
    round ws l (msg ∷ rest) = after_try ws rest (send_over (get_sender ws.socket) msg l)

  -- The loop of `write_all`.
  unfoldable pub drain : ℕ → Socket → Line Net → Bool × Socket × Line Net
  unfolding reconnect
  drain zero ws l = (false, ws, l)
  drain (suc fuel) ws l = round (drain fuel) ws l ws.message_buffer

  unfoldable pub write_all : ℕ → Bytes → Socket → Line Net → Bool × Socket × Line Net
  unfolding drain queue_message
  write_all fuel buf ws l = drain fuel (queue_message buf ws) l

  -- `drop`
  abbrev pub close_over : Result Fault Sender → Net → Result Fault (Unit {0}) × Net
  close_over (Result.ok sender) net = X.close sender net
  close_over (Result.err e) net = (Result.err e, net)

  unfoldable pub drop_socket : Socket → Line Net → Line Net
  drop_socket ws l = record l { net = (close_over (get_sender ws.socket) l.net).1 }
