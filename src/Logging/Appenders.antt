-- ===== src/Logging/Appenders.antt =====
-- An appender, which hands encoded records to a thread of its own, and that thread, which writes them
-- (`AsyncAppender` and `SyncWrite` of src/utils/logging/async_log.rs). That the thread starts is
-- taken for granted.
pub mod Framing
pub mod Delivery
use safe_client_libs.Shared.{ℕ, Option, none, some, List, [], ◌∷◌, ◌++◌, Bool}
use safe_client_libs.External.Protocol.{Bytes, Result}
use safe_client_libs.External.Sockets.{SocketApi}
use safe_client_libs.External.Logs.{LogTypes, LogApi}
use safe_client_libs.Logging.WebSocket.{WebSocket, Line, write_all}

abbrev pub msg_terminator : Bytes
msg_terminator = 254 ∷ 253 ∷ 255 ∷ []

pub data AsyncEvent : Type 0 where
  log : Bytes → AsyncEvent
  terminate : AsyncEvent

-- `tx` is the channel, with the events that the thread has not taken yet.
pub record AsyncAppender (T : LogTypes) : Type 0 where
  pub encoder : T.Encoder
  pub tx : List AsyncEvent

-- What a stream has taken so far, write by write.
pub record Stream (T : LogTypes) : Type 0 where
  pub stream : T.Stream
  pub net : T.Net
  pub taken : List Bytes

module _ {T : LogTypes} (X : LogApi T) where
  unfoldable pub new_appender : T.Encoder → AsyncAppender T
  new_appender encoder = record { encoder = encoder; tx = [] }

  abbrev pub sent_on :
      AsyncAppender T → Result T.Fault Bytes → Result T.Fault (Unit {0}) × AsyncAppender T
  sent_on a (Result.err e) = (Result.err e, a)
  sent_on a (Result.ok msg) = (Result.ok tt, record a { tx = a.tx ++ (AsyncEvent.log msg ∷ []) })

  unfoldable pub append : T.Record → AsyncAppender T → Result T.Fault (Unit {0}) × AsyncAppender T
  append entry a = sent_on a (X.encode a.encoder entry)

  unfoldable pub drop_appender : AsyncAppender T → AsyncAppender T
  drop_appender a = record a { tx = a.tx ++ (AsyncEvent.terminate ∷ []) }

  -- The path of a file in the text is replaced by the name of the file.
  abbrev pub with_name : T.Text → Option (Option T.Text) → T.Text
  with_name text none = text
  with_name text (some none) = text
  with_name text (some (some name)) = X.replace text name

  module _ {S : Type 0} (sync_write : Bytes → S → Result T.Fault (Unit {0}) × S) where
    abbrev pub write_text : Option T.Text → S → S
    write_text none s = s
    write_text (some text) s = (sync_write (X.into_bytes (with_name text (X.captures text))) s).1

    -- The loop of the thread over the events of its channel.
    unfoldable pub run_events : List AsyncEvent → S → S
    run_events [] s = s
    run_events (AsyncEvent.log msg ∷ events) s = run_events events (write_text (X.from_utf8 msg) s)
    run_events (AsyncEvent.terminate ∷ events) s = s

  -- `SyncWrite` of the standard output and of a file.
  abbrev pub then_flush :
      T.Handle → Result T.Fault (Unit {0}) × T.Net → Result T.Fault (Unit {0}) × T.Net
  then_flush handle (Result.ok _, net) = X.flush_handle handle net
  then_flush handle (Result.err e, net) = (Result.err e, net)

  unfoldable pub write_to_handle : T.Handle → Bytes → T.Net → Result T.Fault (Unit {0}) × T.Net
  write_to_handle handle buf net = then_flush handle (X.write_handle handle buf net)

  -- `TcpStream::write_all`, with what the stream has taken.
  abbrev pub after_write :
      Bytes → Stream T → Result T.Fault (Unit {0}) × T.Net → Result T.Fault (Unit {0}) × Stream T
  after_write buf s (Result.ok _, net) =
      (Result.ok tt, record s { net = net; taken = s.taken ++ (buf ∷ []) })
  after_write buf s (Result.err e, net) = (Result.err e, record s { net = net })

  abbrev pub write_stream : Bytes → Stream T → Result T.Fault (Unit {0}) × Stream T
  write_stream buf s = after_write buf s (X.write_stream s.stream buf s.net)

  abbrev pub then_terminator :
      Result T.Fault (Unit {0}) × Stream T → Result T.Fault (Unit {0}) × Stream T
  then_terminator (Result.ok _, s) = write_stream msg_terminator s
  then_terminator (Result.err e, s) = (Result.err e, s)

  -- `SyncWrite` of a stream.
  unfoldable pub write_to_stream : Bytes → Stream T → Result T.Fault (Unit {0}) × Stream T
  write_to_stream buf s = then_terminator (write_stream buf s)
