-- ===== src/Logging/Appenders/Delivery.antt =====
-- From the records that are appended to the stream of the log server.
use mathlib.Core.List.{append_assoc, append-nil}
use safe_client_libs.Shared.{
  ◌<◌, ◌≡◌, refl, sym, ap, ◌∙◌, Option, none, some, List, [], ◌∷◌, ◌++◌, All,
}
use safe_client_libs.External.Protocol.{Bytes, Result}
use safe_client_libs.External.Logs.{LogTypes, LogApi}
use safe_client_libs.Logging.Appenders.{
  AsyncEvent, AsyncAppender, Stream, msg_terminator, new_appender, append, sent_on, drop_appender,
  with_name, run_events, write_text, after_write, then_terminator, write_to_stream,
}
use safe_client_libs.Logging.Appenders.Framing.{
  frames, concat, writes, writes-append, frames-writes,
}

module _ {T : LogTypes} (X : LogApi T) where
  -- What the thread makes of a message: nothing, if it is no UTF-8.
  abbrev pub text_bytes : Option T.Text → List Bytes
  text_bytes none = []
  text_bytes (some text) = X.into_bytes (with_name X text (X.captures text)) ∷ []

  -- The texts of these records that can be encoded to UTF-8, in their order.
  abbrev pub record_bytes : Result T.Fault Bytes → List Bytes
  record_bytes (Result.err _) = []
  record_bytes (Result.ok msg) = text_bytes (X.from_utf8 msg)

  abbrev pub readable : T.Encoder → List T.Record → List Bytes
  readable encoder [] = []
  readable encoder (entry ∷ entries) =
      record_bytes (X.encode encoder entry) ++ readable encoder entries

  -- Appends these records, one after another.
  abbrev pub append_entries : List T.Record → AsyncAppender T → AsyncAppender T
  append_entries [] a = a
  append_entries (entry ∷ entries) a = append_entries entries (append X entry a).1

  -- What Rust documents of a `String`: its bytes are UTF-8, in which no byte is 248 or more.
  pub record IsUtf8 : Type 0 where
    pub small : (text : T.Text) → All (λ b. b < 248) (X.into_bytes text)

  -- The texts that the thread writes for these events.
  abbrev texts : List AsyncEvent → List Bytes
  texts [] = []
  texts (AsyncEvent.log msg ∷ events) = text_bytes (X.from_utf8 msg) ++ texts events
  texts (AsyncEvent.terminate ∷ _) = []

  abbrev event_of : Result T.Fault Bytes → List AsyncEvent
  event_of (Result.err _) = []
  event_of (Result.ok msg) = AsyncEvent.log msg ∷ []

  abbrev events_of : T.Encoder → List T.Record → List AsyncEvent
  events_of encoder [] = []
  events_of encoder (entry ∷ entries) =
      event_of (X.encode encoder entry) ++ events_of encoder entries

  sent_on-tx :
      (a : AsyncAppender T) (r : Result T.Fault Bytes)
      → (sent_on X a r).1 ≡ record { encoder = a.encoder; tx = a.tx ++ event_of r }
  sent_on-tx a (Result.err _) = rw (append-nil a.tx) refl
  sent_on-tx a (Result.ok msg) = refl

  append_entries-tx :
      (entries : List T.Record) (a : AsyncAppender T)
      → (append_entries entries a).tx ≡ a.tx ++ events_of a.encoder entries
  unfolding append
  append_entries-tx [] a = sym (append-nil a.tx)
  append_entries-tx (entry ∷ entries) a =
      let r = X.encode a.encoder entry in
      ap (λ b. (append_entries entries b).tx) (sent_on-tx a r)
      ∙ append_entries-tx entries (record { encoder = a.encoder; tx = a.tx ++ event_of r })
      ∙ append_assoc a.tx (event_of r) (events_of a.encoder entries)

  texts-event_of :
      (r : Result T.Fault Bytes) (events : List AsyncEvent)
      → texts (event_of r ++ events) ≡ record_bytes r ++ texts events
  texts-event_of (Result.err _) events = refl
  texts-event_of (Result.ok msg) events = refl

  texts-events_of :
      (encoder : T.Encoder) (entries : List T.Record)
      → texts (events_of encoder entries ++ (AsyncEvent.terminate ∷ [])) ≡ readable encoder entries
  texts-events_of encoder [] = refl
  texts-events_of encoder (entry ∷ entries) =
      let r = X.encode encoder entry in
      ap texts (append_assoc (event_of r) (events_of encoder entries) (AsyncEvent.terminate ∷ []))
      ∙ texts-event_of r (events_of encoder entries ++ (AsyncEvent.terminate ∷ []))
      ∙ ap (λ ts. record_bytes r ++ ts) (texts-events_of encoder entries)

  record_bytes-small :
      IsUtf8
      → (r : Result T.Fault Bytes) (ms : List Bytes) → All (All (λ b. b < 248)) ms
      → All (All (λ b. b < 248)) (record_bytes r ++ ms)
  record_bytes-small utf8 (Result.err _) ms h = h
  record_bytes-small utf8 (Result.ok msg) ms h = go (X.from_utf8 msg)
    where
      go : (o : Option T.Text) → All (All (λ b. b < 248)) (text_bytes o ++ ms)
      go none = h
      go (some text) = (utf8.small _, h)

  readable-small :
      IsUtf8
      → (encoder : T.Encoder) (entries : List T.Record)
      → All (All (λ b. b < 248)) (readable encoder entries)
  readable-small utf8 encoder [] = tt
  readable-small utf8 encoder (entry ∷ entries) =
      record_bytes-small utf8 (X.encode encoder entry) (readable encoder entries)
        (readable-small utf8 encoder entries)

  module _ (s₀ : T.Stream)
      (takes : (buf : Bytes) (net : T.Net) → (X.write_stream s₀ buf net).0 ≡ Result.ok tt) where
    abbrev stream_at : T.Net → List Bytes → Stream T
    stream_at net taken = record { stream = s₀; net = net; taken = taken }

    after_write-ok :
        (buf : Bytes) (s : Stream T) (r : Result T.Fault (Unit {0}) × T.Net)
        → r.0 ≡ Result.ok tt
        → after_write X buf s r
          ≡ (Result.ok tt, record s { net = r.1; taken = s.taken ++ (buf ∷ []) })
    after_write-ok buf s (Result.ok _, net) h = refl
    after_write-ok buf s (Result.err _, net) h = cc h

    -- A write of a text to the stream takes two writes.
    write_text-taken :
        (text : Option T.Text) (net : T.Net) (taken : List Bytes)
        → (net' : T.Net) × (write_text X
              (write_to_stream X)
              text
              (record { stream = s₀; net = net; taken = taken })
            ≡ record { stream = s₀; net = net'; taken = taken ++ writes (text_bytes text) })
    unfolding write_to_stream
    write_text-taken none net taken = (net, rw (append-nil taken) refl)
    write_text-taken (some text) net taken =
        let buf = X.into_bytes (with_name X text (X.captures text)) in
        let net₁ = (X.write_stream s₀ buf net).1 in
        let net₂ = (X.write_stream s₀ msg_terminator net₁).1 in
        let s : Stream T = record { stream = s₀; net = net; taken = taken } in
        let s₁ : Stream T = record { stream = s₀; net = net₁; taken = taken ++ (buf ∷ []) } in
        (
          net₂,
          ap (λ r. (then_terminator X r).1)
                (after_write-ok buf s (X.write_stream s₀ buf net) (takes buf net))
              ∙ ap (λ r. r.1)
                  (after_write-ok msg_terminator s₁ (X.write_stream s₀ msg_terminator net₁)
                    (takes msg_terminator net₁))
              ∙ ap (λ t. stream_at net₂ t) (append_assoc taken (buf ∷ []) (msg_terminator ∷ [])),
        )

    run_events-taken :
        (events : List AsyncEvent) (net : T.Net) (taken : List Bytes)
        → (net' : T.Net) × (run_events X (write_to_stream X) events (stream_at net taken)
            ≡ stream_at net' (taken ++ writes (texts events)))
    unfolding run_events
    run_events-taken [] net taken = (net, rw (append-nil taken) refl)
    run_events-taken (AsyncEvent.log msg ∷ events) net taken =
        let (net₁, first) = write_text-taken (X.from_utf8 msg) net taken in
        let now = text_bytes (X.from_utf8 msg) in
        let (net₂, later) = run_events-taken events net₁ (taken ++ writes now) in
        (
          net₂,
          ap (run_events X (write_to_stream X) events) first
              ∙ later
              ∙ ap (λ t. stream_at net₂ t)
                  (append_assoc taken (writes now) (writes (texts events))
                    ∙ ap (λ ws. taken ++ ws) (sym (writes-append now (texts events)))),
        )
    run_events-taken (AsyncEvent.terminate ∷ events) net taken = (net, rw (append-nil taken) refl)

    -- If a `String` holds no byte of 248 or more, and the stream takes every write: what a log server
    -- reads from the stream of an appender that was dropped, cut at the terminators, is the list of
    -- the records that were appended, less those that are no UTF-8 or cannot be encoded, in their
    -- order and each as one message.
    pub server-readable :
        IsUtf8
        → (encoder : T.Encoder) (entries : List T.Record) (net : T.Net)
        → frames 0 [] (
            concat
              (run_events X
                (write_to_stream X)
                (drop_appender X (append_entries entries (new_appender X encoder))).tx
                (record { stream = s₀; net = net; taken = [] })).taken)
          ≡ readable encoder entries
    unfolding new_appender drop_appender
    server-readable utf8 encoder entries net =
        let sent = append_entries-tx entries (record { encoder = encoder; tx = [] }) in
        let (net', run) =
          run_events-taken (events_of encoder entries ++ (AsyncEvent.terminate ∷ [])) net [] in
        rw (sent, run, texts-events_of encoder entries)
          (frames-writes (readable encoder entries) (readable-small utf8 encoder entries))
