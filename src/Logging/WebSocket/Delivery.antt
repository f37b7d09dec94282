-- ===== src/Logging/WebSocket/Delivery.antt =====
-- When a write to the web socket comes to its end, and what it has sent by then.
use mathlib.Core.List.{append-nil}
use safe_client_libs.Shared.{
  ℕ, zero, suc, ◌+◌, ◌<◌, ◌≡◌, refl, sym, ap, ◌∙◌, Bool, true, false, String, Option, List, [], ◌∷◌,
  ◌++◌, arith, inl, inr, Bool-cases, ◌≢◌, length, length-append,
}
use safe_client_libs.External.Protocol.{Bytes, Result}
use safe_client_libs.External.Sockets.{SocketApi}
use safe_client_libs.Logging.WebSocket.{
  WebSocket, Line, reconnect_period, max_buffered_messages, queue_message, connect, reconnect,
  drain, write_all, after_send, send_over, get_sender, round,
}
use safe_client_libs.Logging.WebSocket.Laws.{reconnect-keeps, write_all-KeepsOf}

module _ {Sender Fault Instant Net : Type 0} (X : SocketApi Sender Fault Instant Net) where
  queue_message-room :
      (buf : Bytes) (ws : WebSocket Sender Fault Instant)
      → length ws.message_buffer < max_buffered_messages
      → queue_message X buf ws ≡ record ws { message_buffer = ws.message_buffer ++ (buf ∷ []) }
  unfolding queue_message
  queue_message-room buf ws h = ground (arith, h)

  module _ (s : Sender)
      (takes : (msg : Bytes) (net : Net) → (X.send s msg net).0 ≡ Result.ok tt) where
    after_send-ok :
        (msg : Bytes) (sent : List Bytes) (r : Result Fault (Unit {0}) × Net)
        → r.0 ≡ Result.ok tt
        → after_send X msg sent r ≡ (true, record { net = r.1; sent = sent ++ (msg ∷ []) })
    after_send-ok msg sent (Result.ok _, net) h = refl
    after_send-ok msg sent (Result.err _, net) h = cc h

    drain-empties :
        (buffer : List Bytes) (fuel : ℕ) (ws : WebSocket Sender Fault Instant) (l : Line Net)
        → length buffer < fuel
        → ws.message_buffer ≡ buffer
        → ws.socket ≡ Result.ok s
        → ((drain X fuel ws l).0 ≡ true) × ((drain X fuel ws l).1.message_buffer ≡ [])
    unfolding drain
    drain-empties buffer zero ws l h b o = absurd (omega arith)
    drain-empties [] (suc fuel) ws l h b o = rw b (refl, refl)
    drain-empties (msg ∷ rest) (suc fuel) ws l h b o =
        rw (b, o, after_send-ok msg l.sent (X.send s msg l.net) (takes msg l.net))
          (drain-empties rest fuel (record ws { message_buffer = rest; socket = Result.ok s })
            (record { net = (X.send s msg l.net).1; sent = l.sent ++ (msg ∷ []) }) (omega arith)
            refl refl)

    -- Where the buffer has room, and the web socket is connected and takes every message: a write
    -- comes to its end, the buffer is empty then, and what waited has been sent, in its order, and
    -- after it the message that is written.
    pub write_all_delivers :
        (fuel : ℕ) (buf : Bytes) (ws : WebSocket Sender Fault Instant) (l : Line Net)
        → ws.socket ≡ Result.ok s
        → length ws.message_buffer < max_buffered_messages
        → length ws.message_buffer + 1 < fuel
        → let (ended, ws', l') = write_all X fuel buf ws l in
          (ended ≡ true)
          × (ws'.message_buffer ≡ [])
          × (l'.sent ≡ l.sent ++ (ws.message_buffer ++ (buf ∷ [])))
    unfolding write_all
    write_all_delivers fuel buf ws l o room enough =
        let queued = queue_message-room buf ws room in
        let (line, _) = write_all-KeepsOf X fuel buf ws l in
        let run = ap (λ q. drain X fuel q l) queued in
        let (ended, empty) =
          drain-empties (ws.message_buffer ++ (buf ∷ [])) fuel
            (record ws { message_buffer = ws.message_buffer ++ (buf ∷ []) }) l
            (omega (arith, length-append ws.message_buffer (buf ∷ []))) refl o in
        let empty' = ap (λ r. r.1.message_buffer) run ∙ empty in
        (
          ap (λ r. r.0) run ∙ ended,
          empty',
          sym (append-nil (write_all X fuel buf ws l).2.sent)
              ∙ ap (λ b. (write_all X fuel buf ws l).2.sent ++ b) (sym empty')
              ∙ line
              ∙ ap (λ q. l.sent ++ q.message_buffer) queued,
        )

  abbrev pub IsUnreachable : Type 0
  IsUnreachable =
      (url : String) (id : Option String) (net : Net)
      → (f : Fault) × ((connect X url id net).0 ≡ Result.err f)

  reconnect-offline :
      (ws : WebSocket Sender Fault Instant) (l : Line Net) (e : Fault)
      → ws.socket ≡ Result.err e
      → IsUnreachable
      → (f : Fault) × ((reconnect X ws l).0.socket ≡ Result.err f)
  unfolding reconnect
  reconnect-offline ws l e o fails =
      elim (Bool-cases (X.lasts_secs (X.now l.net).0 ws.last_reconnect reconnect_period)) [
        | inl again ↦ rw again (fails ws.url ws.session_id (X.now l.net).1)
        | inr soon ↦ rw soon (e, o)
      ]

  round-offline :
      IsUnreachable
      → (later : WebSocket Sender Fault Instant
          → Line Net
          → Bool × WebSocket Sender Fault Instant × Line Net)
        (ws : WebSocket Sender Fault Instant) (l : Line Net) (e : Fault) (b : List Bytes)
      → ws.socket ≡ Result.err e
      → ws.message_buffer ≡ b
      → b ≢ []
      → let (ended, ws', l') = round X later ws l b in
        (ended ≡ true) × (ws'.message_buffer ≡ b) × (l'.sent ≡ l.sent)
  round-offline fails later ws l e [] o same some_wait = absurd (some_wait refl)
  round-offline fails later ws l e (msg ∷ rest) o same some_wait =
      let (f, broken) = reconnect-offline ws l e o fails in
      let (buffer, sent) = reconnect-keeps X ws l in
      let not_sent : send_over X (get_sender X ws.socket) msg l ≡ (false, l) =
        ap (λ r. send_over X (get_sender X r) msg l) o in
      rw (not_sent, broken) (refl, buffer ∙ same, sent)

  snoc-ne-nil : (xs : List Bytes) (x : Bytes) → xs ++ (x ∷ []) ≢ []
  snoc-ne-nil [] x = λ h. cc h
  snoc-ne-nil (y ∷ xs) x = λ h. cc h

  -- With no socket, and none to be had: a write ends in its first round, nothing is sent, and the
  -- message waits behind those that waited before, if the buffer has room.
  pub write_all_offline :
      (fuel : ℕ) (buf : Bytes) (ws : WebSocket Sender Fault Instant) (l : Line Net) (e : Fault)
      → ws.socket ≡ Result.err e
      → IsUnreachable
      → length ws.message_buffer < max_buffered_messages
      → let (ended, ws', l') = write_all X (suc fuel) buf ws l in
        (ended ≡ true) × (ws'.message_buffer ≡ ws.message_buffer ++ (buf ∷ [])) × (l'.sent ≡ l.sent)
  unfolding write_all drain reconnect
  write_all_offline fuel buf ws l e o fails room =
      let queued = queue_message-room buf ws room in
      let (ended, same, sent) =
        round-offline fails (drain X fuel)
          (record ws { message_buffer = ws.message_buffer ++ (buf ∷ []) }) l e
          (ws.message_buffer ++ (buf ∷ [])) o refl (snoc-ne-nil ws.message_buffer buf) in
      rw queued (ended, same, sent)
