-- ===== src/Logging/WebSocket/Laws.antt =====
-- What becomes of the messages that are written to the web socket.
use mathlib.Core.Path.{subst}
use mathlib.Core.List.{append_assoc}
use safe_client_libs.Shared.{
  IsSublist, nil, IsSublist-snoc, IsSublist-skip_last, inl, inr, ℕ, zero, suc, ◌≤◌, ◌≡◌, refl, sym,
  ap, ◌∙◌, Bool, true, false, String, Option, List, [], ◌∷◌, ◌++◌, arith, length, length-append,
  Bool-cases, ltb,
}
use safe_client_libs.External.Protocol.{Bytes, Result}
use safe_client_libs.External.Sockets.{SocketApi}
use safe_client_libs.Logging.WebSocket.{
  WebSocket, Line, max_buffered_messages, new_socket, queue_message, reconnect, drain, write_all,
  after_send, unless_broken, after_try, round, send_over, get_sender,
}

module _ {Sender Fault Instant Net : Type 0} (X : SocketApi Sender Fault Instant Net) where
  pub reconnect-keeps :
      (ws : WebSocket Sender Fault Instant) (l : Line Net)
      → ((reconnect X ws l).0.message_buffer ≡ ws.message_buffer)
        × ((reconnect X ws l).1.sent ≡ l.sent)
  unfolding reconnect
  reconnect-keeps ws l = ground arith

  -- A message that the socket has taken is kept as the last one sent.
  pub data IsTry (l : Line Net) (msg : Bytes) : Bool × Line Net → Type 0 where
    taken : (net : Net) → IsTry l msg (true, record { net = net; sent = l.sent ++ (msg ∷ []) })
    failed : (net : Net) → IsTry l msg (false, record { net = net; sent = l.sent })

  send_over-IsTry :
      (r : Result Fault Sender) (msg : Bytes) (l : Line Net) → IsTry l msg (send_over X r msg l)
  send_over-IsTry (Result.ok sender) msg l = go (X.send sender msg l.net)
    where
      go : (r : Result Fault (Unit {0}) × Net) → IsTry l msg (after_send X msg l.sent r)
      go (Result.ok _, net) = taken net
      go (Result.err _, net) = failed net
  send_over-IsTry (Result.err _) msg l = failed l.net

  -- The messages sent and those that wait, in their order.
  abbrev pub line_of : Line Net → WebSocket Sender Fault Instant → List Bytes
  line_of l ws = l.sent ++ ws.message_buffer

  -- A rest of the loop that neither loses nor moves a message.
  abbrev pub KeepsOf :
      Line Net
      → WebSocket Sender Fault Instant
      → Bool × WebSocket Sender Fault Instant × Line Net
      → Type 0
  KeepsOf l ws (ended, ws', l') =
      (line_of l' ws' ≡ line_of l ws) × (length ws'.message_buffer ≤ length ws.message_buffer)

  abbrev pub Keeps :
      (WebSocket Sender Fault Instant → Line Net → Bool × WebSocket Sender Fault Instant × Line Net)
      → Type 0
  Keeps f = (ws : WebSocket Sender Fault Instant) (l : Line Net) → KeepsOf l ws (f ws l)

  unless_broken-Keeps :
      (later : WebSocket Sender Fault Instant
        → Line Net
        → Bool × WebSocket Sender Fault Instant × Line Net)
      (r : Result Fault Sender) (ws : WebSocket Sender Fault Instant) (l : Line Net)
      → Keeps later
      → KeepsOf l ws (unless_broken X later r ws l)
  unless_broken-Keeps later (Result.ok _) ws l h = h ws l
  unless_broken-Keeps later (Result.err _) ws l h = (refl, omega arith)

  after_try-Keeps :
      (later : WebSocket Sender Fault Instant
        → Line Net
        → Bool × WebSocket Sender Fault Instant × Line Net)
      (ws : WebSocket Sender Fault Instant) (l : Line Net) (msg : Bytes) (rest : List Bytes)
      {r : Bool × Line Net}
      → IsTry l msg r
      → Keeps later
      → ws.message_buffer ≡ msg ∷ rest
      → KeepsOf l ws (after_try X later ws rest r)
  after_try-Keeps later ws l msg rest (taken net) h e =
      let (line, shorter) =
        h (record ws { message_buffer = rest })
          (record { net = net; sent = l.sent ++ (msg ∷ []) }) in
      (
        line ∙ append_assoc l.sent (msg ∷ []) rest ∙ ap (λ b. l.sent ++ b) (sym e),
        rw e (omega (arith, shorter)),
      )
  after_try-Keeps later ws l msg rest (failed net) h e =
      let l' : Line Net = record { net = net; sent = l.sent } in
      let (buffer, sent) = reconnect-keeps ws l' in
      let (line, shorter) =
        unless_broken-Keeps later (reconnect X ws l').0.socket (reconnect X ws l').0
          (reconnect X ws l').1 h in
      (line ∙ rw (buffer, sent) refl, rw buffer at shorter)

  pub drain-Keeps : (fuel : ℕ) → Keeps (drain X fuel)
  unfolding drain
  drain-Keeps zero ws l = (refl, omega arith)
  drain-Keeps (suc fuel) ws l = go (drain-Keeps fuel) ws.message_buffer refl
    where
      go :
          Keeps (drain X fuel)
          → (b : List Bytes) → ws.message_buffer ≡ b
          → KeepsOf l ws (round X (drain X fuel) ws l b)
      go later [] e = (refl, omega arith)
      go later (msg ∷ rest) e =
          after_try-Keeps (drain X fuel) ws l msg rest
            (send_over-IsTry (get_sender X ws.socket) msg l) later e

  queue_message-bound :
      (buf : Bytes) (ws : WebSocket Sender Fault Instant)
      → length ws.message_buffer ≤ max_buffered_messages
      → length (queue_message X buf ws).message_buffer ≤ max_buffered_messages
  unfolding queue_message
  queue_message-bound buf ws h = ground (arith, h, length-append ws.message_buffer (buf ∷ []))

  pub write_all-KeepsOf :
      (fuel : ℕ) (buf : Bytes) (ws : WebSocket Sender Fault Instant) (l : Line Net)
      → KeepsOf l (queue_message X buf ws) (write_all X fuel buf ws l)
  unfolding write_all
  write_all-KeepsOf fuel buf ws l = drain-Keeps fuel (queue_message X buf ws) l

  -- A socket as a run of the library leaves it: it was made, and messages have been written to it,
  -- each by a call that came to its end. The list holds these messages.
  pub data Reach : WebSocket Sender Fault Instant → Line Net → List Bytes → Type 0 where
    made :
        (url : String) (session_id : Option String) (net : Net)
        → Reach
            (new_socket X url session_id (record { net = net; sent = [] })).0
            (new_socket X url session_id (record { net = net; sent = [] })).1
            []
    written :
        {ws : WebSocket Sender Fault Instant} {l : Line Net} {offered : List Bytes}
        → Reach ws l offered
        → (fuel : ℕ) (buf : Bytes) → (write_all X fuel buf ws l).0 ≡ true
        → Reach (write_all X fuel buf ws l).1 (write_all X fuel buf ws l).2 (offered ++ (buf ∷ []))

  IsSublist-line :
      (buf : Bytes) (ws : WebSocket Sender Fault Instant) (l : Line Net) (offered : List Bytes)
      → IsSublist (line_of l ws) offered
      → IsSublist (line_of l (queue_message X buf ws)) (offered ++ (buf ∷ []))
  unfolding queue_message
  IsSublist-line buf ws l offered h =
      elim (Bool-cases (ltb (length ws.message_buffer) max_buffered_messages)) [
        | inl room ↦ rw room (
            subst (λ xs. IsSublist xs (offered ++ (buf ∷ [])))
              (append_assoc l.sent ws.message_buffer (buf ∷ [])) (IsSublist-snoc buf h))
        | inr full ↦ rw full (IsSublist-skip_last buf h)
      ]

  -- In every state that can be reached, no more than `max_buffered_messages` messages wait, and
  -- what was sent, followed by what waits, is what was written, less the messages that were dropped:
  -- no message is sent twice, made up, or overtaken by another one.
  pub Reach-IsOrdered :
      {ws : WebSocket Sender Fault Instant} {l : Line Net} {offered : List Bytes}
      → Reach ws l offered
      → (length ws.message_buffer ≤ max_buffered_messages)
        × IsSublist (l.sent ++ ws.message_buffer) offered
  unfolding new_socket
  Reach-IsOrdered (made url session_id net) = (omega arith, nil)
  Reach-IsOrdered (written {ws = ws} {l = l} {offered = offered} r fuel buf ended) =
      let (bound, sub) = Reach-IsOrdered r in
      let (line, shorter) = write_all-KeepsOf fuel buf ws l in
      (
        omega (arith, shorter, queue_message-bound buf ws bound),
        rw line (IsSublist-line buf ws l offered sub),
      )
