-- ===== src/Examples/Logging.antt =====
-- Runs of the web socket of the log, and of the reading of RUST_LOG.
use safe_client_libs.Shared.{
  ℕ, ◌+◌, ◌≤◌, ◌≡◌, refl, Bool, true, false, Option, none, some, [], ◌∷◌, ◌++◌, arith, length, ltb,
  not, if◌then◌else◌, IsSublist,
}
use safe_client_libs.External.Protocol.{Result}
use safe_client_libs.External.Sockets.{SocketApi, opened, errored}
use safe_client_libs.Logging.WebSocket.{
  WebSocket, Line, max_buffered_messages, new_socket, connect, queue_message, reconnect, drain,
  write_all,
}
use safe_client_libs.Logging.WebSocket.Laws.{made, written, Reach-IsOrdered}
use safe_client_libs.Logging.WebSocket.Connecting.{connect-eq-outcome}
use safe_client_libs.Logging.WebSocket.Delivery.{write_all_delivers, write_all_offline}
use safe_client_libs.Logging.Loggers.{
  Text, LevelApi, split, sub_inputs, trimmed, parse_loggers, parse_sub_input, parse_sub_inputs,
  trim_start, trim_end,
}
use safe_client_libs.Logging.Loggers.Laws.{configured, directives, parse_loggers-eq-configured}

-- A server that is there, or one that is not. The clock counts the looks at it.
abbrev pub sockets : Bool → SocketApi ℕ ℕ ℕ ℕ
sockets up = record {
  spawn = λ url id net. (
    Result.ok (record {
      ws_tx = 1;
      events = if up then errored 3 ∷ opened ∷ [] else [];
      returned = Result.err 0;
    }),
    net,
  );
  send = λ sender msg net. (Result.ok tt, net);
  close = λ sender net. (Result.ok tt, net);
  now = λ net. (net, net + 1);
  minus_secs = λ i n. 0;
  lasts_secs = λ i j n. not (ltb i (j + n));
  internal = λ text. 9;
}

-- Two messages that were written while the server was away.
abbrev waiting : WebSocket ℕ ℕ ℕ
waiting = record {
  url = "ws://log";
  session_id = none;
  socket = Result.err 0;
  last_reconnect = 0;
  message_buffer = (1 ∷ []) ∷ (2 ∷ []) ∷ [];
}

abbrev line : Line ℕ
line = record { net = 20; sent = (8 ∷ []) ∷ [] }

abbrev connected : WebSocket ℕ ℕ ℕ
connected = record waiting { socket = Result.ok 1 }

write_all_delivers_example :
    let (ended, ws, l) = write_all (sockets true) 4 (3 ∷ []) connected line in
    (ended ≡ true)
    × (ws.message_buffer ≡ [])
    × (l.sent ≡ line.sent ++ (connected.message_buffer ++ ((3 ∷ []) ∷ [])))
write_all_delivers_example =
    write_all_delivers (sockets true) 1 (λ msg net. refl) 4 (3 ∷ []) connected line refl
      (omega arith) (omega arith)

write_all_offline_example :
    let (ended, ws, l) = write_all (sockets false) 1 (3 ∷ []) waiting line in
    (ended ≡ true)
    × (ws.message_buffer ≡ waiting.message_buffer ++ ((3 ∷ []) ∷ []))
    × (l.sent ≡ line.sent)
unfolding connect
write_all_offline_example =
    write_all_offline (sockets false) 0 (3 ∷ []) waiting line 0 refl (λ url id net. (0, refl))
      (omega arith)

-- What two writes leave of a socket with no server.
abbrev first_written : Bool × WebSocket ℕ ℕ ℕ × Line ℕ
first_written =
    write_all (sockets false) 1 (3 ∷ [])
      (new_socket (sockets false) "ws://log" none (record { net = 20; sent = [] })).0
      (new_socket (sockets false) "ws://log" none (record { net = 20; sent = [] })).1

Reach-IsOrdered_example :
    (length first_written.1.message_buffer ≤ max_buffered_messages)
    × IsSublist (first_written.2.sent ++ first_written.1.message_buffer) ((3 ∷ []) ∷ [])
unfolding new_socket connect write_all queue_message drain reconnect
Reach-IsOrdered_example =
    Reach-IsOrdered (sockets false) (written (made "ws://log" none 20) 1 (3 ∷ []) refl)

-- The levels are the numbers below 6, of one character.
abbrev levels : LevelApi ℕ
levels = record { parse = parsed; warn = 2 }
  where
    parsed : Text → Option ℕ
    parsed [] = none
    parsed (n ∷ []) = if ltb n 6 then some n else none
    parsed (n ∷ _ ∷ _) = none

-- "i,f,b=d,q", with a space before the last name, gives "f" and "b" the level of "b=d".
parse_loggers_test :
    parse_loggers levels (3 ∷ 44 ∷ 102 ∷ 44 ∷ 98 ∷ 61 ∷ 4 ∷ 44 ∷ 32 ∷ 113 ∷ [])
    ≡ some (
      3,
      record { name = 102 ∷ []; level = 4 }
          ∷ record { name = 98 ∷ []; level = 4 }
          ∷ record { name = 113 ∷ []; level = 3 }
          ∷ [],
    )
unfolding parse_loggers parse_sub_inputs parse_sub_input sub_inputs trimmed split trim_start
    trim_end
parse_loggers_test = refl

parse_loggers-eq-configured_example :
    parse_loggers levels (3 ∷ 44 ∷ 102 ∷ 44 ∷ 98 ∷ 61 ∷ 4 ∷ [])
    ≡ configured levels (directives levels (sub_inputs (3 ∷ 44 ∷ 102 ∷ 44 ∷ 98 ∷ 61 ∷ 4 ∷ [])))
parse_loggers-eq-configured_example =
    parse_loggers-eq-configured levels (3 ∷ 44 ∷ 102 ∷ 44 ∷ 98 ∷ 61 ∷ 4 ∷ [])

connect-eq-outcome_example : (connect (sockets true) "ws://log" none 0).0 ≡ Result.ok 1
connect-eq-outcome_example =
    connect-eq-outcome (sockets true) "ws://log" none 0
      (record { ws_tx = 1; events = errored 3 ∷ opened ∷ []; returned = Result.err 0 }) refl
