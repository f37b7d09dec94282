-- ===== src/Examples/Appenders.antt =====
-- Runs of the appenders of the log, and of their configuration.
use safe_client_libs.Shared.{
  ℕ, ◌≡◌, ◌<◌, refl, true, Option, none, some, List, [], ◌∷◌, ltb, if◌then◌else◌, All, arith,
}
use safe_client_libs.External.Protocol.{Bytes, Result}
use safe_client_libs.External.Logs.{LogTypes, LogApi}
use safe_client_libs.Logging.Appenders.{drop_appender, new_appender, run_events, write_to_stream}
use safe_client_libs.Logging.Appenders.Framing.{frames, concat}
use safe_client_libs.Logging.Appenders.Delivery.{IsUtf8, append_entries, readable, server-readable}
use safe_client_libs.Logging.Fields.{Value, Config, remove}
use safe_client_libs.Logging.Creators.{create_server}
use safe_client_libs.Logging.Creators.Laws.{Creator, create, create-refused}
use safe_client_libs.Examples.Logging.{sockets}

-- A record is its bytes, and so is a text; everything else is a number.
abbrev toy : LogTypes
toy = record {
  Encoder = ℕ;
  Record = Bytes;
  Text = Bytes;
  Handle = ℕ;
  Stream = ℕ;
  Addr = ℕ;
  Fault = ℕ;
  Net = ℕ;
}

-- A byte of a text, with a question mark in place of what is no such byte.
abbrev byte : ℕ → ℕ
byte b = if ltb b 248 then b else 63

abbrev bytes_of : Bytes → Bytes
bytes_of [] = []
bytes_of (b ∷ text) = byte b ∷ bytes_of text

-- A message that starts with 255 is no UTF-8.
abbrev text_of : Bytes → Option Bytes
text_of [] = some []
text_of (b ∷ text) = if ltb b 248 then some (b ∷ text) else none

abbrev toy_log : LogApi toy
toy_log = record {
  default_pattern = 0;
  pattern = λ s. 1;
  json = 2;
  encode = λ encoder entry. Result.ok entry;
  from_utf8 = text_of;
  into_bytes = bytes_of;
  captures = λ text. none;
  replace = λ text name. name;
  stdout = 0;
  write_handle = λ h buf net. (Result.ok tt, net);
  flush_handle = λ h net. (Result.ok tt, net);
  open_append = λ path net. (Result.ok 1, net);
  open_truncate = λ path net. (Result.ok 1, net);
  open_both = λ path net. (Result.ok 1, net);
  write_stream = λ s buf net. (Result.ok tt, net);
  connect_stream = λ addr net. (Result.ok 5, 7);
  set_nodelay = λ s b net. (Result.ok tt, net);
  parse_addr = λ text. Result.ok 3;
  join = λ dir name. name;
  file_stem = λ path. none;
  extension = λ path. none;
  file_name = λ path. none;
  with_file_name = λ path name. name;
  elapsed_secs = λ net. (none, net);
  display_secs = λ n. "0";
  debug_fault = λ e. "fault";
}

bytes_of-small : (text : Bytes) → All (λ b. b < 248) (bytes_of text)
bytes_of-small [] = tt
bytes_of-small (b ∷ text) = (ground arith, bytes_of-small text)

toy-IsUtf8 : IsUtf8 toy_log
toy-IsUtf8 = record { small = bytes_of-small }

-- The second record is no text.
abbrev entries : List Bytes
entries = (72 ∷ 105 ∷ []) ∷ (255 ∷ []) ∷ (33 ∷ []) ∷ []

server-readable_example :
    frames 0 [] (
      concat
        (run_events toy_log
          (write_to_stream toy_log)
          (drop_appender toy_log (append_entries toy_log entries (new_appender toy_log 0))).tx
          (record { stream = 5; net = 7; taken = [] })).taken)
    ≡ readable toy_log 0 entries
server-readable_example = server-readable toy_log 5 (λ buf net. refl) toy-IsUtf8 0 entries 7

-- `no_delay` is no boolean here.
abbrev refused : Config
refused =
    Config.table
      (("server_addr", Value.string "127.0.0.1:80") ∷ ("no_delay", Value.string "yes") ∷ [])

create-refused_example : (create toy_log (sockets true) Creator.server refused 3).1 ≡ 3
unfolding create_server remove
create-refused_example =
    create-refused toy_log (sockets true) Creator.server refused 3 "`no_delay` must be a boolean"
      refl
