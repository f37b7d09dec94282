-- ===== src/External/Logs.antt =====
-- What the appenders of the log take from other crates and from the system: `log4rs`, `regex`, files,
-- streams and paths.
use safe_client_libs.Shared.{ℕ, Bool, String, Option}
use safe_client_libs.External.Protocol.{Bytes, Result}

-- `Record` is a log record, `Text` a `String`, `Handle` an open file or the standard output.
pub record LogTypes : Type 1 where
  pub Encoder : Type 0
  pub Record : Type 0
  pub Text : Type 0
  pub Handle : Type 0
  pub Stream : Type 0
  pub Addr : Type 0
  pub Fault : Type 0
  pub Net : Type 0

pub record LogApi (T : LogTypes) : Type 0 where
  pub default_pattern : T.Encoder
  pub pattern : String → T.Encoder
  pub json : T.Encoder
  pub encode : T.Encoder → T.Record → Result T.Fault Bytes
  pub from_utf8 : Bytes → Option T.Text
  pub into_bytes : T.Text → Bytes
  -- `re.captures`, with its first group, and `re.replace`
  pub captures : T.Text → Option (Option T.Text)
  pub replace : T.Text → T.Text → T.Text
  pub stdout : T.Handle
  pub write_handle : T.Handle → Bytes → T.Net → Result T.Fault (Unit {0}) × T.Net
  pub flush_handle : T.Handle → T.Net → Result T.Fault (Unit {0}) × T.Net
  pub open_append : String → T.Net → Result T.Fault T.Handle × T.Net
  pub open_truncate : String → T.Net → Result T.Fault T.Handle × T.Net
  pub open_both : String → T.Net → Result T.Fault T.Handle × T.Net
  pub write_stream : T.Stream → Bytes → T.Net → Result T.Fault (Unit {0}) × T.Net
  pub connect_stream : T.Addr → T.Net → Result T.Fault T.Stream × T.Net
  pub set_nodelay : T.Stream → Bool → T.Net → Result T.Fault (Unit {0}) × T.Net
  pub parse_addr : String → Result T.Fault T.Addr
  pub join : String → String → String
  pub file_stem : String → Option String
  pub extension : String → Option String
  pub file_name : String → Option String
  pub with_file_name : String → String → String
  pub elapsed_secs : T.Net → Option ℕ × T.Net
  pub display_secs : ℕ → String
  pub debug_fault : T.Fault → String
