-- ===== src/Logging/Builders/Server.antt =====
-- `AsyncServerAppender::builder` and its methods (src/utils/logging/async_log.rs).
use safe_client_libs.Shared.{Bool, true}
use safe_client_libs.External.Logs.{LogTypes, LogApi}

pub record AsyncServerAppenderBuilder (T : LogTypes) : Type 0 where
  pub addr : T.Addr
  pub encoder : T.Encoder
  pub no_delay : Bool

module _ {T : LogTypes} where
  abbrev pub builder : LogApi T → T.Addr → AsyncServerAppenderBuilder T
  builder X server_addr = record {
    addr = server_addr;
    encoder = X.default_pattern;
    no_delay = true;
  }

  abbrev pub encoder : T.Encoder → AsyncServerAppenderBuilder T → AsyncServerAppenderBuilder T
  encoder given b = record { addr = b.addr; encoder = given; no_delay = b.no_delay }

  abbrev pub no_delay : Bool → AsyncServerAppenderBuilder T → AsyncServerAppenderBuilder T
  no_delay given b = record { addr = b.addr; encoder = b.encoder; no_delay = given }
