-- ===== src/Logging/Builders/Console.antt =====
-- `AsyncConsoleAppender::builder` and its method (src/utils/logging/async_log.rs).
use safe_client_libs.External.Logs.{LogTypes, LogApi}

pub record AsyncConsoleAppenderBuilder (T : LogTypes) : Type 0 where
  pub encoder : T.Encoder

module _ {T : LogTypes} where
  abbrev pub builder : LogApi T → AsyncConsoleAppenderBuilder T
  builder X = record { encoder = X.default_pattern }

  abbrev pub encoder : T.Encoder → AsyncConsoleAppenderBuilder T → AsyncConsoleAppenderBuilder T
  encoder given b = record { encoder = given }
