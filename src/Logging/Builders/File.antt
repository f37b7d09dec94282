-- ===== src/Logging/Builders/File.antt =====
-- `AsyncFileAppender::builder` and its methods (src/utils/logging/async_log.rs).
use safe_client_libs.Shared.{Bool, true, false, String}
use safe_client_libs.External.Logs.{LogTypes, LogApi}

pub record AsyncFileAppenderBuilder (T : LogTypes) : Type 0 where
  pub path : String
  pub encoder : T.Encoder
  pub append : Bool
  pub timestamp : Bool

module _ {T : LogTypes} where
  abbrev pub builder : LogApi T → String → AsyncFileAppenderBuilder T
  builder X path = record {
    path = path;
    encoder = X.default_pattern;
    append = true;
    timestamp = false;
  }

  abbrev pub encoder : T.Encoder → AsyncFileAppenderBuilder T → AsyncFileAppenderBuilder T
  encoder given b = record {
    path = b.path;
    encoder = given;
    append = b.append;
    timestamp = b.timestamp;
  }

  abbrev pub append : Bool → AsyncFileAppenderBuilder T → AsyncFileAppenderBuilder T
  append given b = record {
    path = b.path;
    encoder = b.encoder;
    append = given;
    timestamp = b.timestamp;
  }

  abbrev pub timestamp : Bool → AsyncFileAppenderBuilder T → AsyncFileAppenderBuilder T
  timestamp given b = record {
    path = b.path;
    encoder = b.encoder;
    append = b.append;
    timestamp = given;
  }
