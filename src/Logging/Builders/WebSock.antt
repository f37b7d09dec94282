-- ===== src/Logging/Builders/WebSock.antt =====
-- `AsyncWebSockAppender::builder` and its methods (src/utils/logging/async_log.rs).
use safe_client_libs.Shared.{String, Option, none}
use safe_client_libs.External.Logs.{LogTypes, LogApi}

pub record AsyncWebSockAppenderBuilder (T : LogTypes) : Type 0 where
  pub url : String
  pub session_id : Option String
  pub encoder : T.Encoder

module _ {T : LogTypes} where
  abbrev pub builder : LogApi T → String → AsyncWebSockAppenderBuilder T
  builder X server_url = record { url = server_url; session_id = none; encoder = X.default_pattern }

  abbrev pub encoder : T.Encoder → AsyncWebSockAppenderBuilder T → AsyncWebSockAppenderBuilder T
  encoder given b = record b { encoder = given }

  abbrev pub session_id :
      Option String → AsyncWebSockAppenderBuilder T → AsyncWebSockAppenderBuilder T
  session_id given b = record b { session_id = given }
