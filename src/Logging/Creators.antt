-- ===== src/Logging/Creators.antt =====
-- The builders of the appenders, and the appenders that a configuration file describes
-- (src/utils/logging/async_log.rs).
pub mod Files
pub mod Laws
use safe_client_libs.Shared.{Bool, true, false, String, Option, List, [], if◌then◌else◌}
use safe_client_libs.External.Protocol.{Result}
use safe_client_libs.External.Sockets.{SocketApi}
use safe_client_libs.External.Logs.{LogTypes, LogApi}
use safe_client_libs.Logging.WebSocket.{WebSocket, Line, new_socket}
use safe_client_libs.Logging.Appenders.{AsyncAppender, new_appender}
use safe_client_libs.Logging.Builders.Console as Console
use safe_client_libs.Logging.Builders.Server as Server
use safe_client_libs.Logging.Builders.WebSock as WebSock
use safe_client_libs.Logging.Builders.Console.{AsyncConsoleAppenderBuilder}
use safe_client_libs.Logging.Builders.File.{AsyncFileAppenderBuilder}
use safe_client_libs.Logging.Builders.Server.{AsyncServerAppenderBuilder}
use safe_client_libs.Logging.Builders.WebSock.{AsyncWebSockAppenderBuilder}
use safe_client_libs.Logging.Fields.{
  Value, Config, CreatorError, Setup, ◌>>=◌, checked, done, from_outside, from_system, remove,
  required, optional, flag, as_table, parse_pattern,
}

pub data Writer (T : LogTypes) (Socket : Type 0) : Type 0 where
  stdout : Writer T Socket
  file : T.Handle → Writer T Socket
  server : T.Stream → Writer T Socket
  web_socket : Socket → Writer T Socket

-- The writer that the thread of an appender is given, and the appender.
abbrev pub Built : LogTypes → Type 0 → Type 0
Built T Socket = Writer T Socket × AsyncAppender T

module _ {T : LogTypes} (X : LogApi T) where
  module _ {Sender WsFault Instant : Type 0} (S : SocketApi Sender WsFault Instant T.Net) where
    -- `build` of the four builders.
    unfoldable pub build_console :
        AsyncConsoleAppenderBuilder T → Setup T (Built T (WebSocket Sender WsFault Instant))
    unfolding new_appender
    build_console b = done (stdout, new_appender X b.encoder)

    unfoldable pub build_file :
        AsyncFileAppenderBuilder T → Setup T (Built T (WebSocket Sender WsFault Instant))
    unfolding new_appender
    build_file b = do
      handle ← from_system (if b.append then X.open_append b.path else X.open_truncate b.path)
      done (file handle, new_appender X b.encoder)

    unfoldable pub build_server :
        AsyncServerAppenderBuilder T → Setup T (Built T (WebSocket Sender WsFault Instant))
    unfolding new_appender
    build_server b = do
      stream ← from_system (X.connect_stream b.addr)
      _ ← from_system (X.set_nodelay stream b.no_delay)
      done (server stream, new_appender X b.encoder)

    unfoldable pub build_web_socket :
        AsyncWebSockAppenderBuilder T → Setup T (Built T (WebSocket Sender WsFault Instant))
    unfolding new_appender new_socket
    build_web_socket b net =
        let (socket, l) = new_socket S b.url b.session_id (record { net = net; sent = [] }) in
        (Result.ok (web_socket socket, new_appender X b.encoder), l.net)

    unfoldable pub create_console : Config → Setup T (Built T (WebSocket Sender WsFault Instant))
    unfolding build_console parse_pattern
    create_console config = do
      map ← checked (as_table config)
      pattern ← checked (parse_pattern X map false)
      build_console (Console.encoder pattern (Console.builder X))

    unfoldable pub create_server : Config → Setup T (Built T (WebSocket Sender WsFault Instant))
    unfolding build_server parse_pattern remove
    create_server config = do
      map ← checked (as_table config)
      let (field, map₁) = remove "server_addr" map
      text ← checked (required "server_addr" field)
      server_addr ← checked (from_outside (X.parse_addr text))
      let (field', map₂) = remove "no_delay" map₁
      no_delay ← checked (flag "`no_delay` must be a boolean" true field')
      pattern ← checked (parse_pattern X map₂ false)
      build_server
          (Server.no_delay no_delay (Server.encoder pattern (Server.builder X server_addr)))

    unfoldable pub create_web_socket : Config → Setup T (Built T (WebSocket Sender WsFault Instant))
    unfolding build_web_socket parse_pattern remove
    create_web_socket config = do
      map ← checked (as_table config)
      let (field, map₁) = remove "server_url" map
      server_url ← checked (required "server_url" field)
      let (field', map₂) = remove "session_id" map₁
      session_id ← checked (optional "session_id" field')
      pattern ← checked (parse_pattern X map₂ true)
      build_web_socket
          (WebSock.session_id session_id (WebSock.encoder pattern (WebSock.builder X server_url)))
