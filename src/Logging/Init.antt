-- ===== src/Logging/Init.antt =====
-- The initialisation of the log (src/utils/logging/mod.rs). It is done at most once in a process; a
-- panic in it makes every later one panic. What `log4rs` does with a configuration is a parameter.
pub mod Laws
use safe_client_libs.Shared.{
  Bool, true, false, String, Option, none, some, List, [], ◌∷◌, ◌++◌, if◌then◌else◌,
}
use safe_client_libs.External.Protocol.{Result}
use safe_client_libs.External.Sockets.{SocketApi}
use safe_client_libs.External.Logs.{LogTypes, LogApi}
use safe_client_libs.Logging.WebSocket.{WebSocket}
use safe_client_libs.Logging.Loggers.{Text, LevelApi, Logger, parse_loggers_from_env}
use safe_client_libs.Logging.Builders.Console as Console
use safe_client_libs.Logging.Builders.File as File
use safe_client_libs.Logging.Builders.Server as Server
use safe_client_libs.Logging.Builders.WebSock as WebSock
use safe_client_libs.Logging.Fields.{Config, CreatorError, config_error, outside, Setup, follow}
use safe_client_libs.Logging.Creators.{
  Built, build_console, build_file, build_server, build_web_socket, create_console, create_server,
  create_web_socket,
}
use safe_client_libs.Logging.Creators.Files.{create_file}

-- How an initialisation ends.
pub data InitEnd (A : Type 0) : Type 0 where
  ok : A → InitEnd A
  err : String → InitEnd A
  panic : InitEnd A

-- `INITIALISE_LOGGER`
pub data Once : Type 0 where
  fresh : Once
  done : Once
  poisoned : Once

-- `log4rs::config::Config`, as the code puts it together.
pub record LogConfig (Level Appender : Type 0) : Type 0 where
  pub appenders : List (String × Appender)
  pub loggers : List (Logger Level)
  pub root_appenders : List String
  pub root_level : Level

-- `show` is the `Display` of an error, and `can_read` whether a file can be opened.
pub record InitApi (T : LogTypes) (Level Appender : Type 0) : Type 0 where
  pub show : T.Fault → String
  pub can_read : String → T.Net → Bool × T.Net
  pub check : LogConfig Level Appender → Result T.Fault (Unit {0})
  pub init_config : LogConfig Level Appender → T.Net → Result T.Fault (Unit {0}) × T.Net
  pub init_file :
      String
      → List (String × (Config → Setup T Appender))
      → T.Net
      → Result T.Fault (Unit {0}) × T.Net

module _ {N A B : Type 0} where
  abbrev pub after : InitEnd A × N → (A → N → InitEnd B × N) → InitEnd B × N
  after (ok a, n) f = f a n
  after (err e, n) f = (err e, n)
  after (panic, n) f = (panic, n)

  infixl 5 ◌>>=◌
  abbrev pub ◌>>=◌ : (N → InitEnd A × N) → (A → N → InitEnd B × N) → N → InitEnd B × N
  ◌>>=◌ m f n = after (m n) f

module _ {N : Type 0} where
  abbrev pub after_init : InitEnd (Unit {0}) × N → InitEnd (Unit {0}) × (Once × N)
  after_init (panic, n) = (panic, (poisoned, n))
  after_init (ok a, n) = (ok a, (done, n))
  after_init (err e, n) = (err e, (done, n))

  unfoldable pub init_once_guard :
      (N → InitEnd (Unit {0}) × N) → Once × N → InitEnd (Unit {0}) × (Once × N)
  init_once_guard init_fn (fresh, n) = after_init (init_fn n)
  init_once_guard init_fn (done, n) = (err "Logger already initialised", (done, n))
  init_once_guard init_fn (poisoned, n) = (panic, (poisoned, n))

abbrev pub make_pattern : {T : LogTypes} → LogApi T → Bool → T.Encoder
make_pattern X true = X.pattern "{l} {d(%H:%M:%S.%f)} {T} [{M} #FS#{f}#FE#:{L}] {m}{n}"
make_pattern X false = X.pattern "{l} {d(%H:%M:%S.%f)} [{M} #FS#{f}#FE#:{L}] {m}{n}"

module _ {T : LogTypes} {Level Sender WsFault Instant : Type 0} (X : LogApi T)
    (S : SocketApi Sender WsFault Instant T.Net) (V : LevelApi Level)
    (I : InitApi T Level (Built T (WebSocket Sender WsFault Instant)))
    (rust_log : Option Text) where
  abbrev shown_error : CreatorError T → String
  shown_error (config_error text) = text
  shown_error (outside e) = I.show e

  -- `map_err(|e| format!("{}", e))?`, and the result of a builder.
  abbrev shown : {A : Type 0} → Result T.Fault A → InitEnd A
  shown (Result.ok a) = ok a
  shown (Result.err e) = err (I.show e)

  abbrev built : {A : Type 0} → Result (CreatorError T) A → InitEnd A
  built (Result.ok a) = ok a
  built (Result.err e) = err (shown_error e)

  abbrev given : {A : Type 0} → A → T.Net → InitEnd A × T.Net
  given a net = (ok a, net)

  abbrev building : {A : Type 0} → Setup T A → T.Net → InitEnd A × T.Net
  building m net = (built (m net).0, (m net).1)

  abbrev calling : {A : Type 0} → (T.Net → Result T.Fault A × T.Net) → T.Net → InitEnd A × T.Net
  calling m net = (shown (m net).0, (m net).1)

  -- The levels, where a text that cannot be read is an error, and where it is a panic.
  abbrev pub levels_or :
      InitEnd (Level × List (Logger Level))
      → Option (Level × List (Logger Level))
      → T.Net
      → InitEnd (Level × List (Logger Level)) × T.Net
  levels_or otherwise none net = (otherwise, net)
  levels_or otherwise (some levels) net = (ok levels, net)

  unfoldable pub start_log :
      LogConfig Level (Built T (WebSocket Sender WsFault Instant))
      → T.Net
      → InitEnd (Unit {0}) × T.Net
  start_log config = do _ ← (λ net. (shown (I.check config), net)); calling (I.init_config config)

  -- The appender of the console, if there is to be one.
  abbrev pub with_console :
      Bool
      → Bool
      → LogConfig Level (Built T (WebSocket Sender WsFault Instant))
      → T.Net
      → InitEnd (LogConfig Level (Built T (WebSocket Sender WsFault Instant))) × T.Net
  unfolding build_console
  with_console false show_thread_name config = given config
  with_console true show_thread_name config = do
    console ←
        building (
          build_console X S (Console.encoder (make_pattern X show_thread_name) (Console.builder X)))
    given (record config {
      appenders = config.appenders ++ (("console", console) ∷ []);
      root_appenders = config.root_appenders ++ ("console" ∷ []);
    })

  -- The configuration with this one appender.
  abbrev pub only :
      String
      → Built T (WebSocket Sender WsFault Instant)
      → Level × List (Logger Level)
      → LogConfig Level (Built T (WebSocket Sender WsFault Instant))
  only name appender (default_level, loggers) = record {
    appenders = (name, appender) ∷ [];
    loggers = loggers;
    root_appenders = name ∷ [];
    root_level = default_level;
  }

  abbrev pub from_env : T.Net → InitEnd (Level × List (Logger Level)) × T.Net
  unfolding parse_loggers_from_env
  from_env = levels_or (err "ParseLoggerError") (parse_loggers_from_env V rust_log)

  -- `init_impl`, once it is known whether there is a configuration file at this path.
  abbrev pub init_with :
      Setup T String → Bool → Option String → String → Bool → T.Net → InitEnd (Unit {0}) × T.Net
  unfolding create_file create_console create_server create_web_socket
  init_with config_dir show_thread_name override path true = calling (
      I.init_file path (
        ("async_console", create_console X S)
        ∷ ("async_file", create_file X S config_dir override)
        ∷ ("async_server", create_server X S)
        ∷ ("async_web_socket", create_web_socket X S)
        ∷ []))
  init_with config_dir show_thread_name override path false = do
    console ←
        building (
          build_console X S (Console.encoder (make_pattern X show_thread_name) (Console.builder X)))
    levels ← levels_or panic (parse_loggers_from_env V rust_log)
    start_log (only "async_console" console levels)

  unfoldable pub init_impl :
      Setup T String → Bool → Option String → T.Net → InitEnd (Unit {0}) × T.Net
  unfolding build_console start_log
  init_impl config_dir show_thread_name override = do
    dir ← building config_dir
    let path = X.join dir "log.toml"
    found ← (λ net. (ok (I.can_read path net).0, (I.can_read path net).1))
    init_with config_dir show_thread_name override path found

  unfoldable pub init : Setup T String → Bool → Once × T.Net → InitEnd (Unit {0}) × (Once × T.Net)
  unfolding init_once_guard init_impl
  init config_dir show_thread_name = init_once_guard (init_impl config_dir show_thread_name none)

  unfoldable pub init_with_output_file :
      Setup T String → Bool → String → Once × T.Net → InitEnd (Unit {0}) × (Once × T.Net)
  unfolding init_once_guard init_impl
  init_with_output_file config_dir show_thread_name name =
      init_once_guard (init_impl config_dir show_thread_name (some name))

  unfoldable pub init_to_file :
      Bool → String → Bool → Once × T.Net → InitEnd (Unit {0}) × (Once × T.Net)
  unfolding init_once_guard build_file start_log build_console
  init_to_file show_thread_name file_path log_to_console = init_once_guard (do
    levels ← from_env
    file ← building (
        build_file X S (
          File.append false
            (File.encoder (make_pattern X show_thread_name) (File.builder X file_path))))
    config ← with_console log_to_console show_thread_name (only "file" file levels)
    start_log config)

  unfoldable pub init_to_server :
      T.Addr → Bool → Bool → Once × T.Net → InitEnd (Unit {0}) × (Once × T.Net)
  unfolding init_once_guard build_server start_log build_console
  init_to_server server_addr show_thread_name log_to_console = init_once_guard (do
    levels ← from_env
    server ← building (
        build_server X S
          (Server.encoder (make_pattern X show_thread_name) (Server.builder X server_addr)))
    config ← with_console log_to_console show_thread_name (only "server" server levels)
    start_log config)

  unfoldable pub init_to_web_socket :
      String → Option String → Bool → Bool → Once × T.Net → InitEnd (Unit {0}) × (Once × T.Net)
  unfolding init_once_guard build_web_socket start_log build_console
  init_to_web_socket server_url session_id show_thread_name_in_console log_to_console =
      init_once_guard (do
        levels ← from_env
        server ← building (
            build_web_socket X S (
              WebSock.session_id session_id
                (WebSock.encoder X.json (WebSock.builder X server_url))))
        config ←
            with_console log_to_console show_thread_name_in_console (only "server" server levels)
        start_log config)
