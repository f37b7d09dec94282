-- ===== src/Logging/Creators/Laws.antt =====
-- What has been done when a configuration is refused.
use safe_client_libs.Shared.{◌≡◌, ◌≢◌, refl, true, false, String}
use safe_client_libs.External.Protocol.{Result}
use safe_client_libs.External.Sockets.{SocketApi}
use safe_client_libs.External.Logs.{LogTypes, LogApi}
use safe_client_libs.Logging.WebSocket.{WebSocket}
use safe_client_libs.Logging.Fields.{
  Config, CreatorError, config_error, Setup, ◌>>=◌, checked, follow, from_outside, from_system,
  as_table, remove, required, optional, flag, parse_pattern,
}
use safe_client_libs.Logging.Creators.{
  Built, build_console, build_server, build_web_socket, create_console, create_server,
  create_web_socket,
}

-- The creators that the deserialisers have for appenders without a file.
pub data Creator : Type 0 where
  console : Creator
  server : Creator
  web_socket : Creator

module _ {T : LogTypes} where
  -- A step that has done nothing when it refuses a configuration, and one that never refuses any.
  abbrev IsCareful : {A : Type 0} → Setup T A → Type 0
  IsCareful m =
      (net : T.Net) (text : String) → (m net).0 ≡ Result.err (config_error text) → (m net).1 ≡ net

  abbrev IsUnrefusing : {A : Type 0} → Setup T A → Type 0
  IsUnrefusing m = (net : T.Net) (text : String) → (m net).0 ≢ Result.err (config_error text)

  module _ {A B : Type 0} where
    checked-IsCareful :
        (r : Result (CreatorError T) A) (f : A → Setup T B)
        → ((a : A) → IsCareful (f a))
        → IsCareful (checked r >>= f)
    checked-IsCareful (Result.ok a) f h net text e = h a net text e
    checked-IsCareful (Result.err x) f h net text e = refl

    from_system-IsUnrefusing :
        (m : T.Net → Result T.Fault A × T.Net) (f : A → Setup T B)
        → ((a : A) → IsUnrefusing (f a))
        → IsUnrefusing (from_system m >>= f)
    from_system-IsUnrefusing m f h net text = go (m net).0 (m net).1
      where
        go :
            (r : Result T.Fault A) (net' : T.Net)
            → (follow (from_outside r, net') f).0 ≢ Result.err (config_error text)
        go (Result.ok a) net' = h a net' text
        go (Result.err x) net' = λ e. cc e

  IsUnrefusing-IsCareful : {A : Type 0} (m : Setup T A) → IsUnrefusing m → IsCareful m
  IsUnrefusing-IsCareful m h net text e = absurd (h net text e)

module _ {T : LogTypes} (X : LogApi T) {Sender WsFault Instant : Type 0}
    (S : SocketApi Sender WsFault Instant T.Net) where
  abbrev pub create : Creator → Config → Setup T (Built T (WebSocket Sender WsFault Instant))
  create console = create_console X S
  create server = create_server X S
  create web_socket = create_web_socket X S

  create_server-IsCareful : (config : Config) → IsCareful (create_server X S config)
  unfolding create_server build_server
  create_server-IsCareful config = checked-IsCareful (as_table config) _ (λ map.
      checked-IsCareful (required "server_addr" (remove "server_addr" map).0) _ (λ text.
        checked-IsCareful (from_outside (X.parse_addr text)) _ (λ addr.
          checked-IsCareful
            (flag "`no_delay` must be a boolean" true
              (remove "no_delay" (remove "server_addr" map).1).0)
            _
            (λ no_delay.
              checked-IsCareful
                (parse_pattern X (remove "no_delay" (remove "server_addr" map).1).1 false) _
                (λ pattern. IsUnrefusing-IsCareful _ (
                  from_system-IsUnrefusing (X.connect_stream addr) _ (λ stream.
                    from_system-IsUnrefusing (X.set_nodelay stream no_delay) _
                      (λ _ net text e. cc e))))))))

  create_web_socket-IsCareful : (config : Config) → IsCareful (create_web_socket X S config)
  unfolding create_web_socket build_web_socket
  create_web_socket-IsCareful config = checked-IsCareful (as_table config) _ (λ map.
      checked-IsCareful (required "server_url" (remove "server_url" map).0) _ (λ url.
        checked-IsCareful
          (optional "session_id" (remove "session_id" (remove "server_url" map).1).0) _
          (λ session_id.
            checked-IsCareful
              (parse_pattern X (remove "session_id" (remove "server_url" map).1).1 true) _
              (λ pattern. IsUnrefusing-IsCareful _ (λ net text e. cc e)))))

  create_console-IsCareful : (config : Config) → IsCareful (create_console X S config)
  unfolding create_console build_console
  create_console-IsCareful config = checked-IsCareful (as_table config) _ (λ map.
      checked-IsCareful (parse_pattern X map false) _
        (λ pattern. IsUnrefusing-IsCareful _ (λ net text e. cc e)))

  -- Where the configuration of a console, a server or a web socket is refused with a `ConfigError`,
  -- nothing has been done yet: no connection was made, and no socket was opened.
  pub create-refused :
      (creator : Creator) (config : Config) (net : T.Net) (text : String)
      → (create creator config net).0 ≡ Result.err (config_error text)
      → (create creator config net).1 ≡ net
  create-refused console config = create_console-IsCareful config
  create-refused server config = create_server-IsCareful config
  create-refused web_socket config = create_web_socket-IsCareful config
