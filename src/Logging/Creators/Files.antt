-- ===== src/Logging/Creators/Files.antt =====
-- The appender for a file that a configuration file describes (src/utils/logging/async_log.rs).
-- `config_dir` is the function of src/config_handler.rs.
use safe_client_libs.Shared.{ℕ, Bool, true, false, String, ◌<>◌, Option, none, some, List}
use safe_client_libs.External.Protocol.{Result}
use safe_client_libs.External.Sockets.{SocketApi}
use safe_client_libs.External.Logs.{LogTypes, LogApi}
use safe_client_libs.Logging.WebSocket.{WebSocket}
use safe_client_libs.Logging.Builders.File as File
use safe_client_libs.Logging.Fields.{
  Value, Config, CreatorError, config_error, Setup, ◌>>=◌, checked, remove, required, flag,
  as_table, parse_pattern,
}
use safe_client_libs.Logging.Creators.{Built, build_file}

module _ {T : LogTypes} (X : LogApi T) where
  -- The file name with the time in it, and the path as it is where a part of the name is missing.
  abbrev pub with_stamp : String → String → Option ℕ → Option String → String
  with_stamp path stem (some secs) (some ext) =
      X.with_file_name path (stem <> ("-" <> (X.display_secs secs <> ("." <> ext))))
  with_stamp path stem (some secs) none = path
  with_stamp path stem none ext = path

  abbrev pub stamped_path : String → Option String → T.Net → String × T.Net
  stamped_path path none net = (path, net)
  stamped_path path (some stem) net =
      let (secs, net') = X.elapsed_secs net in (with_stamp path stem secs (X.extension path), net')

  abbrev pub name_or : String → Option String → String
  name_or otherwise none = otherwise
  name_or otherwise (some name) = name

  -- The name of the file, with the time in it if it is asked for.
  unfoldable pub stamped : Bool → String → Setup T String
  stamped false op_file net = (Result.ok op_file, net)
  stamped true op_file net =
      let (path, net') = stamped_path op_file (X.file_stem op_file) net in
      (Result.ok (name_or op_file (X.file_name path)), net')

  -- A file that cannot be opened.
  abbrev pub opened : Result T.Fault T.Handle → Result (CreatorError T) (Unit {0})
  opened (Result.ok _) = Result.ok tt
  opened (Result.err e) =
      Result.err (config_error ("Could not establish log file path: " <> X.debug_fault e))

  -- The name that replaces the one of the configuration file, or that one.
  abbrev pub file_of :
      Option String → List (String × Value) → Result (CreatorError T) String × List (String × Value)
  file_of (some name) map = (Result.ok name, map)
  file_of none map = (
    required "output_file_name" (remove "output_file_name" map).0,
    (remove "output_file_name" map).1,
  )

  module _ {Sender WsFault Instant : Type 0} (S : SocketApi Sender WsFault Instant T.Net) where
    unfoldable pub create_file :
        Setup T String
        → Option String
        → Config
        → Setup T (Built T (WebSocket Sender WsFault Instant))
    unfolding build_file parse_pattern remove stamped
    create_file config_dir override config = do
      map ← checked (as_table config)
      let (file, map₁) = file_of override map
      op_file ← checked file
      let (field, map₂) = remove "file_timestamp" map₁
      timestamp ← checked (flag "`file_timestamp` must be a boolean" false field)
      op_file' ← stamped timestamp op_file
      dir ← config_dir
      let write_file_path = X.join dir op_file'
      handle ← (λ net.
          (Result.ok (X.open_both write_file_path net).0, (X.open_both write_file_path net).1))
      _ ← checked (opened handle)
      let (field', map₃) = remove "append" map₂
      append ← checked (flag "`append` must be a bool" false field')
      pattern ← checked (parse_pattern X map₃ false)
      build_file X S (
          File.timestamp timestamp
            (File.append append (File.encoder pattern (File.builder X write_file_path))))
