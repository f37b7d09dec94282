-- ===== src/Configuration.antt =====
-- The configuration (src/config_handler.rs): where it is read from, and what it is where it cannot be
-- read. `mobile` says whether the target is Android or iOS. The variable CONFIG_DIR_PATH and the disk
-- are the state.
use safe_client_libs.Shared.{Bool, true, false, String, Option, none, some, List}
use safe_client_libs.External.Types.{Types}
use safe_client_libs.External.Protocol.{Bytes, Result}
use safe_client_libs.External.Files.{FileApi}
use safe_client_libs.Errors.{CoreError, ErrorText, from_text, from_io, from_quic, from_json}
use safe_client_libs.Exec.{Exec, Exit, pure, raise, try, ok_or, attempt, gets, modify, ◌>>=◌, ◌>>◌}

pub record Settings (FilePath Disk : Type 0) : Type 0 where
  pub config_dir_path : Option FilePath
  pub disk : Disk

pub record DevConfig : Type 0 where
  pub mock_unlimited_money : Bool
  pub mock_in_memory_storage : Bool
  pub mock_vault_path : Option String

pub record Config (T : Types) : Type 0 where
  pub quic_p2p : T.QuicConfig
  pub dev : Option DevConfig

module _ {T : Types} {FilePath Dirs Disk : Type 0} (X : ErrorText T)
    (F : FileApi T FilePath Dirs Disk) where
  unfoldable pub set_config_dir_path : FilePath → Exec T (Settings FilePath Disk) (Unit {0})
  set_config_dir_path path = modify (λ s. record s { config_dir_path = some path })

  abbrev pub unless_set :
      Option FilePath → Settings FilePath Disk → Exit T (Unit {0}) × Settings FilePath Disk
  unless_set (some _) = pure tt
  unless_set none = raise (from_quic (F.configuration_error "Boostrap cache directory not set"))

  unfoldable pub check_config_path_set : Exec T (Settings FilePath Disk) (Unit {0})
  check_config_path_set = do path ← gets (λ s. s.config_dir_path); unless_set path

  -- The directories of the custom path, or else those of an application.
  abbrev pub dirs_of : String → Option FilePath → Option Dirs
  dirs_of application (some custom_path) = F.dirs_from_path custom_path
  dirs_of application none = F.project_dirs "net" "MaidSafe" application

  unfoldable pub dirs : Exec T (Settings FilePath Disk) Dirs
  dirs = do
    path ← gets (λ s. s.config_dir_path)
    ok_or (from_text "Cannot determine project directory paths") (dirs_of "safe_core" path)

  unfoldable pub vault_dirs : Exec T (Settings FilePath Disk) Dirs
  vault_dirs = do
    path ← gets (λ s. s.config_dir_path)
    ok_or (from_text "Cannot determine vault directory paths") (dirs_of "safe_vault" path)

  unfoldable pub config_dir : Exec T (Settings FilePath Disk) FilePath
  unfolding dirs
  config_dir = do found ← dirs; pure (F.dir_of found)

  unfoldable pub read_config_file :
      {A : Type 0}
      → (Bytes → Result T.JsonError A)
      → Dirs
      → String
      → Exec T (Settings FilePath Disk) A
  unfolding from_json
  read_config_file parse found file = do
    disk ← gets (λ s. s.disk)
    content ← try from_io (F.open_file (F.join (F.dir_of found) file) disk)
    try (from_json X) (parse content)

  abbrev pub checked_on : Bool → Exec T (Settings FilePath Disk) (Unit {0})
  unfolding check_config_path_set
  checked_on true = check_config_path_set
  checked_on false = pure tt

  -- The custom path as a text, if there is one.
  abbrev pub as_text :
      Option FilePath → Settings FilePath Disk → Exit T (Option String) × Settings FilePath Disk
  as_text none = pure none
  as_text (some path) = do
    text ← ok_or (from_text "Config path is not a valid UTF-8 string") (F.into_string path)
    pure (some text)

  -- Without a configuration file: the default one, with the custom path as the cache.
  unfoldable pub without_file : Bool → Exec T (Settings FilePath Disk) T.QuicConfig
  unfolding check_config_path_set
  without_file mobile = do
    checked_on mobile
    path ← gets (λ s. s.config_dir_path)
    custom_dir ← as_text path
    pure (F.with_cache_dir F.default_quic custom_dir)

  -- The match on what was read.
  abbrev pub or_default :
      Bool → Result (CoreError T) T.QuicConfig → Exec T (Settings FilePath Disk) T.QuicConfig
  unfolding without_file
  or_default mobile (Result.ok config) = pure config
  or_default mobile (Result.err (CoreError.io_error e)) = elim (F.is_not_found e) [
    | true ↦ without_file mobile
    | false ↦ raise (from_io e)
  ]
  or_default mobile (Result.err e) = raise e

  abbrev pub with_vault : T.QuicConfig → Result (CoreError T) T.SocketAddr → T.QuicConfig
  with_vault config (Result.ok node_info) = F.add_contact config node_info
  with_vault config (Result.err _) = config

  unfoldable pub read_qp2p_from_file : Bool → Exec T (Settings FilePath Disk) T.QuicConfig
  unfolding dirs vault_dirs read_config_file without_file
  read_qp2p_from_file mobile = do
    found ← dirs
    r ← attempt (read_config_file F.parse_quic found "safe_core.config")
    config ← or_default mobile r
    vault ← vault_dirs
    node ← attempt (read_config_file F.parse_contact vault "vault_connection_info.config")
    pure (with_vault config node)

  abbrev pub quic_or_default : Result (CoreError T) T.QuicConfig → T.QuicConfig
  quic_or_default (Result.ok config) = config
  quic_or_default (Result.err _) = F.default_quic

  -- `Config::new`
  unfoldable pub new_config : Bool → Exec T (Settings FilePath Disk) (Config T)
  unfolding read_qp2p_from_file
  new_config mobile = do
    r ← attempt (read_qp2p_from_file mobile)
    pure (record { quic_p2p = quic_or_default r; dev = none })

  unfoldable pub get_config : Bool → Exec T (Settings FilePath Disk) (Config T)
  unfolding new_config
  get_config mobile = new_config mobile

  -- `bootstrap_config` (src/client/mod.rs)
  unfoldable pub bootstrap_config : Bool → Exec T (Settings FilePath Disk) (List T.SocketAddr)
  unfolding new_config
  bootstrap_config mobile = do config ← new_config mobile; pure (F.contacts config.quic_p2p)
