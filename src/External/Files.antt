-- ===== src/External/Files.antt =====
-- The functions that the configuration is read with: `directories`, files, paths, `serde_json`, and the
-- fields of the configuration of `quic_p2p`.
use safe_client_libs.Shared.{Bool, String, Option, List}
use safe_client_libs.External.Types.{Types}
use safe_client_libs.External.Protocol.{Bytes, Result}

pub record FileApi (T : Types) (FilePath Dirs Disk : Type 0) : Type 0 where
  -- `ProjectDirs::from`, of a qualifier, an organisation and an application, and its `from_path`
  pub project_dirs : String → String → String → Option Dirs
  pub dirs_from_path : FilePath → Option Dirs
  pub dir_of : Dirs → FilePath
  pub join : FilePath → String → FilePath
  -- `into_os_string().into_string()`, where it is UTF-8
  pub into_string : FilePath → Option String
  pub open_file : FilePath → Disk → Result T.IoError Bytes
  pub is_not_found : T.IoError → Bool
  pub parse_quic : Bytes → Result T.JsonError T.QuicConfig
  pub parse_contact : Bytes → Result T.JsonError T.SocketAddr
  pub default_quic : T.QuicConfig
  pub with_cache_dir : T.QuicConfig → Option String → T.QuicConfig
  pub add_contact : T.QuicConfig → T.SocketAddr → T.QuicConfig
  pub contacts : T.QuicConfig → List T.SocketAddr
  -- `QuicP2pError::Configuration`, with its text
  pub configuration_error : String → T.QuicError
