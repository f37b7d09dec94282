-- ===== src/External/Host.antt =====
-- The machine that the libraries are packaged on, as `std::process`, `std::env`, `std::fs`, `toml`,
-- `heck`, `walkdir` and the archive crates show it: its files and variables are a `Disk`, and what
-- cannot be started, read or written is `none`.
use safe_client_libs.Shared.{ℕ, Bool, String, Option, List}
use safe_client_libs.External.Protocol.{Bytes}

-- An argument of a command: a text, or the path of a file.
pub data Argument (FilePath : Type 0) : Type 0 where
  text : String → Argument FilePath
  file : FilePath → Argument FilePath

-- What is done to an archive that has been created: `ZipWriter::add_directory`,
-- `ZipWriter::start_file`, `io::copy` of an opened file, and
-- `tar::Builder::append_path_with_name`.
pub data ArchiveOp (FilePath : Type 0) : Type 0 where
  add_directory : String → ArchiveOp FilePath
  start_file : String → ArchiveOp FilePath
  copy_file : FilePath → ArchiveOp FilePath
  append_path : FilePath → String → ArchiveOp FilePath

pub record HostApi (FilePath Disk : Type 0) : Type 0 where
  pub path_of : String → FilePath
  -- Whether two paths lead to one file
  pub same_path : FilePath → FilePath → Bool
  pub join : FilePath → String → FilePath
  pub strip_prefix : FilePath → FilePath → Option FilePath
  pub join_path : FilePath → FilePath → FilePath
  pub file_name : FilePath → Option String
  -- `into_os_string().into_string()`, where it is UTF-8
  pub into_text : FilePath → Option String
  -- `str::replace` of every backslash by a slash
  pub with_slashes : String → String
  pub shouty_snake_case : String → String
  pub exists_file : FilePath → Disk → Bool
  pub read_to_string : FilePath → Disk → Option String
  -- `["package"]["version"]` of a parsed `Cargo.toml`
  pub package_version : String → Option String
  pub env_var : String → Disk → Option String
  pub set_var : String → String → Disk → Disk
  -- `Command::status`, and whether the command succeeded
  pub status : String → List (Argument FilePath) → Disk → Option Bool × Disk
  -- The standard output of `Command::output`
  pub output : String → List (Argument FilePath) → Disk → Option Bytes × Disk
  pub from_utf8 : Bytes → Option String
  pub trim : String → String
  -- `text[0..n]`
  pub first_bytes : ℕ → String → Option String
  pub create_file : FilePath → Disk → Option Disk
  pub write_archive : ArchiveOp FilePath → Disk → Option Disk
  -- The entries below a directory, and whether each is a directory
  pub walk_dir : FilePath → Disk → List (Option (FilePath × Bool))
