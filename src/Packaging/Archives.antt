-- ===== src/Packaging/Archives.antt =====
-- The archives that the libraries and the bindings are written to (scripts/package.rs).
use safe_client_libs.Shared.{Bool, true, false, String, ◌<>◌, Option, List, [], ◌∷◌}
use safe_client_libs.External.Host.{HostApi, add_directory, start_file, copy_file, append_path}
use safe_client_libs.Packaging.Shell.{Shell, pure, unwrap, look, create_archive, add, ◌>>=◌, ◌>>◌}
use safe_client_libs.Packaging.Targets.{get_archive_name, bindings_langs}

module _ {FilePath Disk : Type 0} (H : HostApi FilePath Disk) where
  abbrev pub zip_each :
      List FilePath → Shell FilePath Disk → Option (Unit {0}) × Shell FilePath Disk
  zip_each [] = pure tt
  zip_each (path ∷ libs) = do
    name ← unwrap (H.file_name path)
    add H (start_file name)
    add H (copy_file path)
    zip_each libs

  unfoldable pub package_artifacts_as_zip :
      String
      → String
      → String
      → List FilePath
      → String
      → Bool
      → Shell FilePath Disk
      → Option (Unit {0}) × Shell FilePath Disk
  package_artifacts_as_zip target_name krate dest_dir libs version_string dev = do
    let archive_name = get_archive_name target_name krate "zip" version_string dev
    create_archive H (H.join (H.path_of dest_dir) archive_name)
    zip_each libs

  abbrev pub tar_each :
      List FilePath → Shell FilePath Disk → Option (Unit {0}) × Shell FilePath Disk
  tar_each [] = pure tt
  tar_each (path ∷ libs) = do
    name ← unwrap (H.file_name path)
    add H (append_path path name)
    tar_each libs

  unfoldable pub package_artifacts_as_tar_gz :
      String
      → String
      → String
      → List FilePath
      → String
      → Bool
      → Shell FilePath Disk
      → Option (Unit {0}) × Shell FilePath Disk
  package_artifacts_as_tar_gz target_name krate dest_dir libs version_string dev = do
    let archive_name = get_archive_name target_name krate "tar.gz" version_string dev
    create_archive H (H.join (H.path_of dest_dir) archive_name)
    tar_each libs

  unfoldable pub path_into_string :
      FilePath → Shell FilePath Disk → Option String × Shell FilePath Disk
  path_into_string path = do name ← unwrap (H.into_text path); pure (H.with_slashes name)

  abbrev add_entry :
      Bool → String → FilePath → Shell FilePath Disk → Option (Unit {0}) × Shell FilePath Disk
  add_entry true target_path path = add H (add_directory target_path)
  add_entry false target_path path = add H (start_file target_path) >> add H (copy_file path)

  abbrev add_bindings :
      FilePath
      → FilePath
      → List (Option (FilePath × Bool))
      → Shell FilePath Disk
      → Option (Unit {0}) × Shell FilePath Disk
  add_bindings source_prefix target_prefix [] = pure tt
  add_bindings source_prefix target_prefix (entry ∷ entries) = do
    (path, is_dir) ← unwrap entry
    rest ← unwrap (H.strip_prefix path source_prefix)
    target_path ← path_into_string (H.join_path target_prefix rest)
    add_entry is_dir target_path path
    add_bindings source_prefix target_prefix entries

  abbrev add_langs :
      String → List String → Shell FilePath Disk → Option (Unit {0}) × Shell FilePath Disk
  add_langs krate [] = pure tt
  add_langs krate (lang ∷ langs) = do
    let source_prefix = H.join (H.join (H.path_of "bindings") lang) krate
    entries ← look (H.walk_dir source_prefix)
    add_bindings source_prefix (H.path_of lang) entries
    add_langs krate langs

  -- The last part of `main`.
  unfoldable pub package_bindings :
      String → String → String → Shell FilePath Disk → Option (Unit {0}) × Shell FilePath Disk
  unfolding path_into_string
  package_bindings krate dest_dir version_string = do
    let archive_name = krate <> ("-bindings-" <> (version_string <> ".zip"))
    create_archive H (H.join (H.path_of dest_dir) archive_name)
    add_langs krate bindings_langs
