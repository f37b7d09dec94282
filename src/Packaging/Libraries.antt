-- ===== src/Packaging/Libraries.antt =====
-- The libraries of a target that have been built (scripts/package.rs).
use safe_client_libs.Shared.{
  Bool, ◌&&◌, String, ◌<>◌, Option, none, some, List, [], ◌∷◌, ◌++◌, if◌then◌else◌,
}
use safe_client_libs.External.Host.{HostApi}
use safe_client_libs.Packaging.Shell.{Shell, pure, panics, look, ◌>>=◌}
use safe_client_libs.Packaging.Targets.{is_static_lib_required}

module _ {FilePath Disk : Type 0} (H : HostApi FilePath Disk) where
  abbrev below : FilePath → Option String → FilePath
  below prefix none = prefix
  below prefix (some target) = H.join prefix target

  abbrev pub release_dir : Option String → String → FilePath
  release_dir target target_dir = H.join (below (H.path_of target_dir) target) "release"

  -- `if condition { result.push(path); }`
  abbrev push_if : Bool → FilePath → List FilePath → List FilePath
  push_if condition path result = if condition then result ++ (path ∷ []) else result

  -- The `result` of `find_libs`, before it is known whether it is empty.
  unfoldable pub libs_on : String → Option String → String → Disk → List FilePath
  libs_on krate target target_dir disk =
      let prefix = release_dir target target_dir in
      let path = H.join prefix ("lib" <> (krate <> ".a")) in
      let result = push_if (H.exists_file path disk && is_static_lib_required target) path [] in
      let path = H.join prefix ("lib" <> (krate <> ".so")) in
      let result = push_if (H.exists_file path disk) path result in
      let path = H.join prefix ("lib" <> (krate <> ".dylib")) in
      let result = push_if (H.exists_file path disk) path result in
      let path = H.join prefix (krate <> ".dll") in push_if (H.exists_file path disk) path result

  abbrev pub unless_empty :
      List FilePath → Shell FilePath Disk → Option (List FilePath) × Shell FilePath Disk
  unless_empty [] = panics
  unless_empty (path ∷ rest) = pure (path ∷ rest)

  unfoldable pub find_libs :
      String
      → Option String
      → String
      → Shell FilePath Disk
      → Option (List FilePath) × Shell FilePath Disk
  unfolding libs_on
  find_libs krate target target_dir = do
    result ← look (libs_on krate target target_dir)
    unless_empty result
