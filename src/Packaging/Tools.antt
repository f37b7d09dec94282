-- ===== src/Packaging/Tools.antt =====
-- The commands that the tool runs, and the environment that it runs them in (scripts/package.rs).
use safe_client_libs.Shared.{
  Bool, true, false, String, ◌<>◌, Option, none, some, List, [], ◌∷◌, ◌++◌, map, if◌then◌else◌,
}
use safe_client_libs.External.Host.{HostApi, Argument, text, file}
use safe_client_libs.Packaging.Shell.{Shell, pure, panics, unwrap, on_disk, look, ◌>>=◌, ◌>>◌}
use safe_client_libs.Packaging.Targets.{
  TargetTriple, TargetOs, macos, linux, windows, commit_hash_len,
}

-- `features.join(",")`
abbrev joined : List String → String
joined [] = ""
joined (feature ∷ []) = feature
joined (feature ∷ other ∷ features) = feature <> ("," <> joined (other ∷ features))

abbrev or_text : String → Option String → String
or_text other none = other
or_text other (some given) = given

abbrev toolchain_of : Option TargetTriple → String
toolchain_of none = ""
toolchain_of (some target) = target.toolchain

abbrev is_macos : TargetOs → Bool
is_macos macos = true
is_macos linux = false
is_macos windows = false

module _ {FilePath Disk : Type 0} (H : HostApi FilePath Disk) where
  abbrev bin_dir : Option String → String → FilePath
  bin_dir none name = H.path_of name
  bin_dir (some toolchain_path) name = H.join (H.join (H.path_of toolchain_path) "bin") name

  unfoldable pub get_toolchain_bin :
      Option String
      → Option TargetTriple
      → String
      → Shell FilePath Disk
      → Option String × Shell FilePath Disk
  get_toolchain_bin toolchain_path target bin =
      unwrap (H.into_text (bin_dir toolchain_path (toolchain_of target <> bin)))

  abbrev linker_of :
      Option String
      → TargetTriple
      → String
      → Shell FilePath Disk
      → Option (Option String) × Shell FilePath Disk
  linker_of none target name = look (H.env_var name)
  linker_of (some toolchain_path) target name = do
    value ← get_toolchain_bin (some toolchain_path) (some target) "gcc"
    on_disk (λ disk. (some (some value), H.set_var name value disk))

  -- The notices and warnings that it prints are left out.
  unfoldable pub setup_env :
      Option String
      → Option TargetTriple
      → Shell FilePath Disk
      → Option (Unit {0}) × Shell FilePath Disk
  setup_env toolchain_path none = pure tt
  setup_env toolchain_path (some target) = do
    linker_of toolchain_path target
        ("CARGO_TARGET_" <> (H.shouty_snake_case target.name <> "_LINKER"))
    pure tt

  abbrev with_features : List String → List (Argument FilePath)
  with_features [] = []
  with_features (feature ∷ features) = text "--features" ∷ text (joined (feature ∷ features)) ∷ []

  abbrev with_target : Option String → List (Argument FilePath)
  with_target none = []
  with_target (some target) = text "--target" ∷ text target ∷ []

  unfoldable pub build :
      String → List String → Option String → Shell FilePath Disk → Option Bool × Shell FilePath Disk
  build krate features target = on_disk (
      H.status "cargo" (
        text "build"
        ∷ text "--verbose"
        ∷ text "--release"
        ∷ text "--manifest-path"
        ∷ text (krate <> "/Cargo.toml")
        ∷ (with_features features ++ with_target target)))

  -- `command.status().expect(…).success()`, where a failure is a panic
  abbrev succeed : Bool → Shell FilePath Disk → Option (Unit {0}) × Shell FilePath Disk
  succeed true = pure tt
  succeed false = panics

  abbrev strip_args : TargetOs → FilePath → List (Argument FilePath)
  strip_args os lib_path =
      if is_macos os then text "-x" ∷ file lib_path ∷ [] else file lib_path ∷ []

  unfoldable pub strip_lib :
      TargetOs → String → FilePath → Shell FilePath Disk → Option (Unit {0}) × Shell FilePath Disk
  strip_lib os strip_bin lib_path = do
    success ← on_disk (H.status strip_bin (strip_args os lib_path))
    succeed success

  abbrev pub strip_each :
      TargetOs
      → String
      → List FilePath
      → Shell FilePath Disk
      → Option (Unit {0}) × Shell FilePath Disk
  strip_each os strip_bin [] = pure tt
  strip_each os strip_bin (path ∷ libs) =
      strip_lib os strip_bin path >> strip_each os strip_bin libs

  unfoldable pub strip_libs :
      TargetOs
      → Option String
      → Option TargetTriple
      → List FilePath
      → Shell FilePath Disk
      → Option (Unit {0}) × Shell FilePath Disk
  strip_libs os toolchain_path target libs = do
    strip_bin ← get_toolchain_bin toolchain_path target "strip"
    strip_each os strip_bin libs

  unfoldable pub lipo :
      List FilePath → String → Shell FilePath Disk → Option (Unit {0}) × Shell FilePath Disk
  lipo libs output = do
    success ←
        on_disk (
          H.status "lipo" (text "-create" ∷ (map file libs ++ (text "-output" ∷ text output ∷ []))))
    succeed success

  abbrev version_of_commit : Shell FilePath Disk → Option String × Shell FilePath Disk
  version_of_commit = do
    stdout ← on_disk (H.output "git" (text "rev-parse" ∷ text "HEAD" ∷ []))
    printed ← unwrap (H.from_utf8 stdout)
    unwrap (H.first_bytes commit_hash_len (H.trim printed))

  abbrev version_of_crate : String → Shell FilePath Disk → Option String × Shell FilePath Disk
  version_of_crate krate = do
    found ← look (H.read_to_string (H.join (H.path_of krate) "Cargo.toml"))
    content ← unwrap found
    unwrap (H.package_version content)

  unfoldable pub get_version_string :
      String → Bool → Bool → Shell FilePath Disk → Option String × Shell FilePath Disk
  get_version_string krate true true = panics
  get_version_string krate true false = version_of_commit
  get_version_string krate false true = pure "nightly"
  get_version_string krate false false = version_of_crate krate
