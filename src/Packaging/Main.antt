-- ===== src/Packaging/Main.antt =====
-- A run of the packaging tool: what is built, which libraries are found, and what is archived
-- (scripts/package.rs). The parsed command line is an argument.
use safe_client_libs.Shared.{
  Bool, true, false, ◌&&◌, String, ◌<>◌, Option, none, some, List, [], ◌∷◌, ◌++◌, contains_text,
  same_text, if◌then◌else◌,
}
use safe_client_libs.External.Host.{HostApi}
use safe_client_libs.Packaging.Target as Target
use safe_client_libs.Packaging.Shell.{Shell, pure, look, when, ◌>>=◌, ◌>>◌}
use safe_client_libs.Packaging.Targets.{
  TargetTriple, TargetOs, TargetArch, host_target_triple, find_target,
}
use safe_client_libs.Packaging.Tools.{setup_env, build, strip_libs, lipo, get_version_string}
use safe_client_libs.Packaging.Libraries.{find_libs}
use safe_client_libs.Packaging.Archives.{
  package_artifacts_as_zip, package_artifacts_as_tar_gz, package_bindings,
}

-- The flags and values of the command line.
pub record Matches : Type 0 where
  pub name : String
  pub commit : Bool
  pub nightly : Bool
  pub rebuild : Bool
  pub target_triple : Option String
  pub lib : Bool
  pub bindings : Bool
  pub dev : Bool
  pub toolchain : Option String
  pub dest : Option String
  pub strip : Bool
  pub artifacts : Option String

abbrev pub unwrap_or : String → Option String → String
unwrap_or other none = other
unwrap_or other (some given) = given

abbrev pub name_of : Option TargetTriple → Option String
name_of none = none
name_of (some target) = some target.name

unfoldable pub features_of : Matches → List String
features_of matches =
    (if matches.dev then "mock-network" ∷ "testing" ∷ [] else [])
    ++ (if matches.bindings then "bindings" ∷ [] else [])

module _ {FilePath Disk : Type 0} (H : HostApi FilePath Disk) (os : TargetOs) (arch : TargetArch)
    (matches : Matches) where
  abbrev pub Step : Type 0 → Type 0
  Step A = Shell FilePath Disk → Option A × Shell FilePath Disk

  abbrev pub dir_or_var : Option String → Step String
  dir_or_var (some artifacts) = pure artifacts
  dir_or_var none = look (λ disk. unwrap_or "target" (H.env_var "CARGO_TARGET_DIR" disk))

  -- `if rebuild { build(…) }`, and whether that went well
  abbrev pub rebuilt : Bool → Option String → Step Bool
  rebuilt true target_name = build H matches.name (features_of matches) target_name
  rebuilt false target_name = pure true

  -- The libraries of a target, stripped if that is asked for.
  abbrev pub found : Option String → Option TargetTriple → String → Step (List FilePath)
  found target_name target target_dir = do
    libs ← find_libs H matches.name target_name target_dir
    when matches.strip (strip_libs H os matches.toolchain target libs)
    pure libs

  abbrev pub found_if : Bool → Option String → Option TargetTriple → String → Step (List FilePath)
  found_if true target_name target target_dir = found target_name target target_dir
  found_if false target_name target target_dir = pure []

  -- One target of an Apple library: a build that fails gives no libraries.
  abbrev pub arch_libs : String → String → Step (List FilePath)
  arch_libs target_dir target_name = do
    built ← rebuilt matches.rebuild (some target_name)
    found_if (built && matches.lib) (some target_name) (find_target target_name) target_dir

  abbrev pub joined_by_lipo : List FilePath → Step (List FilePath)
  joined_by_lipo [] = pure []
  joined_by_lipo (path ∷ libs) = do
    let lib_name = "lib" <> (matches.name <> ".a")
    lipo H (path ∷ libs) lib_name
    pure (H.path_of lib_name ∷ [])

  -- The library for both Apple targets. The iterator is lazy, but it is emptied before `lipo` starts.
  unfoldable pub universal_libs : String → Step (List FilePath)
  universal_libs target_dir = do
    arm64 ← arch_libs target_dir Target.ios_arm64
    x64 ← arch_libs target_dir Target.ios_x64
    joined_by_lipo (arm64 ++ x64)

  abbrev pub found_if_built : Bool → Option TargetTriple → String → Step (Option (List FilePath))
  found_if_built true target target_dir = do
    libs ← found_if matches.lib (name_of target) target target_dir
    pure (some libs)
  found_if_built false target target_dir = pure none

  -- A normal library, or `none` where a build that fails ends the run.
  unfoldable pub normal_libs : Option TargetTriple → String → Step (Option (List FilePath))
  normal_libs target target_dir = do
    built ← rebuilt matches.rebuild (name_of target)
    found_if_built built target target_dir

  abbrev pub is_universal : String → Bool
  is_universal target_name =
      contains_text target_name "ios" && same_text (host_target_triple os arch) Target.osx_x64

  abbrev pub gathered_if : Bool → String → String → Step (Option (List FilePath))
  gathered_if true target_name target_dir = do libs ← universal_libs target_dir; pure (some libs)
  gathered_if false target_name target_dir = normal_libs (find_target target_name) target_dir

  abbrev pub dest_dir : String
  dest_dir = unwrap_or "." matches.dest

  abbrev pub package_libs : String → String → List FilePath → Step (Unit {0})
  package_libs target_name version_string [] = pure tt
  package_libs target_name version_string (path ∷ rest) = do
    let libs = path ∷ rest
    package_artifacts_as_zip H target_name matches.name dest_dir libs version_string matches.dev
    package_artifacts_as_tar_gz H target_name matches.name dest_dir libs version_string matches.dev

  -- What is archived, where the run has come so far.
  unfoldable pub package_all : String → String → Option (List FilePath) → Step (Unit {0})
  package_all target_name version_string none = pure tt
  package_all target_name version_string (some libs) = do
    package_libs target_name version_string libs
    when matches.bindings (package_bindings H matches.name dest_dir version_string)

  unfoldable pub main : Step (Unit {0})
  unfolding host_target_triple universal_libs normal_libs package_all
  main = do
    version_string ← get_version_string H matches.name matches.commit matches.nightly
    let target_name = unwrap_or (host_target_triple os arch) matches.target_triple
    target_dir ← dir_or_var matches.artifacts
    setup_env H matches.toolchain (find_target target_name)
    libs ← gathered_if (is_universal target_name) target_name target_dir
    package_all target_name version_string libs
