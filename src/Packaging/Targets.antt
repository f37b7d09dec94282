-- ===== src/Packaging/Targets.antt =====
-- The targets that the tool knows, and the names that it makes of them (scripts/package.rs).
use safe_client_libs.Shared.{
  Bool, false, ◌||◌, String, ◌<>◌, Option, none, some, List, [], ◌∷◌, ◌++◌, ℕ, map, same_text,
  if◌then◌else◌,
}
use safe_client_libs.Packaging.Target as Target

pub record TargetTriple : Type 0 where
  pub name : String
  pub toolchain : String

abbrev pub crates : List String
crates = "safe_app" ∷ "safe_authenticator" ∷ "safe_authenticator_ffi" ∷ []

abbrev triple : String → String → TargetTriple
triple name toolchain = record { name = name; toolchain = toolchain }

abbrev pub target_triples : List TargetTriple
target_triples =
    triple Target.linux_x86 ""
    ∷ triple Target.linux_x64 ""
    ∷ triple Target.osx_x86 ""
    ∷ triple Target.osx_x64 ""
    ∷ triple Target.windows_x86 ""
    ∷ triple Target.windows_x64 ""
    ∷ triple Target.android_armeabiv7a "arm-linux-androideabi-"
    ∷ triple Target.android_x86 "i686-linux-android-"
    ∷ triple Target.android_x64 "x86_64-linux-android-"
    ∷ triple Target.ios_arm64 ""
    ∷ triple Target.ios_x64 ""
    ∷ triple Target.ios_universal ""
    ∷ []

-- The values that the command line takes for a target.
abbrev pub target_names : List String
target_names = map (λ (target : TargetTriple). target.name) target_triples ++ ("ios" ∷ [])

pub data TargetOs : Type 0 where
  linux : TargetOs
  macos : TargetOs
  windows : TargetOs

pub data TargetArch : Type 0 where
  x86 : TargetArch
  x86_64 : TargetArch

-- `HOST_TARGET_TRIPLE`, by what the tool is compiled for.
unfoldable pub host_target_triple : TargetOs → TargetArch → String
host_target_triple linux x86 = "x86-unknown-linux-gnu"
host_target_triple linux x86_64 = "x86_64-unknown-linux-gnu"
host_target_triple macos x86 = "x86-apple-darwin"
host_target_triple macos x86_64 = "x86_64-apple-darwin"
host_target_triple windows x86 = "x86-pc-windows-gnu"
host_target_triple windows x86_64 = "x86_64-pc-windows-gnu"

abbrev pub bindings_langs : List String
bindings_langs = "csharp" ∷ []

abbrev pub commit_hash_len : ℕ
commit_hash_len = 7

abbrev find_by : String → List TargetTriple → Option TargetTriple
find_by name [] = none
find_by name (target ∷ targets) =
    let later = find_by name targets in if same_text target.name name then some target else later

unfoldable pub find_target : String → Option TargetTriple
find_target name = find_by name target_triples

unfoldable pub is_static_lib_required : Option String → Bool
is_static_lib_required (some target) =
    same_text target Target.ios_universal
    || (same_text target Target.ios_arm64 || same_text target Target.ios_x64)
is_static_lib_required none = false

unfoldable pub get_archive_name : String → String → String → String → Bool → String
get_archive_name target_name krate archive_type version_string dev =
    let dev' = if dev then "-dev" else "" in
    krate <> (dev' <> ("-" <> (version_string <> ("-" <> (target_name <> ("." <> archive_type))))))
