-- ===== src/Packaging/Keeps.antt =====
-- The steps of a run that touch no archive (scripts/package.rs).
use safe_client_libs.Shared.{
  ◌≡◌, refl, ◌∙◌, Bool, true, false, ◌&&◌, String, ◌<>◌, Option, none, some, List, [], ◌∷◌, ◌++◌,
  arith,
}
use safe_client_libs.External.Host.{HostApi}
use safe_client_libs.Packaging.Target as Target
use safe_client_libs.Packaging.Shell.{Shell, continue, ◌>>=◌, when}
use safe_client_libs.Packaging.Targets.{TargetTriple, TargetOs, TargetArch, find_target}
use safe_client_libs.Packaging.Tools.{
  get_toolchain_bin, setup_env, build, strip_lib, strip_each, strip_libs, lipo, get_version_string,
}
use safe_client_libs.Packaging.Libraries.{find_libs}
use safe_client_libs.Packaging.Main.{
  Matches, rebuilt, found, found_if, arch_libs, joined_by_lipo, universal_libs, found_if_built,
  normal_libs, gathered_if, name_of,
}

module _ {FilePath Disk A : Type 0} where
  abbrev pub Keeps : (Shell FilePath Disk → Option A × Shell FilePath Disk) → Type 0
  Keeps m = (s : Shell FilePath Disk) → (m s).1.archives ≡ s.archives

module _ {FilePath Disk A B : Type 0} where
  continue-archives :
      (o : Option A) (f : A → Shell FilePath Disk → Option B × Shell FilePath Disk)
      (s : Shell FilePath Disk)
      → ((a : A) → Keeps (f a))
      → (continue o f s).1.archives ≡ s.archives
  continue-archives none f s h = refl
  continue-archives (some a) f s h = h a s

  pub bind-Keeps :
      (m : Shell FilePath Disk → Option A × Shell FilePath Disk)
      (f : A → Shell FilePath Disk → Option B × Shell FilePath Disk)
      → Keeps m
      → ((a : A) → Keeps (f a))
      → Keeps (m >>= f)
  bind-Keeps m f h k s = continue-archives (m s).0 f (m s).1 k ∙ h s

module _ {FilePath Disk : Type 0} (H : HostApi FilePath Disk) where
  get_toolchain_bin-Keeps :
      (toolchain_path : Option String) (target : Option TargetTriple) (bin : String)
      → Keeps (get_toolchain_bin H toolchain_path target bin)
  unfolding get_toolchain_bin
  get_toolchain_bin-Keeps toolchain_path target bin s = refl

  pub setup_env-Keeps :
      (toolchain_path : Option String) (target : Option TargetTriple)
      → Keeps (setup_env H toolchain_path target)
  unfolding setup_env get_toolchain_bin
  setup_env-Keeps toolchain_path none s = refl
  setup_env-Keeps none (some target) s = refl
  setup_env-Keeps (some path) (some target) s = ground arith

  strip_lib-Keeps :
      (os : TargetOs) (strip_bin : String) (path : FilePath) → Keeps (strip_lib H os strip_bin path)
  unfolding strip_lib
  strip_lib-Keeps os strip_bin path s = ground arith

  strip_each-Keeps :
      (os : TargetOs) (strip_bin : String) (libs : List FilePath)
      → Keeps (strip_each H os strip_bin libs)
  strip_each-Keeps os strip_bin [] s = refl
  strip_each-Keeps os strip_bin (path ∷ libs) s =
      bind-Keeps (strip_lib H os strip_bin path) (λ _. strip_each H os strip_bin libs)
        (strip_lib-Keeps os strip_bin path) (λ _. strip_each-Keeps os strip_bin libs) s

  strip_libs-Keeps :
      (os : TargetOs) (toolchain_path : Option String) (target : Option TargetTriple)
      (libs : List FilePath)
      → Keeps (strip_libs H os toolchain_path target libs)
  unfolding strip_libs
  strip_libs-Keeps os toolchain_path target libs =
      bind-Keeps (get_toolchain_bin H toolchain_path target "strip")
        (λ strip_bin. strip_each H os strip_bin libs)
        (get_toolchain_bin-Keeps toolchain_path target "strip")
        (λ strip_bin. strip_each-Keeps os strip_bin libs)

  lipo-Keeps : (libs : List FilePath) (output : String) → Keeps (lipo H libs output)
  unfolding lipo
  lipo-Keeps libs output s = ground arith

  pub get_version_string-Keeps :
      (krate : String) (commit nightly : Bool) → Keeps (get_version_string H krate commit nightly)
  unfolding get_version_string
  get_version_string-Keeps krate true true s = refl
  get_version_string-Keeps krate true false s = ground arith
  get_version_string-Keeps krate false true s = refl
  get_version_string-Keeps krate false false s = ground arith

  find_libs-Keeps :
      (krate : String) (target : Option String) (target_dir : String)
      → Keeps (find_libs H krate target target_dir)
  unfolding find_libs
  find_libs-Keeps krate target target_dir s = ground arith

module _ {FilePath Disk : Type 0} (H : HostApi FilePath Disk) (os : TargetOs) (arch : TargetArch)
    (matches : Matches) where
  when-Keeps :
      (condition : Bool) (m : Shell FilePath Disk → Option (Unit {0}) × Shell FilePath Disk)
      → Keeps m
      → Keeps (when condition m)
  when-Keeps true m h s = h s
  when-Keeps false m h s = refl

  rebuilt-Keeps :
      (rebuild : Bool) (target_name : Option String)
      → Keeps (rebuilt H os arch matches rebuild target_name)
  unfolding build
  rebuilt-Keeps true target_name s = refl
  rebuilt-Keeps false target_name s = refl

  found-Keeps :
      (target_name : Option String) (target : Option TargetTriple) (target_dir : String)
      → Keeps (found H os arch matches target_name target target_dir)
  found-Keeps target_name target target_dir =
      bind-Keeps (find_libs H matches.name target_name target_dir)
        (λ libs s.
          continue (when matches.strip (strip_libs H os matches.toolchain target libs) s).0
            (λ _ s. (some libs, s))
            (when matches.strip (strip_libs H os matches.toolchain target libs) s).1)
        (find_libs-Keeps H matches.name target_name target_dir)
        (λ libs.
          bind-Keeps (when matches.strip (strip_libs H os matches.toolchain target libs))
            (λ _ s. (some libs, s))
            (when-Keeps matches.strip _ (strip_libs-Keeps H os matches.toolchain target libs))
            (λ _ s. refl))

  found_if-Keeps :
      (lib : Bool) (target_name : Option String) (target : Option TargetTriple)
      (target_dir : String)
      → Keeps (found_if H os arch matches lib target_name target target_dir)
  found_if-Keeps true target_name target target_dir s = found-Keeps target_name target target_dir s
  found_if-Keeps false target_name target target_dir s = refl

  arch_libs-Keeps :
      (target_dir target_name : String) → Keeps (arch_libs H os arch matches target_dir target_name)
  arch_libs-Keeps target_dir target_name =
      bind-Keeps (rebuilt H os arch matches matches.rebuild (some target_name)) _
        (rebuilt-Keeps matches.rebuild (some target_name))
        (λ built.
          found_if-Keeps (built && matches.lib) (some target_name) (find_target target_name)
            target_dir)

  joined_by_lipo-Keeps : (libs : List FilePath) → Keeps (joined_by_lipo H os arch matches libs)
  joined_by_lipo-Keeps [] s = refl
  joined_by_lipo-Keeps (path ∷ libs) s =
      let lib_name = "lib" <> (matches.name <> ".a") in
      bind-Keeps (lipo H (path ∷ libs) lib_name) (λ _ s. (some (H.path_of lib_name ∷ []), s))
        (lipo-Keeps H (path ∷ libs) lib_name) (λ _ s. refl) s

  universal_libs-Keeps : (target_dir : String) → Keeps (universal_libs H os arch matches target_dir)
  unfolding universal_libs
  universal_libs-Keeps target_dir =
      bind-Keeps (arch_libs H os arch matches target_dir Target.ios_arm64) _
        (arch_libs-Keeps target_dir Target.ios_arm64)
        (λ arm64.
          bind-Keeps (arch_libs H os arch matches target_dir Target.ios_x64) _
            (arch_libs-Keeps target_dir Target.ios_x64)
            (λ x64. joined_by_lipo-Keeps (arm64 ++ x64)))

  found_if_built-Keeps :
      (built : Bool) (target : Option TargetTriple) (target_dir : String)
      → Keeps (found_if_built H os arch matches built target target_dir)
  found_if_built-Keeps true target target_dir s =
      bind-Keeps (found_if H os arch matches matches.lib (name_of target) target target_dir)
        (λ libs s. (some (some libs), s))
        (found_if-Keeps matches.lib (name_of target) target target_dir) (λ libs s. refl) s
  found_if_built-Keeps false target target_dir s = refl

  pub normal_libs-Keeps :
      (target : Option TargetTriple) (target_dir : String)
      → Keeps (normal_libs H os arch matches target target_dir)
  unfolding normal_libs
  normal_libs-Keeps target target_dir =
      bind-Keeps (rebuilt H os arch matches matches.rebuild (name_of target)) _
        (rebuilt-Keeps matches.rebuild (name_of target))
        (λ built. found_if_built-Keeps built target target_dir)

  pub gathered_if-Keeps :
      (universal : Bool) (target_name target_dir : String)
      → Keeps (gathered_if H os arch matches universal target_name target_dir)
  gathered_if-Keeps true target_name target_dir s =
      bind-Keeps (universal_libs H os arch matches target_dir) (λ libs s. (some (some libs), s))
        (universal_libs-Keeps target_dir) (λ libs s. refl) s
  gathered_if-Keeps false target_name target_dir s =
      normal_libs-Keeps (find_target target_name) target_dir s
