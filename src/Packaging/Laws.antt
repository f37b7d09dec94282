-- ===== src/Packaging/Laws.antt =====
-- What a run of the packaging tool finds and leaves (scripts/package.rs).
use mathlib.Core.Path.{subst}
use safe_client_libs.Shared.{
  ◌≡◌, ◌≢◌, refl, sym, ap, ◌∙◌, ◌↔◌, false, String, ◌<>◌, Option, none, some, List, [], ◌∷◌, ◌++◌,
  arith, if◌then◌else◌,
}
use safe_client_libs.External.Host.{HostApi}
use safe_client_libs.Packaging.Shell.{Archive, Shell, pure, bind-eq-some, when, ◌>>=◌, ◌>>◌}
use safe_client_libs.Packaging.Targets.{
  TargetOs, TargetArch, host_target_triple, find_target, is_static_lib_required,
}
use safe_client_libs.Packaging.Tools.{setup_env, get_version_string}
use safe_client_libs.Packaging.Libraries.{find_libs, libs_on, unless_empty, release_dir}
use safe_client_libs.Packaging.Archives.{package_bindings}
use safe_client_libs.Packaging.Contents.{IsNamed}
use safe_client_libs.Packaging.Pair.{both_archives, both-archives}
use safe_client_libs.Packaging.Main.{
  Matches, unwrap_or, dest_dir, dir_or_var, is_universal, gathered_if, package_libs, package_all,
  main,
}
use safe_client_libs.Packaging.Keeps.{
  Keeps, bind-Keeps, get_version_string-Keeps, setup_env-Keeps, gathered_if-Keeps,
}

module _ {FilePath Disk : Type 0} (H : HostApi FilePath Disk) where
  -- The libraries that a target may have on the disk, in the order of their kinds.
  abbrev pub candidates : String → Option String → String → List FilePath
  candidates krate target target_dir =
      let in_release = λ (name : String). H.join (release_dir H target target_dir) name in
      (if is_static_lib_required target then in_release ("lib" <> (krate <> ".a")) ∷ [] else [])
      ++ (in_release ("lib" <> (krate <> ".so"))
          ∷ in_release ("lib" <> (krate <> ".dylib"))
          ∷ in_release (krate <> ".dll")
          ∷ [])

  abbrev pub present : Disk → List FilePath → List FilePath
  present disk [] = []
  present disk (path ∷ paths) =
      let later = present disk paths in if H.exists_file path disk then path ∷ later else later

  libs_on-eq-present :
      (krate : String) (target : Option String) (target_dir : String) (disk : Disk)
      → libs_on H krate target target_dir disk ≡ present disk (candidates krate target target_dir)
  unfolding libs_on
  libs_on-eq-present krate target target_dir disk = ground arith

  unless_empty-ends :
      (libs : List FilePath) (s : Shell FilePath Disk)
      → (((unless_empty H libs s).0 ≡ some libs) ↔ (libs ≢ []))
        × (((unless_empty H libs s).0 ≡ none) ↔ (libs ≡ []))
        × ((unless_empty H libs s).1 ≡ s)
  unless_empty-ends [] s = ((λ h. cc, λ h. ground arith), (λ h. refl, λ h. refl), refl)
  unless_empty-ends (path ∷ libs) s = ((λ h e. cc, λ h. refl), (λ h. cc, λ h. cc), refl)

  -- `find_libs` returns the candidates for the target that exist on the disk, in their order, with
  -- the static library only where one is required. It panics exactly when there are none, and it
  -- changes nothing.
  pub find_libs_iff :
      (krate : String) (target : Option String) (target_dir : String) (s : Shell FilePath Disk)
      → let libs = present s.disk (candidates krate target target_dir) in
        (((find_libs H krate target target_dir s).0 ≡ some libs) ↔ (libs ≢ []))
        × (((find_libs H krate target target_dir s).0 ≡ none) ↔ (libs ≡ []))
        × ((find_libs H krate target target_dir s).1 ≡ s)
  unfolding find_libs
  find_libs_iff krate target target_dir s =
      let same = libs_on-eq-present krate target target_dir s.disk in
      rw same (unless_empty-ends (present s.disk (candidates krate target target_dir)) s)

module _ {FilePath Disk : Type 0} (H : HostApi FilePath Disk) (os : TargetOs) (arch : TargetArch)
    (matches : Matches) where
  -- What a run without bindings that has gathered these libraries leaves of archives. Where a build
  -- has failed, or where there are no libraries, all is as before.
  abbrev pub IsPackaged :
      String
      → String
      → Option (List FilePath)
      → List (Archive FilePath)
      → List (Archive FilePath)
      → Type 0
  IsPackaged target_name version none before after = after ≡ before
  IsPackaged target_name version (some []) before after = after ≡ before
  IsPackaged target_name version (some (path ∷ rest)) before after =
      (names : List (FilePath × String)) × IsNamed H (path ∷ rest) names
      × (after
          ≡ both_archives H target_name matches.name (dest_dir H os arch matches) version
              matches.dev names before)

  package_all-archives :
      (target_name version : String) (libs : Option (List FilePath)) (s : Shell FilePath Disk)
      → matches.bindings ≡ false
      → (package_all H os arch matches target_name version libs s).0 ≡ some tt
      → IsPackaged target_name version libs s.archives
          (package_all H os arch matches target_name version libs s).1.archives
  unfolding package_all
  package_all-archives target_name version none s plain h = refl
  package_all-archives target_name version (some []) s plain h = rw plain refl
  package_all-archives target_name version (some (path ∷ rest)) s plain h =
      let dest = dest_dir H os arch matches in
      let libs = package_libs H os arch matches target_name version (path ∷ rest) in
      let bindings = package_bindings H matches.name dest version in
      let (_, packed, went) = bind-eq-some libs (λ _. when matches.bindings bindings) s tt h in
      let (names, named, held) =
        both-archives H target_name matches.name dest version matches.dev (path ∷ rest) s packed in
      let none_more : (when matches.bindings bindings (libs s).1).1.archives ≡ (libs s).1.archives =
        rw plain refl in
      (names, named, ap (λ r. r.1.archives) went ∙ none_more ∙ held)

  dir_or_var-Keeps : (artifacts : Option String) → Keeps (dir_or_var H os arch matches artifacts)
  dir_or_var-Keeps none s = refl
  dir_or_var-Keeps (some artifacts) s = refl

  abbrev target : String
  target = unwrap_or (host_target_triple os arch) matches.target_triple

  -- The run up to its archives: the version, and the libraries that it has built or found.
  abbrev pub gathered :
      Shell FilePath Disk → Option (String × Option (List FilePath)) × Shell FilePath Disk
  gathered = do
    version ← get_version_string H matches.name matches.commit matches.nightly
    target_dir ← dir_or_var H os arch matches matches.artifacts
    setup_env H matches.toolchain (find_target target)
    libs ← gathered_if H os arch matches (is_universal H os arch matches target) target target_dir
    pure (version, libs)

  gathered-Keeps : Keeps gathered
  gathered-Keeps =
      bind-Keeps (get_version_string H matches.name matches.commit matches.nightly) _
        (get_version_string-Keeps H matches.name matches.commit matches.nightly)
        (λ version.
          bind-Keeps (dir_or_var H os arch matches matches.artifacts) _
            (dir_or_var-Keeps matches.artifacts)
            (λ target_dir.
              bind-Keeps (setup_env H matches.toolchain (find_target target)) _
                (setup_env-Keeps H matches.toolchain (find_target target))
                (λ _.
                  bind-Keeps
                    (gathered_if H os arch matches (is_universal H os arch matches target) target
                      target_dir)
                    (λ libs s. (some (version, libs), s))
                    (gathered_if-Keeps H os arch matches (is_universal H os arch matches target)
                      target target_dir)
                    (λ libs s. refl))))

  main-eq-gathered :
      (s : Shell FilePath Disk)
      → main H os arch matches s
        ≡ (gathered >>= λ found. package_all H os arch matches target found.0 found.1) s
  unfolding main
  main-eq-gathered s = ground arith

  pub main-archives :
      (s : Shell FilePath Disk)
      → matches.bindings ≡ false
      → (main H os arch matches s).0 ≡ some tt
      → (version : String) × (libs : Option (List FilePath)) × ((gathered s).0
          ≡ some (version, libs))
        × IsPackaged target version libs s.archives (main H os arch matches s).1.archives
  main-archives s plain h =
      let whole = main-eq-gathered s in
      let packed = λ (found : String × Option (List FilePath)).
        package_all H os arch matches target found.0 found.1 in
      let ((version, libs), made, went) =
        bind-eq-some gathered packed s tt (sym (ap (λ r. r.0) whole) ∙ h) in
      let s' = (gathered s).1 in
      let packaged =
        package_all-archives target version libs s' plain
          (sym (ap (λ r. r.0) (whole ∙ went)) ∙ h) in
      let after = ap (λ r. r.1.archives) (whole ∙ went) in
      (
        version,
        libs,
        made,
        subst (λ l. IsPackaged target version libs l (main H os arch matches s).1.archives)
            (gathered-Keeps s)
            (subst (IsPackaged target version libs s'.archives) (sym after) packaged),
      )
