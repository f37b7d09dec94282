-- ===== src/Packaging/Pair.antt =====
-- The zip file and the tarball that some libraries are packaged in (scripts/package.rs).
use safe_client_libs.Shared.{◌≡◌, sym, ap, ◌∙◌, Bool, String, Option, some, List, [], ◌∷◌, arith}
use safe_client_libs.External.Host.{HostApi}
use safe_client_libs.Packaging.Shell.{Archive, Shell, without, create_archive, bind-eq-some, ◌>>◌}
use safe_client_libs.Packaging.Targets.{get_archive_name}
use safe_client_libs.Packaging.Archives.{
  zip_each, tar_each, package_artifacts_as_zip, package_artifacts_as_tar_gz,
}
use safe_client_libs.Packaging.Contents.{
  IsNamed, zip_ops, tar_ops, zip_each-ops, tar_each-ops, IsNamed-unique,
}

module _ {FilePath Disk : Type 0} (H : HostApi FilePath Disk) where
  created :
      (path : FilePath) (k : Shell FilePath Disk → Option (Unit {0}) × Shell FilePath Disk)
      (s : Shell FilePath Disk)
      → ((create_archive H path >> k) s).0 ≡ some tt
      → ((create_archive H path >> k) s ≡ k (create_archive H path s).1)
        × ((create_archive H path s).1.archives
            ≡ record { path = path; ops = [] } ∷ without H path s.archives)
  created path k s h =
      let (_, made, went) = bind-eq-some (create_archive H path) (λ _. k) s tt h in
      (went, ground arith)

  module _ (target_name krate dest version : String) (dev : Bool) where
    abbrev pub archive : String → FilePath
    archive type = H.join (H.path_of dest) (get_archive_name target_name krate type version dev)

    zip-archives :
        (libs : List FilePath) (s : Shell FilePath Disk)
        → (package_artifacts_as_zip H target_name krate dest libs version dev s).0 ≡ some tt
        → (names : List (FilePath × String)) × IsNamed H libs names
          × ((package_artifacts_as_zip H target_name krate dest libs version dev s).1.archives
              ≡ record { path = archive "zip"; ops = zip_ops H names }
                ∷ without H (archive "zip") s.archives)
    unfolding package_artifacts_as_zip
    zip-archives libs s h =
        let (went, at) = created (archive "zip") (zip_each H libs) s h in
        let s₁ = (create_archive H (archive "zip") s).1 in
        let (names, named, held) =
          zip_each-ops H libs s₁ (record { path = archive "zip"; ops = [] })
            (without H (archive "zip") s.archives) at (sym (ap (λ r. r.0) went) ∙ h) in
        (names, named, ap (λ r. r.1.archives) went ∙ held)

    tar-archives :
        (libs : List FilePath) (s : Shell FilePath Disk)
        → (package_artifacts_as_tar_gz H target_name krate dest libs version dev s).0 ≡ some tt
        → (names : List (FilePath × String)) × IsNamed H libs names
          × ((package_artifacts_as_tar_gz H target_name krate dest libs version dev s).1.archives
              ≡ record { path = archive "tar.gz"; ops = tar_ops H names }
                ∷ without H (archive "tar.gz") s.archives)
    unfolding package_artifacts_as_tar_gz
    tar-archives libs s h =
        let (went, at) = created (archive "tar.gz") (tar_each H libs) s h in
        let s₁ = (create_archive H (archive "tar.gz") s).1 in
        let (names, named, held) =
          tar_each-ops H libs s₁ (record { path = archive "tar.gz"; ops = [] })
            (without H (archive "tar.gz") s.archives) at (sym (ap (λ r. r.0) went) ∙ h) in
        (names, named, ap (λ r. r.1.archives) went ∙ held)

    -- The archives after a zip file and a tarball of some libraries: the same files in the same
    -- order, under the same names. What was at the path of one of them before is lost.
    abbrev pub both_archives :
        List (FilePath × String) → List (Archive FilePath) → List (Archive FilePath)
    both_archives names before =
        record { path = archive "tar.gz"; ops = tar_ops H names }
        ∷ without H (archive "tar.gz") (
            record { path = archive "zip"; ops = zip_ops H names }
            ∷ without H (archive "zip") before)

    pub both-archives :
        (libs : List FilePath) (s : Shell FilePath Disk)
        → let zip = package_artifacts_as_zip H target_name krate dest libs version dev in
          let tar = package_artifacts_as_tar_gz H target_name krate dest libs version dev in
          ((zip >> tar) s).0 ≡ some tt
          → (names : List (FilePath × String)) × IsNamed H libs names
            × (((zip >> tar) s).1.archives ≡ both_archives names s.archives)
    both-archives libs s h =
        let zip = package_artifacts_as_zip H target_name krate dest libs version dev in
        let tar = package_artifacts_as_tar_gz H target_name krate dest libs version dev in
        let (_, zipped, went) = bind-eq-some zip (λ _. tar) s tt h in
        let (names, named, held) = zip-archives libs s zipped in
        let (others, named', held') = tar-archives libs (zip s).1 (sym (ap (λ r. r.0) went) ∙ h) in
        let same = IsNamed-unique H libs others names named' named in
        (
          names,
          named,
          ap (λ r. r.1.archives) went
              ∙ held'
              ∙ ap
                  (λ names.
                    record { path = archive "tar.gz"; ops = tar_ops H names }
                    ∷ without H (archive "tar.gz") (zip s).1.archives)
                  same
              ∙ ap
                  (λ l.
                    record { path = archive "tar.gz"; ops = tar_ops H names }
                    ∷ without H (archive "tar.gz") l)
                  held,
        )
