-- ===== src/Packaging/Contents.antt =====
-- What the loops over the libraries write to an archive (scripts/package.rs).
use safe_client_libs.Shared.{
  ◌≡◌, refl, sym, ap, ◌∙◌, String, Option, some, List, [], ◌∷◌, ◌++◌, map, All, arith,
}
use mathlib.Core.List.{append_assoc, append-nil}
use safe_client_libs.External.Host.{HostApi, ArchiveOp, start_file, copy_file, append_path}
use safe_client_libs.Packaging.Shell.{Archive, Shell, add, extended, unwrap, bind-eq-some, ◌>>◌}
use safe_client_libs.Packaging.Archives.{zip_each, tar_each}

module _ {FilePath Disk : Type 0} (H : HostApi FilePath Disk) where
  -- The libraries, each with the name of its file.
  abbrev pub IsNamed : List FilePath → List (FilePath × String) → Type 0
  IsNamed libs names =
      (map (λ (n : FilePath × String). n.0) names ≡ libs)
      × All (λ (n : FilePath × String). H.file_name n.0 ≡ some n.1) names

  -- In a zip file, an entry of that name is started, and the library is copied into it.
  abbrev pub zip_ops : List (FilePath × String) → List (ArchiveOp FilePath)
  zip_ops [] = []
  zip_ops ((path, name) ∷ names) = start_file name ∷ copy_file path ∷ zip_ops names

  abbrev pub tar_ops : List (FilePath × String) → List (ArchiveOp FilePath)
  tar_ops names = map (λ (n : FilePath × String). append_path n.0 n.1) names

  abbrev pub holds : Archive FilePath → List (ArchiveOp FilePath) → Archive FilePath
  holds a ops = record { path = a.path; ops = a.ops ++ ops }

  add-archives :
      (op : ArchiveOp FilePath) (s : Shell FilePath Disk)
      → (add H op s).0 ≡ some tt
      → (add H op s).1.archives ≡ extended op s.archives
  add-archives op s h = ground arith

  -- A call on an archive that does not panic is written to it, and the steps behind it go on.
  add-then :
      (op : ArchiveOp FilePath) (k : Shell FilePath Disk → Option (Unit {0}) × Shell FilePath Disk)
      (s : Shell FilePath Disk) (a : Archive FilePath) (rest : List (Archive FilePath))
      → s.archives ≡ a ∷ rest
      → ((add H op >> k) s).0 ≡ some tt
      → ((add H op >> k) s ≡ k (add H op s).1)
        × ((add H op s).1.archives ≡ holds a (op ∷ []) ∷ rest)
  add-then op k s a rest at h =
      let (_, made, went) = bind-eq-some (add H op) (λ _. k) s tt h in
      (went, add-archives op s made ∙ ap (extended op) at)

  pub zip_each-ops :
      (libs : List FilePath) (s : Shell FilePath Disk) (a : Archive FilePath)
      (rest : List (Archive FilePath))
      → s.archives ≡ a ∷ rest
      → (zip_each H libs s).0 ≡ some tt
      → (names : List (FilePath × String)) × IsNamed libs names
        × ((zip_each H libs s).1.archives ≡ holds a (zip_ops names) ∷ rest)
  zip_each-ops [] s a rest at h = (
    [],
    (refl, tt),
    at ∙ ap (λ ops. record { path = a.path; ops = ops } ∷ rest) (sym (append-nil a.ops)),
  )
  zip_each-ops (path ∷ libs) s a rest at h =
      let copy_then = add H (copy_file path) >> zip_each H libs in
      let (name, named, went) =
        bind-eq-some (unwrap (H.file_name path)) (λ name. add H (start_file name) >> copy_then) s tt
          h in
      let (went₁, at₁) =
        add-then (start_file name) copy_then s a rest at (sym (ap (λ r. r.0) went) ∙ h) in
      let s₁ = (add H (start_file name) s).1 in
      let (went₂, at₂) =
        add-then (copy_file path) (zip_each H libs) s₁ _ rest at₁
          (sym (ap (λ r. r.0) (went ∙ went₁)) ∙ h) in
      let whole = went ∙ went₁ ∙ went₂ in
      let (names, (same, each), held) =
        zip_each-ops libs (add H (copy_file path) s₁).1 _ rest at₂
          (sym (ap (λ r. r.0) whole) ∙ h) in
      (
        (path, name) ∷ names,
        (ap (λ l. path ∷ l) same, (named, each)),
        ap (λ r. r.1.archives) whole
            ∙ held
            ∙ ap (λ ops. record { path = a.path; ops = ops } ∷ rest)
                (append_assoc (a.ops ++ (start_file name ∷ [])) (copy_file path ∷ [])
                    (zip_ops names)
                  ∙ append_assoc a.ops (start_file name ∷ []) (copy_file path ∷ zip_ops names)),
      )

  pub tar_each-ops :
      (libs : List FilePath) (s : Shell FilePath Disk) (a : Archive FilePath)
      (rest : List (Archive FilePath))
      → s.archives ≡ a ∷ rest
      → (tar_each H libs s).0 ≡ some tt
      → (names : List (FilePath × String)) × IsNamed libs names
        × ((tar_each H libs s).1.archives ≡ holds a (tar_ops names) ∷ rest)
  tar_each-ops [] s a rest at h = (
    [],
    (refl, tt),
    at ∙ ap (λ ops. record { path = a.path; ops = ops } ∷ rest) (sym (append-nil a.ops)),
  )
  tar_each-ops (path ∷ libs) s a rest at h =
      let (name, named, went) =
        bind-eq-some (unwrap (H.file_name path))
          (λ name. add H (append_path path name) >> tar_each H libs) s tt h in
      let (went₁, at₁) =
        add-then (append_path path name) (tar_each H libs) s a rest at
          (sym (ap (λ r. r.0) went) ∙ h) in
      let whole = went ∙ went₁ in
      let (names, (same, each), held) =
        tar_each-ops libs (add H (append_path path name) s).1 _ rest at₁
          (sym (ap (λ r. r.0) whole) ∙ h) in
      (
        (path, name) ∷ names,
        (ap (λ l. path ∷ l) same, (named, each)),
        ap (λ r. r.1.archives) whole
            ∙ held
            ∙ ap (λ ops. record { path = a.path; ops = ops } ∷ rest)
                (append_assoc a.ops (append_path path name ∷ []) (tar_ops names)),
      )

  -- The names of the files do not depend on the archive.
  names_unique :
      (names others : List (FilePath × String))
      → map (λ (n : FilePath × String). n.0) names ≡ map (λ (n : FilePath × String). n.0) others
      → All (λ (n : FilePath × String). H.file_name n.0 ≡ some n.1) names
      → All (λ (n : FilePath × String). H.file_name n.0 ≡ some n.1) others
      → names ≡ others
  names_unique [] [] h each each' = refl
  names_unique [] (o ∷ others) h each each' = cc
  names_unique (n ∷ names) [] h each each' = cc
  names_unique ((p, n) ∷ names) ((q, o) ∷ others) h (named, each) (named', each') =
      let same_path : p ≡ q = cc in
      let same_paths : map (λ (n : FilePath × String). n.0) names
          ≡ map (λ (n : FilePath × String). n.0) others =
        cc in
      let same_name : n ≡ o = cc in
      let same_rest = names_unique names others same_paths each each' in
      rw (same_path, same_name, same_rest)

  pub IsNamed-unique :
      (libs : List FilePath) (names others : List (FilePath × String))
      → IsNamed libs names
      → IsNamed libs others
      → names ≡ others
  IsNamed-unique libs names others (same, each) (same', each') =
      names_unique names others (same ∙ sym same') each each'
