-- ===== src/Packaging/Shell.antt =====
-- What a run of the packaging tool changes, and how its steps follow each other: a step gives a
-- value, or it panics, and what was done before a panic stays done (scripts/package.rs).
use safe_client_libs.Shared.{
  ◌≡◌, refl, Bool, Option, none, some, List, [], ◌∷◌, ◌++◌, if◌then◌else◌,
}
use safe_client_libs.External.Host.{HostApi, ArchiveOp}

-- An archive by its path, and what was done to it.
pub record Archive (FilePath : Type 0) : Type 0 where
  pub path : FilePath
  pub ops : List (ArchiveOp FilePath)

-- The archives on the disk that runs have created, the newest one first.
pub record Shell (FilePath Disk : Type 0) : Type 0 where
  pub disk : Disk
  pub archives : List (Archive FilePath)

abbrev pub Run : Type 0 → Type 0 → Type 0
Run S A = S → Option A × S

module _ {S A : Type 0} where
  abbrev pub pure : A → S → Option A × S
  pure a s = (some a, s)

  abbrev pub panics : S → Option A × S
  panics s = (none, s)

  -- `unwrap` and `expect`
  abbrev pub unwrap : Option A → S → Option A × S
  unwrap o s = (o, s)

  abbrev pub gets : (S → A) → S → Option A × S
  gets f s = (some (f s), s)

module _ {S A B : Type 0} where
  abbrev pub continue : Option A → (A → S → Option B × S) → S → Option B × S
  continue (some a) f s = f a s
  continue none f s = (none, s)

  infixl 5 ◌>>=◌ ◌>>◌
  abbrev pub ◌>>=◌ : (S → Option A × S) → (A → S → Option B × S) → S → Option B × S
  ◌>>=◌ m f s = continue (m s).0 f (m s).1

  abbrev pub ◌>>◌ : (S → Option A × S) → (S → Option B × S) → S → Option B × S
  m >> k = m >>= λ _. k

-- `if condition { step }`
abbrev pub when : {S : Type 0} → Bool → (S → Option (Unit {0}) × S) → S → Option (Unit {0}) × S
when Bool.true m s = m s
when Bool.false m s = (some tt, s)

module _ {FilePath : Type 0} where
  abbrev pub extended : ArchiveOp FilePath → List (Archive FilePath) → List (Archive FilePath)
  extended op [] = []
  extended op (a ∷ rest) = record { path = a.path; ops = a.ops ++ (op ∷ []) } ∷ rest

module _ {FilePath Disk : Type 0} where
  abbrev pub on_disk :
      {A : Type 0} → (Disk → Option A × Disk) → Shell FilePath Disk → Option A × Shell FilePath Disk
  on_disk f s = let (a, disk) = f s.disk in (a, record s { disk = disk })

  abbrev pub look : {A : Type 0} → (Disk → A) → Shell FilePath Disk → Option A × Shell FilePath Disk
  look f s = (some (f s.disk), s)

  abbrev pub written :
      ArchiveOp FilePath
      → Option Disk
      → Shell FilePath Disk
      → Option (Unit {0}) × Shell FilePath Disk
  written op none s = (none, s)
  written op (some disk) s = (some tt, record { disk = disk; archives = extended op s.archives })

module _ {FilePath Disk : Type 0} (H : HostApi FilePath Disk) where
  -- The archives that are left when the file at this path is truncated.
  abbrev pub without : FilePath → List (Archive FilePath) → List (Archive FilePath)
  without path [] = []
  without path (a ∷ rest) =
      let others = without path rest in if H.same_path path a.path then others else a ∷ others

  abbrev pub after_create :
      FilePath → Option Disk → Shell FilePath Disk → Option (Unit {0}) × Shell FilePath Disk
  after_create path none s = (none, s)
  after_create path (some disk) s = (
    some tt,
    record { disk = disk; archives = record { path = path; ops = [] } ∷ without path s.archives },
  )

  -- `File::create(path).unwrap()`, and an archive that is written to it: an archive that was there
  -- is lost.
  abbrev pub create_archive :
      FilePath → Shell FilePath Disk → Option (Unit {0}) × Shell FilePath Disk
  create_archive path s = after_create path (H.create_file path s.disk) s

  -- A call on the archive that was created last, unwrapped.
  abbrev pub add :
      ArchiveOp FilePath → Shell FilePath Disk → Option (Unit {0}) × Shell FilePath Disk
  add op s = written op (H.write_archive op s.disk) s

module _ {S A B : Type 0} where
  continue-eq-some :
      (o : Option A) (f : A → S → Option B × S) (s : S) (b : B)
      → (continue o f s).0 ≡ some b
      → (a : A) × (o ≡ some a) × (continue o f s ≡ f a s)
  continue-eq-some (some a) f s b h = (a, refl, refl)
  continue-eq-some none f s b h = cc

  -- A step that gives a value has been given one by its first part, and goes on with it.
  pub bind-eq-some :
      (m : S → Option A × S) (f : A → S → Option B × S) (s : S) (b : B)
      → ((m >>= f) s).0 ≡ some b
      → (a : A) × ((m s).0 ≡ some a) × ((m >>= f) s ≡ f a (m s).1)
  bind-eq-some m f s b h = continue-eq-some (m s).0 f (m s).1 b h
