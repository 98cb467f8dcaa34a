-- ===== src/Server/Directories.antt =====
-- The directories of the database in server/main.c: `mkdirs` and `ensure_db_dir`. The file system is a
-- parameter.
use mathlib.Core.List.{reverse}
use diary.Prelude.{ℕ, ◌≡◌, ◌≢◌, ◌⊎◌, inl, inr, Bool, Bool-cases, true, false, [], ◌∷◌, ◌++◌}
use diary.Prelude.{arith, Text, codes, ◌==◌, if◌then◌else◌}
use diary.Prelude.Int.{ℤ, pos, neg, eq_ℤ}
use diary.Libc.Str.{strcmp_eq, strcmp_eq_iff, snprintf}

-- The result of mkdir: 0, errno EEXIST, or another error.
pub data Made : Type 0 where
  made eexist error : Made

-- What stat and access find of a path.
pub data Found : Type 0 where
  missing not_directory not_writable writable : Found

pub record FileSystem : Type 1 where
  pub Disk : Type 0
  pub mkdir : Text → Disk → Made × Disk
  pub look : Text → Disk → Found

abbrev pub slash : ℕ
slash = 47

-- PATH_MAX
abbrev pub path_max : ℕ
path_max = 4096

abbrev pub fails : Made → Bool
fails error = true
fails _ = false

-- Without a slash at its end.
unfoldable pub trim_slash : Text → Text
trim_slash [] = []
trim_slash (c ∷ []) = if c == slash then [] else c ∷ []
trim_slash (c ∷ d ∷ s) = c ∷ trim_slash (d ∷ s)

-- dirname of <libgen.h>, on the bytes of the path from the last to the first.
skip_slashes : Text → Text
skip_slashes [] = []
skip_slashes (c ∷ s) = if c == slash then skip_slashes s else c ∷ s

skip_name : Text → Text
skip_name [] = []
skip_name (c ∷ s) = let rest = skip_name s in if c == slash then c ∷ s else rest

unfoldable pub dirname : Text → Text
unfolding skip_slashes skip_name
dirname path = elim (skip_slashes (reverse path)) [
  | [] ↦ elim path [ [] ↦ codes "." | c ∷ s ↦ codes "/" ]
  | c ∷ name ↦ elim (skip_name (c ∷ name)) [
    | [] ↦ codes "."
    | d ∷ rest ↦ elim (skip_slashes (d ∷ rest)) [ [] ↦ codes "/" | e ∷ dir ↦ reverse (e ∷ dir) ]
  ]
]

module _ (fs : FileSystem) where
  -- The loop of mkdirs, with the bytes before the index and those from it on.
  unfoldable pub make_each : Text → Text → fs.Disk → ℤ × fs.Disk
  make_each seen [] disk =
      let (r, disk1) = fs.mkdir seen disk in (if fails r then neg 1 else pos 0, disk1)
  make_each seen (c ∷ rest) disk =
      let (r, disk1) = fs.mkdir seen disk in
      let made_on = make_each (seen ++ c ∷ []) rest disk1 in
      let on = make_each (seen ++ c ∷ []) rest disk in
      if c == slash then if fails r then (neg 1, disk1) else made_on else on

  -- The loop on the whole path, from the index 1 on.
  make_path : Text → fs.Disk → ℤ × fs.Disk
  make_path [] disk = (pos 0, disk)
  make_path (c ∷ rest) disk = make_each (c ∷ []) rest disk

  unfoldable pub mkdirs : Text → fs.Disk → ℤ × fs.Disk
  unfolding make_path
  mkdirs path disk = make_path (trim_slash (snprintf path_max path)) disk

  unfoldable pub ensure_db_dir : Text → fs.Disk → ℤ × fs.Disk
  ensure_db_dir db_path disk =
      let dir = dirname (snprintf path_max db_path) in
      let (rc, disk1) = mkdirs dir disk in
      if strcmp_eq dir (codes ".") then (pos 0, disk) else elim (fs.look dir disk) [
        | missing ↦ (if eq_ℤ rc (pos 0) then pos 0 else neg 1, disk1)
        | not_directory ↦ (neg 1, disk)
        | not_writable ↦ (neg 1, disk)
        | writable ↦ (pos 0, disk)
      ]

  -- The documented effect of mkdir: afterwards the path is there unless it failed otherwise, and
  -- what was there stays.
  pub record IsFileSystem (There : Text → fs.Disk → Type 0) : Type 0 where
    pub mkdir_there :
        (p : Text) (disk : fs.Disk) → (fs.mkdir p disk).0 ≢ error → There p (fs.mkdir p disk).1
    pub mkdir_stays : (p q : Text) (disk : fs.Disk) → There q disk → There q (fs.mkdir p disk).1

  module _ (There : Text → fs.Disk → Type 0) (laws : IsFileSystem There) where
    succeeds : (r : Made) → fails r ≡ false → r ≢ error
    succeeds made h = cc
    succeeds eexist h = cc
    succeeds error h = cc

    make_each_stays :
        (seen rest q : Text) (disk : fs.Disk) → There q disk → There q (make_each seen rest disk).1
    unfolding make_each
    make_each_stays seen [] q disk h = laws.mkdir_stays seen q disk h
    make_each_stays seen (c ∷ rest) q disk h = ground (
      arith,
      laws.mkdir_stays seen q disk h,
      make_each_stays (seen ++ c ∷ []) rest q (fs.mkdir seen disk).1,
      make_each_stays (seen ++ c ∷ []) rest q disk h,
    )

    -- Every part of the path that ends before a slash is there, and the whole path, where `seen` are
    -- the bytes of the path up to `rest`.
    abbrev pub EachThere : Text → Text → fs.Disk → Type 0
    EachThere seen [] disk = There seen disk
    EachThere seen (c ∷ rest) disk =
        ((c == slash) ≡ true → There seen disk) × EachThere (seen ++ c ∷ []) rest disk

    EachThere-make_each :
        (seen rest : Text) (disk : fs.Disk)
        → (make_each seen rest disk).0 ≡ pos 0
        → EachThere seen rest (make_each seen rest disk).1
    unfolding make_each
    EachThere-make_each seen [] disk ok =
        laws.mkdir_there seen disk (succeeds (fs.mkdir seen disk).0 (ground arith))
    EachThere-make_each seen (c ∷ rest) disk ok = elim (Bool-cases (c == slash)) [
      | inl e ↦ elim (Bool-cases (fails (fs.mkdir seen disk).0)) [
        | inl bad ↦ absurd (ground arith)
        | inr good ↦
            let disk1 = (fs.mkdir seen disk).1 in
            let here = laws.mkdir_there seen disk (succeeds (fs.mkdir seen disk).0 good) in
            rw (e, good)
              (
                (λ _. make_each_stays (seen ++ c ∷ []) rest seen disk1 here),
                EachThere-make_each (seen ++ c ∷ []) rest disk1 (ground arith),
              )
      ]
      | inr e ↦ rw e (
        (λ h. absurd (ground arith)),
        EachThere-make_each (seen ++ c ∷ []) rest disk (ground arith),
      )
    ]

    abbrev pub PathThere : Text → fs.Disk → Type 0
    PathThere [] disk = Unit {0}
    PathThere (c ∷ rest) disk = EachThere (c ∷ []) rest disk

    PathThere-make_path :
        (tmp : Text) (disk : fs.Disk)
        → (make_path tmp disk).0 ≡ pos 0
        → PathThere tmp (make_path tmp disk).1
    unfolding make_path
    PathThere-make_path [] disk ok = tt
    PathThere-make_path (c ∷ rest) disk ok = EachThere-make_each (c ∷ []) rest disk ok

    -- The path whose parts `mkdirs` makes: cut at PATH_MAX - 1 bytes, without a slash at its end.
    abbrev pub AllThere : Text → fs.Disk → Type 0
    AllThere path disk = PathThere (trim_slash (snprintf path_max path)) disk

    -- When `mkdirs` succeeds, every part of the path up to a slash is there, and the path
    -- itself, cut at PATH_MAX - 1 bytes and without a slash at its end, if mkdir makes a path or
    -- finds it there and removes none.
    pub mkdirs_lem :
        (path : Text) (disk : fs.Disk)
        → (mkdirs path disk).0 ≡ pos 0
        → AllThere path (mkdirs path disk).1
    unfolding mkdirs
    mkdirs_lem path disk ok = PathThere-make_path (trim_slash (snprintf path_max path)) disk ok

    -- When `ensure_db_dir` succeeds, the database is in the current directory, or its directory
    -- was there and writable, or all parts of its path are there, if mkdir makes a path or finds
    -- it there and removes none.
    pub ensure_db_dir_lem :
        (db_path : Text) (disk : fs.Disk)
        → (ensure_db_dir db_path disk).0 ≡ pos 0
        → (dirname (snprintf path_max db_path) ≡ codes ".")
          ⊎ ((fs.look (dirname (snprintf path_max db_path)) disk ≡ writable)
              ⊎ AllThere (dirname (snprintf path_max db_path)) (ensure_db_dir db_path disk).1)
    unfolding ensure_db_dir
    ensure_db_dir_lem db_path disk ok =
        let dir = dirname (snprintf path_max db_path) in
        ground (arith, mkdirs_lem dir disk, strcmp_eq_iff dir (codes "."))
