-- ===== src/Tests/Directories.antt =====
-- The directories of the database at concrete inputs, on a file system that lists its paths.
use diary.Prelude.{arith, ◌≡◌, refl, Bool, true, false, List, [], ◌∷◌, Text, codes, if◌then◌else◌}
use diary.Prelude.Int.{pos}
use diary.Libc.Str.{strcmp_eq, strcmp_eq_self, snprintf}
use diary.Server.Directories.{
  FileSystem, made, missing, writable, trim_slash, dirname, make_each, mkdirs, IsFileSystem,
}

holds : Text → List Text → Bool
holds p [] = false
holds p (q ∷ disk) = if strcmp_eq q p then true else holds p disk

abbrev listed : FileSystem
listed = record {
  Disk = List Text;
  mkdir = λ p disk. (made, p ∷ disk);
  look = λ p disk. if holds p disk then writable else missing;
}

abbrev There : Text → List Text → Type 0
There p disk = holds p disk ≡ true

listed-IsFileSystem : IsFileSystem listed There
unfolding holds
listed-IsFileSystem = record {
  mkdir_there = λ p disk h. rw (strcmp_eq_self p);
  mkdir_stays = λ p q disk h. ground arith;
}

dirname_runs :
    (dirname (codes "/var//db/") ≡ codes "/var")
    × (dirname (codes "x.db") ≡ codes ".")
    × (dirname (codes "/x") ≡ codes "/")
unfolding dirname
dirname_runs = (refl, refl, refl)

mkdirs_runs : mkdirs listed (codes "/var/db/") [] ≡ (pos 0, codes "/var/db" ∷ codes "/var" ∷ [])
unfolding mkdirs make_each trim_slash snprintf
mkdirs_runs = refl

ok : (mkdirs listed (codes "/var/db/") []).0 ≡ pos 0
unfolding mkdirs make_each trim_slash snprintf
ok = refl
