-- ===== src/Client/Ui/Backup.antt =====
-- The temporary backup files of client/ui.c. The directory is a function from names to contents;
-- whether a file can be opened for writing, and how many bytes `fwrite` then writes, are arguments.
use diary.Prelude.{ℕ, ◌≡◌, Bool, true, ◌++◌, Text, take, codes, Option, none, some, if◌then◌else◌}
use diary.Prelude.Int.{ℤ, is_positive}
use diary.Libc.Str.{strcmp_eq, strcmp_eq_self, snprintf}
use diary.Libc.Decimal.{print_int}

abbrev pub Files : Type 0
Files = Text → Option Text

unfoldable pub backup_path : ℤ → Text
backup_path entry_id =
    if is_positive entry_id
    then snprintf 64 (codes "diary_" ++ (print_int entry_id ++ codes ".tmp"))
    else snprintf 64 (codes "diary_new.tmp")

-- Opening empties the file; on a full disk fewer bytes are written than asked for.
unfoldable pub backup_write : ℤ → Text → Bool → ℕ → Files → Files
backup_write entry_id buf opens written files name =
    if opens
    then (if strcmp_eq name (backup_path entry_id) then some (take written buf) else files name)
    else files name

unfoldable pub backup_remove : ℤ → Files → Files
backup_remove entry_id files name =
    if strcmp_eq name (backup_path entry_id) then none else files name

pub backup_write_lem :
    (entry_id : ℤ) (buf : Text) (written : ℕ) (files : Files)
    → backup_write entry_id buf true written files (backup_path entry_id) ≡ some (take written buf)
unfolding backup_write
backup_write_lem entry_id buf written files = rw (strcmp_eq_self (backup_path entry_id))
