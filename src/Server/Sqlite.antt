-- ===== src/Server/Sqlite.antt =====
-- SQLite as server/storage.c uses it. The library is a parameter: a database with the contents of
-- the two tables of the schema, and what running one of the program's statements answers and
-- leaves. `IsSqlite` names the documented meaning of each statement; any of them may fail.
pub mod Memory
use diary.Prelude.{
  ℕ, suc, ◌+◌, ◌<◌, ◌≡◌, ◌≢◌, Bool, true, false, not, ◌&&◌, List, [], ◌∷◌, ◌++◌, map,
}
use diary.Prelude.{Option, none, some, Text, take, length, All, keep, if◌then◌else◌}
use diary.Prelude.Int.{ℤ, pos, eq_ℤ}
use diary.Libc.Str.{strcmp_eq}

-- A row of the table `users`.
pub record User : Type 0 where
  pub auth_pubkey : Text
  pub encrypt_pubkey : Text

-- A row of the table `entries`; `payload` is the column `data`.
pub record Row : Type 0 where
  pub id : ℕ
  pub auth_pubkey : Text
  pub timestamp : ℤ
  pub payload : Text

-- The statements of storage.c with their bound values.
pub data Statement : Type 0 where
  open_file : Text → Statement
  pragma : Text → Statement
  busy_timeout : ℕ → Statement
  create_schema : Statement
  select_user : Text → Statement
  insert_user : Text → Text → Statement
  select_encrypt_pubkey : Text → Statement
  insert_entry : Text → ℤ → Text → Statement
  select_entries : Text → Statement
  update_entry : Text → ℤ → Text → Statement
  delete_entry : ℤ → Text → Statement

-- SQLITE_ROW, SQLITE_OK or SQLITE_DONE, and every error code.
pub data Rc : Type 0 where
  row done failed : Rc

-- What a statement answers: the code of its step (of the step that ended the loop, for the select
-- of entries), the column and the rows read, sqlite3_changes and sqlite3_last_insert_rowid.
pub record Outcome : Type 0 where
  pub rc : Rc
  pub column : Text
  pub rows : List Row
  pub changes : ℕ
  pub rowid : ℕ

pub record Sqlite : Type 1 where
  pub Db : Type 0
  pub users : Db → List User
  pub entries : Db → List Row
  pub run : Statement → Db → Outcome × Db

-- WHERE auth_pubkey=?
unfoldable pub owned : Text → List Row → List Row
owned k = keep (λ r. strcmp_eq r.auth_pubkey k)

-- WHERE id=? AND auth_pubkey=?
unfoldable pub matches : ℤ → Text → Row → Bool
matches id k r = eq_ℤ (pos r.id) id && strcmp_eq r.auth_pubkey k

-- SET data=?
abbrev pub set_payload : Text → ℤ → Text → Row → Row
set_payload d id k r = if matches id k r then record r { payload = d } else r

unfoldable pub has_user : Text → List User → Bool
has_user k [] = false
has_user k (u ∷ us) = if strcmp_eq u.auth_pubkey k then true else has_user k us

-- INSERT OR IGNORE, by the primary key.
unfoldable pub insert_or_ignore : User → List User → List User
insert_or_ignore u us = if has_user u.auth_pubkey us then us else us ++ u ∷ []

unfoldable pub encrypt_pubkey_of : Text → List User → Option Text
encrypt_pubkey_of k [] = none
encrypt_pubkey_of k (u ∷ us) =
    let rest = encrypt_pubkey_of k us in
    if strcmp_eq u.auth_pubkey k then some u.encrypt_pubkey else rest

abbrev pub writes_users : Statement → Bool
writes_users (insert_user k e) = true
writes_users _ = false

abbrev pub writes_entries : Statement → Bool
writes_entries (insert_entry k t d) = true
writes_entries (update_entry d id k) = true
writes_entries (delete_entry id k) = true
writes_entries _ = false

-- The selects of which a caller takes the first row.
abbrev pub reads_one_row : Statement → Bool
reads_one_row (select_user k) = true
reads_one_row (select_encrypt_pubkey k) = true
reads_one_row _ = false

-- The documented meaning of the statements.
pub record IsSqlite (sq : Sqlite) : Type 0 where
  pub users_kept :
      (s : Statement) (db : sq.Db) → writes_users s ≡ false → sq.users (sq.run s db).1 ≡ sq.users db
  pub entries_kept :
      (s : Statement) (db : sq.Db)
      → writes_entries s ≡ false
      → sq.entries (sq.run s db).1 ≡ sq.entries db
  -- A write that fails leaves the tables as they were.
  pub failed_users :
      (s : Statement) (db : sq.Db)
      → (sq.run s db).0.rc ≢ done
      → sq.users (sq.run s db).1 ≡ sq.users db
  pub failed_entries :
      (s : Statement) (db : sq.Db)
      → (sq.run s db).0.rc ≢ done
      → sq.entries (sq.run s db).1 ≡ sq.entries db
  pub user_found :
      (k : Text) (db : sq.Db)
      → (sq.run (select_user k) db).0.rc ≡ row
      → has_user k (sq.users db) ≡ true
  pub user_missing :
      (k : Text) (db : sq.Db)
      → (sq.run (select_user k) db).0.rc ≡ done
      → has_user k (sq.users db) ≡ false
  pub user_inserted :
      (k e : Text) (db : sq.Db)
      → (sq.run (insert_user k e) db).0.rc ≡ done
      → sq.users (sq.run (insert_user k e) db).1
        ≡ insert_or_ignore (record { auth_pubkey = k; encrypt_pubkey = e }) (sq.users db)
  pub pubkey_found :
      (k : Text) (db : sq.Db)
      → (sq.run (select_encrypt_pubkey k) db).0.rc ≡ row
      → encrypt_pubkey_of k (sq.users db) ≡ some (sq.run (select_encrypt_pubkey k) db).0.column
  -- The rows read before an error are the first ones.
  pub entries_read :
      (k : Text) (db : sq.Db)
      → (n : ℕ) × ((sq.run (select_entries k) db).0.rows ≡ take n (owned k (sq.entries db)))
  pub all_entries_read :
      (k : Text) (db : sq.Db)
      → (sq.run (select_entries k) db).0.rc ≡ done
      → (sq.run (select_entries k) db).0.rows ≡ owned k (sq.entries db)
  pub entry_inserted :
      (k : Text) (t : ℤ) (d : Text) (db : sq.Db)
      → (sq.run (insert_entry k t d) db).0.rc ≡ done
      → sq.entries (sq.run (insert_entry k t d) db).1
        ≡ sq.entries db
          ++ record {
            id = (sq.run (insert_entry k t d) db).0.rowid;
            auth_pubkey = k;
            timestamp = t;
            payload = d;
          }
            ∷ []
  -- AUTOINCREMENT: from 1, and above every identifier in use.
  pub rowid_positive :
      (k : Text) (t : ℤ) (d : Text) (db : sq.Db)
      → (sq.run (insert_entry k t d) db).0.rc ≡ done
      → 0 < (sq.run (insert_entry k t d) db).0.rowid
  pub rowid_fresh :
      (k : Text) (t : ℤ) (d : Text) (db : sq.Db)
      → (sq.run (insert_entry k t d) db).0.rc ≡ done
      → All (λ r. r.id < (sq.run (insert_entry k t d) db).0.rowid) (sq.entries db)
  pub entry_updated :
      (d : Text) (id : ℤ) (k : Text) (db : sq.Db)
      → (sq.run (update_entry d id k) db).0.rc ≡ done
      → sq.entries (sq.run (update_entry d id k) db).1 ≡ map (set_payload d id k) (sq.entries db)
  pub update_changes :
      (d : Text) (id : ℤ) (k : Text) (db : sq.Db)
      → (sq.run (update_entry d id k) db).0.rc ≡ done
      → (sq.run (update_entry d id k) db).0.changes ≡ length (keep (matches id k) (sq.entries db))
  pub entry_deleted :
      (id : ℤ) (k : Text) (db : sq.Db)
      → (sq.run (delete_entry id k) db).0.rc ≡ done
      → sq.entries (sq.run (delete_entry id k) db).1
        ≡ keep (λ r. not (matches id k r)) (sq.entries db)
  pub delete_changes :
      (id : ℤ) (k : Text) (db : sq.Db)
      → (sq.run (delete_entry id k) db).0.rc ≡ done
      → (sq.run (delete_entry id k) db).0.changes ≡ length (keep (matches id k) (sq.entries db))

-- No statement fails: the disk has room, no lock outlasts the timeout, the file is a database.
pub record Works (sq : Sqlite) : Type 0 where
  pub steps_done :
      (s : Statement) (db : sq.Db) → reads_one_row s ≡ false → (sq.run s db).0.rc ≡ done
  pub steps_row : (s : Statement) (db : sq.Db) → (sq.run s db).0.rc ≢ failed
