-- ===== src/Server/Storage.antt =====
-- server/storage.c: the storage of users and entries, over a database that SQLite runs.
pub mod Entries
use diary.Prelude.{ℕ, ◌<◌, Bool, true, false, ◌&&◌, List, [], ◌∷◌, Option, none, some}
use diary.Prelude.{Text, codes, ltb, if◌then◌else◌}
use diary.Prelude.Int.{ℤ, pos, neg, to_int}
use diary.Server.Sqlite.{Row, Rc, row, done, failed, Outcome, Sqlite, Statement}
use diary.Server.Sqlite.{open_file, pragma, busy_timeout, create_schema, select_user, insert_user}
use diary.Server.Sqlite.{
  select_encrypt_pubkey, insert_entry, select_entries, update_entry, delete_entry,
}

abbrev pub is_done : Rc → Bool
is_done done = true
is_done _ = false

abbrev pub is_row : Rc → Bool
is_row row = true
is_row _ = false

-- What a callback of `storage_get_entries` does with a row: id, timestamp and data.
abbrev pub EntryCb : Type 0 → Type 0
EntryCb A = ℤ → ℤ → Text → A → A

-- The rows of the select, as `sqlite3_column_int` and `sqlite3_column_int64` read them.
unfoldable pub each_row : {A : Type 0} → EntryCb A → List Row → A → A
each_row cb [] userdata = userdata
each_row cb (r ∷ rs) userdata =
    each_row cb rs (cb (to_int (pos r.id)) r.timestamp r.payload userdata)

module _ (sq : Sqlite) where
  -- The file, and whether the module-level handle `db` is open on it.
  pub record Storage : Type 0 where
    pub file : sq.Db
    pub handle : Bool

  -- One statement: prepare, bind, step, finalize.
  unfoldable pub statement : Statement → Storage → Outcome × Storage
  statement s st = let (o, file) = sq.run s st.file in (o, record st { file = file })

  -- `sqlite3_open` leaves a handle also when it fails.
  unfoldable pub storage_init : Text → Storage → ℤ × Storage
  unfolding statement
  storage_init db_path st =
      let (opened, st1) = statement (open_file db_path) (record st { handle = true }) in
      let (_, st2) = statement (pragma (codes "PRAGMA journal_mode=WAL;")) st1 in
      let (_, st3) = statement (busy_timeout 5000) st2 in
      let (_, st4) = statement (pragma (codes "PRAGMA foreign_keys=ON;")) st3 in
      let (schema, st5) = statement create_schema st4 in
      if is_done opened.rc
      then if is_done schema.rc then (pos 0, st5) else (neg 1, st5)
      else (neg 1, st1)

  unfoldable pub storage_close : Storage → Storage
  storage_close st = if st.handle then record st { handle = false } else st

  unfoldable pub storage_user_exists : Text → Storage → Bool × Storage
  unfolding statement
  storage_user_exists key st = let (o, st1) = statement (select_user key) st in (is_row o.rc, st1)

  unfoldable pub storage_register_user : Text → Text → Storage → ℤ × Storage
  unfolding statement
  storage_register_user key encrypt_pubkey st =
      let (o, st1) = statement (insert_user key encrypt_pubkey) st in
      (if is_done o.rc then pos 0 else neg 1, st1)

  unfoldable pub storage_get_encrypt_pubkey : Text → Storage → Option Text × Storage
  unfolding statement
  storage_get_encrypt_pubkey key st =
      let (o, st1) = statement (select_encrypt_pubkey key) st in
      (if is_row o.rc then some o.column else none, st1)

  unfoldable pub storage_add_entry : Text → Text → ℤ → Storage → ℤ × Storage
  unfolding statement
  storage_add_entry key encrypted timestamp st =
      let (o, st1) = statement (insert_entry key timestamp encrypted) st in
      (if is_done o.rc then to_int (pos o.rowid) else neg 1, st1)

  unfoldable pub storage_get_entries : {A : Type 0} → Text → EntryCb A → A → Storage → A × Storage
  unfolding statement each_row
  storage_get_entries key cb userdata st =
      let (o, st1) = statement (select_entries key) st in (each_row cb o.rows userdata, st1)

  unfoldable pub storage_update_entry : Text → ℤ → Text → Storage → ℤ × Storage
  unfolding statement
  storage_update_entry key id encrypted st =
      let (o, st1) = statement (update_entry encrypted id key) st in
      (if is_done o.rc && ltb 0 o.changes then pos 0 else neg 1, st1)

  unfoldable pub storage_delete_entry : Text → ℤ → Storage → ℤ × Storage
  unfolding statement
  storage_delete_entry key id st =
      let (o, st1) = statement (delete_entry id key) st in
      (if is_done o.rc && ltb 0 o.changes then pos 0 else neg 1, st1)
