-- ===== src/Server/Sqlite/Memory.antt =====
-- A database in memory that meets the documented meaning of the statements; the flag tells
-- whether its statements succeed. It shows that the hypotheses can hold, and runs the tests.
use diary.Prelude.{ℕ, suc, ◌<◌, ◌≤◌, ◌≡◌, ◌≢◌, refl, Bool, true, false, not, List, [], ◌∷◌, ◌++◌}
use diary.Prelude.{
  map, arith, Text, take, take-eq_of_le, length, All, keep, if◌then◌else◌, Option, none, some, sym,
  ltb,
}
use diary.Server.Sqlite.{
  User, Row, Statement, Rc, row, done, failed, Outcome, Sqlite, IsSqlite, Works, writes_users,
  writes_entries, reads_one_row,
}
use diary.Server.Sqlite.{owned, matches, set_payload, has_user, insert_or_ignore, encrypt_pubkey_of}
use diary.Server.Sqlite.{select_user, insert_user}
use diary.Server.Sqlite.{
  select_encrypt_pubkey, insert_entry, select_entries, update_entry, delete_entry,
}

pub record Memory : Type 0 where
  pub users : List User
  pub entries : List Row

abbrev pub fresh : Memory
fresh = record { users = []; entries = [] }

-- One more than every identifier.
unfoldable pub next_id : List Row → ℕ
next_id [] = 1
next_id (r ∷ rs) = let n = next_id rs in if ltb r.id n then n else suc r.id

abbrev answer : Rc → Outcome
answer rc = record { rc = rc; column = []; rows = []; changes = 0; rowid = 0 }

abbrev found_row : Bool → Rc
found_row true = row
found_row false = done

abbrev found_key : Option Text → Outcome
found_key none = answer done
found_key (some e) = record (answer row) { column = e }

run_working : Statement → Memory → Outcome × Memory
run_working (select_user k) m = (answer (found_row (has_user k m.users)), m)
run_working (insert_user k e) m = (
  answer done,
  record m { users = insert_or_ignore (record { auth_pubkey = k; encrypt_pubkey = e }) m.users },
)
run_working (select_encrypt_pubkey k) m = (found_key (encrypt_pubkey_of k m.users), m)
run_working (insert_entry k t d) m = (
  record (answer done) { rowid = next_id m.entries },
  record m {
    entries =
        m.entries
        ++ record { id = next_id m.entries; auth_pubkey = k; timestamp = t; payload = d } ∷ [];
  },
)
run_working (select_entries k) m = (record (answer done) { rows = owned k m.entries }, m)
run_working (update_entry d id k) m = (
  record (answer done) { changes = length (keep (matches id k) m.entries) },
  record m { entries = map (set_payload d id k) m.entries },
)
run_working (delete_entry id k) m = (
  record (answer done) { changes = length (keep (matches id k) m.entries) },
  record m { entries = keep (λ r. not (matches id k r)) m.entries },
)
run_working _ m = (answer done, m)

unfoldable pub run : Bool → Statement → Memory → Outcome × Memory
unfolding run_working next_id
run true s m = run_working s m
run false s m = (answer failed, m)

abbrev pub memory : Bool → Sqlite
memory works = record {
  Db = Memory;
  users = λ m. m.users;
  entries = λ m. m.entries;
  run = run works;
}

users_kept :
    (w : Bool) (s : Statement) (m : Memory) → writes_users s ≡ false → (run w s m).1.users ≡ m.users
unfolding run
users_kept false s m h = refl
users_kept true (insert_user k e) m h = cc
users_kept true _ m h = refl

entries_kept :
    (w : Bool) (s : Statement) (m : Memory)
    → writes_entries s ≡ false
    → (run w s m).1.entries ≡ m.entries
unfolding run
entries_kept false s m h = refl
entries_kept true (insert_entry k t d) m h = cc
entries_kept true (update_entry d id k) m h = cc
entries_kept true (delete_entry id k) m h = cc
entries_kept true _ m h = refl

failed_users :
    (w : Bool) (s : Statement) (m : Memory)
    → (run w s m).0.rc ≢ done
    → (run w s m).1.users ≡ m.users
unfolding run
failed_users false s m h = refl
failed_users true (insert_user k e) m h = absurd (h refl)
failed_users true _ m h = refl

failed_entries :
    (w : Bool) (s : Statement) (m : Memory)
    → (run w s m).0.rc ≢ done
    → (run w s m).1.entries ≡ m.entries
unfolding run
failed_entries false s m h = refl
failed_entries true (insert_entry k t d) m h = absurd (h refl)
failed_entries true (update_entry d id k) m h = absurd (h refl)
failed_entries true (delete_entry id k) m h = absurd (h refl)
failed_entries true _ m h = refl

lt-next_id_mono :
    (rs : List Row) (m n : ℕ) → m ≤ n → All (λ r. r.id < m) rs → All (λ r. r.id < n) rs
lt-next_id_mono [] m n le h = tt
lt-next_id_mono (r ∷ rs) m n le h = (omega arith, lt-next_id_mono rs m n le h.1)

All-lt-next_id : (rs : List Row) → All (λ r. r.id < next_id rs) rs
unfolding next_id
All-lt-next_id [] = tt
All-lt-next_id (r ∷ rs) =
    (ground arith, lt-next_id_mono rs (next_id rs) _ (ground arith) (All-lt-next_id rs))

entries_read :
    (w : Bool) (k : Text) (m : Memory)
    → (n : ℕ) × ((run w (select_entries k) m).0.rows ≡ take n (owned k m.entries))
unfolding run
entries_read false k m = (0, refl)
entries_read true k m =
    (length (owned k m.entries), sym (take-eq_of_le _ (owned k m.entries) (omega arith)))

next_id_positive : (rows : List Row) → 0 < next_id rows
unfolding next_id
next_id_positive [] = omega arith
next_id_positive (r ∷ rs) = ground (arith, next_id_positive rs)

-- The hypotheses can hold, for a database that works and for one whose every statement fails.
pub memory-IsSqlite : (w : Bool) → IsSqlite (memory w)
unfolding run
memory-IsSqlite true = record {
  users_kept = users_kept true;
  entries_kept = entries_kept true;
  failed_users = failed_users true;
  failed_entries = failed_entries true;
  user_found = λ k m h. ground arith;
  user_missing = λ k m h. ground arith;
  user_inserted = λ k e m h. refl;
  pubkey_found = λ k m h. ground arith;
  entries_read = entries_read true;
  all_entries_read = λ k m h. refl;
  entry_inserted = λ k t d m h. refl;
  rowid_positive = λ k t d m h. next_id_positive m.entries;
  rowid_fresh = λ k t d m h. All-lt-next_id m.entries;
  entry_updated = λ d id k m h. refl;
  update_changes = λ d id k m h. refl;
  entry_deleted = λ id k m h. refl;
  delete_changes = λ id k m h. refl;
}
memory-IsSqlite false = record {
  users_kept = users_kept false;
  entries_kept = entries_kept false;
  failed_users = failed_users false;
  failed_entries = failed_entries false;
  user_found = λ k m h. cc;
  user_missing = λ k m h. cc;
  user_inserted = λ k e m h. cc;
  pubkey_found = λ k m h. cc;
  entries_read = entries_read false;
  all_entries_read = λ k m h. cc;
  entry_inserted = λ k t d m h. cc;
  rowid_positive = λ k t d m h. cc;
  rowid_fresh = λ k t d m h. cc;
  entry_updated = λ d id k m h. cc;
  update_changes = λ d id k m h. cc;
  entry_deleted = λ id k m h. cc;
  delete_changes = λ id k m h. cc;
}

steps_done : (s : Statement) (m : Memory) → reads_one_row s ≡ false → (run true s m).0.rc ≡ done
unfolding run
steps_done (select_user k) m h = cc
steps_done (select_encrypt_pubkey k) m h = cc
steps_done _ m h = refl

steps_row : (s : Statement) (m : Memory) → (run true s m).0.rc ≢ failed
unfolding run
steps_row (select_user k) m h = ground arith
steps_row (select_encrypt_pubkey k) m h = ground arith
steps_row _ m h = cc

pub memory-Works : Works (memory true)
memory-Works = record { steps_done = steps_done; steps_row = steps_row }
