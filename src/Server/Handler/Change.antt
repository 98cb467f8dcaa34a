-- ===== src/Server/Handler/Change.antt =====
-- UPDATE and DELETE of server/client_handler.c, on the user's own entries.
use diary.Prelude.{ℕ, ◌^◌, ◌<◌, ◌≡◌, refl, ap, Bool, true, false, not, List, [], ◌∷◌, ◌++◌}
use diary.Prelude.{map, arith, Text, codes, drop, length, ltb, keep, ◌==◌, if◌then◌else◌, some}
use diary.Prelude.Int.{pos, eq_ℤ}
use diary.Libc.Str.{strcmp_eq, strncmp_eq, strchr, strchr-append}
use diary.Libc.Decimal.{print_int}
use diary.Libc.Decimal.RoundTrip.{atoi-print_int_pos, Lacks-print_int}
use diary.Server.Sqlite.{
  Row, Sqlite, IsSqlite, Works, owned, matches, set_payload, update_entry, delete_entry,
}
use diary.Server.Storage.{Storage, storage_update_entry, storage_delete_entry}
use diary.Server.Storage.Entries.{rows_of}
use diary.Server.Handler.{Request, handle_update, handle_delete, handle_line, found_reply, space}

-- Whether an entry has the identifier.
unfoldable pub has_id : ℕ → List Row → Bool
has_id id [] = false
has_id id (e ∷ es) = if e.id == id then true else has_id id es

-- The entry with new data if it has the identifier: its timestamp and its place stay.
abbrev pub with_payload : ℕ → Text → Row → Row
with_payload id d e = if e.id == id then record e { payload = d } else e

abbrev pub found_text : Bool → Text
found_text b = if b then codes "OK" else codes "FAIL entry not found"

changes-has_id :
    (id : ℕ) (k : Text) (rs : List Row)
    → ltb 0 (length (keep (matches (pos id) k) rs)) ≡ has_id id (owned k rs)
unfolding has_id owned matches
changes-has_id id k [] = refl
changes-has_id id k (r ∷ rs) = ground (arith, changes-has_id id k rs)

owned-update :
    (id : ℕ) (d k : Text) (rs : List Row)
    → owned k (map (set_payload d (pos id) k) rs) ≡ map (with_payload id d) (owned k rs)
unfolding owned matches
owned-update id d k [] = refl
owned-update id d k (r ∷ rs) = ground (arith, owned-update id d k rs)

owned-delete :
    (id : ℕ) (k : Text) (rs : List Row)
    → owned k (keep (λ r. not (matches (pos id) k r)) rs)
      ≡ keep (λ e. not (e.id == id)) (owned k rs)
unfolding owned matches
owned-delete id k [] = refl
owned-delete id k (r ∷ rs) = ground (arith, owned-delete id k rs)

first_space :
    (id : ℕ) (d : Text)
    → strchr (print_int (pos id) ++ (space ∷ d)) space ≡ some (print_int (pos id), d)
first_space id d =
    strchr-append (print_int (pos id)) d space (Lacks-print_int space (pos id) (omega arith))

module _ (sq : Sqlite) (laws : IsSqlite sq) (works : Works sq) (user : Text) (id : ℕ) where
  update_lem :
      (d : Text) (st : Storage sq)
      → (found_text (eq_ℤ (storage_update_entry sq user (pos id) d st).0 (pos 0))
          ≡ found_text (has_id id (rows_of sq user st)))
        × (rows_of sq user (storage_update_entry sq user (pos id) d st).1
            ≡ map (with_payload id d) (rows_of sq user st))
  unfolding storage_update_entry rows_of
  update_lem d st =
      let ok = works.steps_done (update_entry d (pos id) user) st.file refl in
      (
        rw
            (
              ok,
              laws.update_changes d (pos id) user st.file ok,
              changes-has_id id user (sq.entries st.file),
            )
            (ground arith),
        rw (laws.entry_updated d (pos id) user st.file ok)
            (owned-update id d user (sq.entries st.file)),
      )

  delete_lem :
      (st : Storage sq)
      → (found_text (eq_ℤ (storage_delete_entry sq user (pos id) st).0 (pos 0))
          ≡ found_text (has_id id (rows_of sq user st)))
        × (rows_of sq user (storage_delete_entry sq user (pos id) st).1
            ≡ keep (λ e. not (e.id == id)) (rows_of sq user st))
  unfolding storage_delete_entry rows_of
  delete_lem st =
      let ok = works.steps_done (delete_entry (pos id) user) st.file refl in
      (
        rw
            (
              ok,
              laws.delete_changes (pos id) user st.file ok,
              changes-has_id id user (sq.entries st.file),
            )
            (ground arith),
        rw (laws.entry_deleted (pos id) user st.file ok)
            (owned-delete id user (sq.entries st.file)),
      )

  pub dispatch_update :
      (d : Text) (r : Request) (st : Storage sq)
      → id < 2 ^ 31
      → r.line ≡ codes "UPDATE " ++ (print_int (pos id) ++ (space ∷ d))
      → handle_line sq user r st ≡ found_reply sq (storage_update_entry sq user (pos id) d st)
  unfolding handle_update found_reply
  dispatch_update d r st small line =
      let at : handle_line sq user r st ≡ handle_update sq user r st =
        unfold handle_line strcmp_eq strncmp_eq in simp line in
      let fields : strchr (drop 7 r.line) space ≡ some (print_int (pos id), d) =
        simp line (first_space id d) in
      rw (at, fields, handle_update, atoi-print_int_pos id small)

  -- With a database that works, a line "UPDATE <id> <data>" whose identifier fits an `int` gives
  -- the user's entry of that identifier the data, leaves its timestamp, its place and the user's
  -- other entries, and answers OK exactly if the user has the entry.
  pub handle_line_update :
      (d : Text) (r : Request) (st : Storage sq)
      → id < 2 ^ 31
      → r.line ≡ codes "UPDATE " ++ (print_int (pos id) ++ (space ∷ d))
      → ((handle_line sq user r st).sent ≡ found_text (has_id id (rows_of sq user st)) ∷ [])
        × (rows_of sq user (handle_line sq user r st).storage
            ≡ map (with_payload id d) (rows_of sq user st))
  handle_line_update d r st small line =
      let at = dispatch_update d r st small line in
      (
        rw at (unfold found_reply in ap (λ (t : Text). t ∷ []) (update_lem d st).0),
        rw at (unfold found_reply in (update_lem d st).1),
      )

  pub dispatch_delete :
      (r : Request) (st : Storage sq)
      → id < 2 ^ 31
      → r.line ≡ codes "DELETE " ++ print_int (pos id)
      → handle_line sq user r st ≡ found_reply sq (storage_delete_entry sq user (pos id) st)
  dispatch_delete r st small line =
      unfold handle_line handle_delete strcmp_eq strncmp_eq in
      simp (line, atoi-print_int_pos id small)

  -- With a database that works, a line "DELETE <id>" whose identifier fits an `int` removes the
  -- user's entry of that identifier, leaves the user's other entries, and answers OK exactly if
  -- the user had the entry.
  pub handle_line_delete :
      (r : Request) (st : Storage sq)
      → id < 2 ^ 31
      → r.line ≡ codes "DELETE " ++ print_int (pos id)
      → ((handle_line sq user r st).sent ≡ found_text (has_id id (rows_of sq user st)) ∷ [])
        × (rows_of sq user (handle_line sq user r st).storage
            ≡ keep (λ e. not (e.id == id)) (rows_of sq user st))
  handle_line_delete r st small line =
      let at = dispatch_delete r st small line in
      (
        rw at (unfold found_reply in ap (λ (t : Text). t ∷ []) (delete_lem st).0),
        rw at (unfold found_reply in (delete_lem st).1),
      )
