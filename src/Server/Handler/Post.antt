-- ===== src/Server/Handler/Post.antt =====
-- POST of server/client_handler.c: which timestamp and which data are stored, and the reply.
use diary.Prelude.{ℕ, ◌^◌, ◌<◌, ◌≡◌, ◌≢◌, refl, ap, ◌∙◌, [], ◌∷◌, ◌++◌}
use diary.Prelude.{arith, Text, codes, drop, All, All-keep, if◌then◌else◌}
use diary.Prelude.Int.{ℤ, pos, IsLong, is_positive, to_int-eq_of_IsInt}
use diary.Libc.Str.{
  strcmp_eq, strcmp_eq_self, strncmp_eq, strchr-Lacks, strchr-append, Lacks, snprintf,
  snprintf-fits,
}
use diary.Libc.Decimal.{print_int, is_digit}
use diary.Libc.Decimal.RoundTrip.{atol-print_int, Lacks-print_int, length-print_int_pos}
use diary.Server.Sqlite.{Row, Rc, done, Sqlite, IsSqlite, owned, insert_entry}
use diary.Server.Storage.{Storage, storage_add_entry}
use diary.Server.Storage.Entries.{rows_of, owned-append}
use diary.Server.Handler.{Request, handle_post, handle_line, post_fields, space}

-- "POST <data>" with data that has no space, such as base64: the server's clock and the data.
pub post_fields-Lacks :
    (payload : Text) (now : ℤ) → Lacks space payload → post_fields payload now ≡ (now, payload)
unfolding post_fields
post_fields-Lacks payload now h = rw (strchr-Lacks payload space h, post_fields)

-- "POST <epoch> <data>" with an epoch in the range of `long`: a positive epoch is the timestamp
-- of the data. Any other epoch is left in the stored data, in front of it, under the server's
-- clock.
pub post_fields-epoch :
    (epoch : ℤ) (d : Text) (now : ℤ)
    → IsLong epoch
    → post_fields (print_int epoch ++ (space ∷ d)) now
      ≡ (if is_positive epoch then (epoch, d) else (now, print_int epoch ++ (space ∷ d)))
unfolding post_fields
post_fields-epoch epoch d now long = rw (
  strchr-append (print_int epoch) d space (Lacks-print_int space epoch (omega arith)),
  post_fields,
  atol-print_int epoch (space ∷ d) long (unfold is_digit in refl),
)

pub handle_line-post :
    (sq : Sqlite) (user p : Text) (r : Request) (st : Storage sq)
    → r.line ≡ codes "POST " ++ p
    → handle_line sq user r st ≡ handle_post sq user r st
unfolding handle_line strcmp_eq strncmp_eq
handle_line-post sq user p r st h = simp h

ok_reply :
    (id : ℕ)
    → id < 2 ^ 31
    → snprintf 32 (codes "OK " ++ print_int (pos id)) ≡ codes "OK " ++ print_int (pos id)
ok_reply id h =
    snprintf-fits 32 (codes "OK " ++ print_int (pos id)) (omega (arith, length-print_int_pos id h))

-- The identifier that SQLite gives the entry of a POST.
abbrev pub posted_id : (sq : Sqlite) → Text → Request → Storage sq → ℕ
posted_id sq user r st =
    let (ts, d) = post_fields (drop 5 r.line) r.now in
    (sq.run (insert_entry user ts d) st.file).0.rowid

-- How the insert of a POST ended.
abbrev pub posted_rc : (sq : Sqlite) → Text → Request → Storage sq → Rc
posted_rc sq user r st =
    let (ts, d) = post_fields (drop 5 r.line) r.now in
    (sq.run (insert_entry user ts d) st.file).0.rc

-- The entry that a POST of `fields` stores under an identifier.
abbrev pub posted_row : Text → Text → ℤ → ℕ → Row
posted_row user fields now id = record {
  id = id;
  auth_pubkey = user;
  timestamp = (post_fields fields now).0;
  payload = (post_fields fields now).1;
}

rows_of-post :
    (sq : Sqlite) (laws : IsSqlite sq) (user : Text) (r : Request) (st : Storage sq)
    → posted_rc sq user r st ≡ done
    → rows_of sq user (handle_post sq user r st).storage
      ≡ rows_of sq user st ++ posted_row user (drop 5 r.line) r.now (posted_id sq user r st) ∷ []
unfolding handle_post storage_add_entry rows_of
rows_of-post sq laws user r st inserted =
    rw (laws.entry_inserted user _ _ st.file inserted, owned-append)
      (unfold owned in rw (strcmp_eq_self user))

sent-post :
    (sq : Sqlite) (user : Text) (r : Request) (st : Storage sq)
    → posted_rc sq user r st ≡ done
    → posted_id sq user r st < 2 ^ 31
    → (handle_post sq user r st).sent
      ≡ (codes "OK " ++ print_int (pos (posted_id sq user r st))) ∷ []
unfolding handle_post storage_add_entry
sent-post sq user r st inserted small =
    rw (inserted, to_int-eq_of_IsInt (pos (posted_id sq user r st)) small) (rw (ok_reply _ small))

-- The identifier of a new entry is above those of the user's entries.
pub posted_id-fresh :
    (sq : Sqlite) (laws : IsSqlite sq) (user : Text) (r : Request) (st : Storage sq)
    → posted_rc sq user r st ≡ done
    → All (λ e. e.id < posted_id sq user r st) (rows_of sq user st)
unfolding rows_of owned
posted_id-fresh sq laws user r st inserted =
    All-keep _ _ (sq.entries st.file) (laws.rowid_fresh user _ _ st.file inserted)

-- It is at least 1.
pub posted_id-positive :
    (sq : Sqlite) (laws : IsSqlite sq) (user : Text) (r : Request) (st : Storage sq)
    → posted_rc sq user r st ≡ done
    → 0 < posted_id sq user r st
posted_id-positive sq laws user r st inserted = laws.rowid_positive user _ _ st.file inserted

-- When its insert succeeds, a line "POST <fields>" appends one entry to those of the user, with
-- the timestamp and the data that `post_fields` reads and an identifier above all of the user's,
-- and answers that identifier. The identifier has to fit an `int`.
pub handle_line_post :
    (sq : Sqlite) (laws : IsSqlite sq) (user fields : Text) (r : Request) (st : Storage sq)
    → r.line ≡ codes "POST " ++ fields
    → posted_rc sq user r st ≡ done
    → posted_id sq user r st < 2 ^ 31
    → ((handle_line sq user r st).sent
        ≡ (codes "OK " ++ print_int (pos (posted_id sq user r st))) ∷ [])
      × (rows_of sq user (handle_line sq user r st).storage
          ≡ rows_of sq user st ++ posted_row user fields r.now (posted_id sq user r st) ∷ [])
      × All (λ e. e.id < posted_id sq user r st) (rows_of sq user st)
handle_line_post sq laws user fields r st line inserted small =
    let at = handle_line-post sq user fields r st line in
    let rest : drop 5 r.line ≡ fields = simp line in
    (
      rw at (sent-post sq user r st inserted small),
      rw at (
          rows_of-post sq laws user r st inserted
          ∙ ap
              (λ (f : Text).
                rows_of sq user st ++ posted_row user f r.now (posted_id sq user r st) ∷ [])
              rest),
      posted_id-fresh sq laws user r st inserted,
    )

-- What the line "POST <epoch> <data>" means: a positive epoch is the date of the data, any other
-- is a part of them, under the server's clock.
abbrev pub dated : ℤ → Text → ℤ → ℤ × Text
dated epoch d now = if is_positive epoch then (epoch, d) else (now, print_int epoch ++ (space ∷ d))

-- A line "POST <epoch> <data>", with an epoch in the range of `long`, adds one row to those of the
-- user if the INSERT of it succeeds: the data under the epoch if that is positive, and else the
-- epoch, a space and the data under the server's clock.
pub handle_line_post_epoch :
    (sq : Sqlite) (laws : IsSqlite sq) (user d : Text) (epoch : ℤ) (r : Request) (st : Storage sq)
    → IsLong epoch
    → r.line ≡ codes "POST " ++ (print_int epoch ++ (space ∷ d))
    → (sq.run (insert_entry user (dated epoch d r.now).0 (dated epoch d r.now).1) st.file).0.rc
      ≡ done
    → rows_of sq user (handle_line sq user r st).storage
      ≡ rows_of sq user st
        ++ record {
          id =
              (sq.run
                (insert_entry user (dated epoch d r.now).0 (dated epoch d r.now).1)
                st.file).0.rowid;
          auth_pubkey = user;
          timestamp = (dated epoch d r.now).0;
          payload = (dated epoch d r.now).1;
        }
          ∷ []
handle_line_post_epoch sq laws user d epoch r st long line inserted =
    let rest : drop 5 r.line ≡ print_int epoch ++ (space ∷ d) = simp line in
    let fields : post_fields (drop 5 r.line) r.now ≡ dated epoch d r.now =
      ap (λ (f : Text). post_fields f r.now) rest ∙ post_fields-epoch epoch d r.now long in
    let stored = rows_of-post sq laws user r st (rw (posted_rc, fields) inserted) in
    rw (handle_line-post sq user _ r st line) (rw (fields, posted_id) at stored)

-- When its insert fails, the user's entries stay as they were and the answer is a FAIL.
pub handle_line_post_failed :
    (sq : Sqlite) (laws : IsSqlite sq) (user fields : Text) (r : Request) (st : Storage sq)
    → r.line ≡ codes "POST " ++ fields
    → posted_rc sq user r st ≢ done
    → ((handle_line sq user r st).sent ≡ codes "FAIL could not save entry" ∷ [])
      × (rows_of sq user (handle_line sq user r st).storage ≡ rows_of sq user st)
handle_line_post_failed sq laws user fields r st line failure =
    let at = handle_line-post sq user fields r st line in
    (
      rw at (unfold handle_post storage_add_entry in ground arith),
      rw at (
          unfold handle_post storage_add_entry rows_of in
          ap (owned user) (laws.failed_entries _ st.file failure)),
    )
