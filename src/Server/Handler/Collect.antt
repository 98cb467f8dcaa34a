-- ===== src/Server/Handler/Collect.antt =====
-- GET of server/client_handler.c: the accumulator of rows, and what is sent.
use Prim.Native.Nat.{min}
use diary.Prelude.{
  ℕ, suc, zero, ◌+◌, ◌-◌, ◌^◌, ◌≤◌, ◌<◌, ◌≡◌, refl, ap, ◌∙◌, Bool-cases, inl, inr, true, List, [],
  ◌∷◌, ◌++◌,
}
use diary.Prelude.{
  map, append-nil, append_assoc, arith, Text, codes, length, length-append, length-map, length-take,
  leb, take, All, if◌then◌else◌,
}
use diary.Prelude.Int.{ℤ, pos, IsLong, to_int, to_int-eq_of_IsInt}
use diary.Libc.Str.{snprintf, snprintf-fits}
use diary.Libc.Decimal.{print_int}
use diary.Libc.Decimal.RoundTrip.{length-print_int, length-print_int_pos}
use diary.Server.Sqlite.{Row, Sqlite, IsSqlite, Works, owned, select_entries}
use diary.Server.Storage.{Storage, each_row, storage_get_entries}
use diary.Server.Storage.Entries.{rows_of}
use diary.Server.Handler.{max_entries, EntryCollect, entry_line, collect_entry, Request, handle_get}

-- The row as GET sends it.
abbrev pub row_line : Row → Text
row_line r = entry_line (pos r.id) r.timestamp r.payload

-- The identifier is an `int`, the timestamp a `long`.
abbrev pub Fits : Row → Type 0
Fits r = (r.id < 2 ^ 31) × IsLong r.timestamp

-- The buffer of `collect_entry` takes the whole line.
entry_line-fits :
    (id : ℕ) (ts : ℤ) (payload : Text)
    → id < 2 ^ 31
    → IsLong ts
    → snprintf (10 + 1 + 20 + 1 + length payload + 1) (entry_line (pos id) ts payload)
      ≡ entry_line (pos id) ts payload
entry_line-fits id ts payload small long = snprintf-fits _ (entry_line (pos id) ts payload) bound
  where
    bound : suc (length (entry_line (pos id) ts payload)) ≤ 10 + 1 + 20 + 1 + length payload + 1
    bound =
        unfold entry_line in
        rw (length-append (print_int (pos id)), length-append (print_int ts))
          (omega (arith, length-print_int_pos id small, length-print_int ts long))

take-nil {ℓ} : {A : Type ℓ} (n : ℕ) → take {A = A} n [] ≡ []
take-nil zero = refl
take-nil (suc n) = refl

abbrev collected : List Text → EntryCollect
collected ls = record { lines = ls; heap = [] }

-- One row, with memory to hold it.
collect_row :
    (r : Row) (ls : List Text)
    → Fits r
    → collect_entry (to_int (pos r.id)) r.timestamp r.payload (collected ls)
      ≡ collected (if leb max_entries (length ls) then ls else ls ++ row_line r ∷ [])
unfolding collect_entry
collect_row r ls h =
    rw (to_int-eq_of_IsInt (pos r.id) h.0, entry_line-fits r.id r.timestamp r.payload h.0 h.1)
      (ground arith)

each_row-collect :
    (rs : List Row) (ls : List Text)
    → All Fits rs
    → each_row collect_entry rs (collected ls)
      ≡ collected (ls ++ take (max_entries - length ls) (map row_line rs))
unfolding each_row
each_row-collect [] ls h = rw (take-nil (max_entries - length ls), append-nil)
each_row-collect (r ∷ rs) ls h =
    rw (collect_row r ls h.0) (elim (Bool-cases (leb max_entries (length ls))) [
      | inl full ↦
          let none_left : max_entries - length ls ≡ 0 = ground arith in
          rw full (each_row-collect rs ls h.1 ∙ rw none_left)
      | inr room ↦
          let some_left : max_entries - length ls ≡ suc (max_entries - (length ls + 1)) =
            ground arith in
          let longer = length-append ls (row_line r ∷ []) in
          rw room
            (each_row-collect rs (ls ++ row_line r ∷ []) h.1 ∙ rw (longer, some_left, append_assoc))
    ])

abbrev pub entries_header : ℕ → Text
entries_header n = codes "ENTRIES " ++ print_int (pos n)

entries_header-fits : (n : ℕ) → n ≤ max_entries → snprintf 32 (entries_header n) ≡ entries_header n
entries_header-fits n h =
    snprintf-fits 32 (entries_header n) (omega (arith, length-print_int_pos n (omega arith)))

collect_bound :
    (id ts : ℤ) (payload : Text) (c : EntryCollect)
    → length c.lines ≤ max_entries
    → length (collect_entry id ts payload c).lines ≤ max_entries
unfolding collect_entry
collect_bound id ts payload c h = ground (
  arith,
  length-append c.lines
      (snprintf (10 + 1 + 20 + 1 + length payload + 1) (entry_line id ts payload) ∷ []),
)

length-each_row :
    (rs : List Row) (c : EntryCollect)
    → length c.lines ≤ max_entries
    → length (each_row collect_entry rs c).lines ≤ max_entries
unfolding each_row
length-each_row [] c h = h
length-each_row (r ∷ rs) c h =
    length-each_row rs (collect_entry (to_int (pos r.id)) r.timestamp r.payload c)
      (collect_bound (to_int (pos r.id)) r.timestamp r.payload c h)

-- What GET has collected.
col_of : (sq : Sqlite) → Text → Request → Storage sq → EntryCollect
col_of sq user r st =
    each_row collect_entry (sq.run (select_entries user) st.file).0.rows
      (record { lines = []; heap = r.heap })

length-col_of :
    (sq : Sqlite) (user : Text) (r : Request) (st : Storage sq)
    → length (col_of sq user r st).lines ≤ max_entries
unfolding col_of
length-col_of sq user r st =
    length-each_row (sq.run (select_entries user) st.file).0.rows
      (record { lines = []; heap = r.heap }) (omega arith)

handle_get_sent :
    (sq : Sqlite) (user : Text) (r : Request) (st : Storage sq)
    → r.calloc_ok ≡ true
    → (handle_get sq user r st).sent
      ≡ entries_header (length (col_of sq user r st).lines) ∷ (col_of sq user r st).lines
unfolding handle_get storage_get_entries col_of
handle_get_sent sq user r st calloc =
    rw (
      calloc,
      entries_header-fits (length (col_of sq user r st).lines) (length-col_of sq user r st),
    )

col_of-rows :
    (sq : Sqlite) (laws : IsSqlite sq) (works : Works sq) (user : Text) (r : Request)
    (st : Storage sq)
    → r.heap ≡ []
    → All Fits (rows_of sq user st)
    → (col_of sq user r st).lines ≡ take max_entries (map row_line (rows_of sq user st))
unfolding col_of rows_of
col_of-rows sq laws works user r st heap fit =
    let all =
      laws.all_entries_read user st.file (works.steps_done (select_entries user) st.file refl) in
    rw (all, heap)
      (ap (λ (c : EntryCollect). c.lines)
        (each_row-collect (owned user (sq.entries st.file)) [] fit))

-- With a database that works and memory to hold the reply, GET answers the number of the rows
-- that follow and then the first 1024 of the user's own rows in their order, each row whole, if
-- the identifiers fit an `int` and the timestamps a `long`.
pub handle_get_lem :
    (sq : Sqlite) (laws : IsSqlite sq) (works : Works sq) (user : Text) (r : Request)
    (st : Storage sq)
    → r.calloc_ok ≡ true
    → r.heap ≡ []
    → All Fits (rows_of sq user st)
    → (handle_get sq user r st).sent
      ≡ entries_header (min max_entries (length (rows_of sq user st)))
        ∷ take max_entries (map row_line (rows_of sq user st))
handle_get_lem sq laws works user r st calloc heap fit =
    let e = col_of-rows sq laws works user r st heap fit in
    rw (handle_get_sent sq user r st calloc, e)
      (rw (length-take max_entries (map row_line (rows_of sq user st)), length-map) refl)

-- When its array can be allocated, what GET sends first is the count of the lines that follow,
-- at most 1024, whatever else fails.
pub handle_get_count :
    (sq : Sqlite) (user : Text) (r : Request) (st : Storage sq)
    → r.calloc_ok ≡ true
    → (lines : List Text) × ((handle_get sq user r st).sent ≡ entries_header (length lines) ∷ lines)
      × (length lines ≤ max_entries)
handle_get_count sq user r st calloc =
    ((col_of sq user r st).lines, handle_get_sent sq user r st calloc, length-col_of sq user r st)
