-- ===== src/Client/Net/Fetched.antt =====
-- The entries that client/net.c gets from server/client_handler.c.
use diary.Prelude.{ℕ, zero, suc, ◌≤◌, ◌<◌, ◌≡◌, refl, ◌∙◌, ap, true, List, [], ◌∷◌}
use diary.Prelude.{some, map, arith, Text, codes, length, length-take, take, drop, All}
use diary.Prelude.Int.{ℤ, pos, is_positive}
use diary.Libc.Str.{strcmp_eq, strncmp_eq}
use diary.Libc.Decimal.{atoi}
use diary.Libc.Decimal.RoundTrip.{atoi-print_int_pos, length-print_int_pos}
use diary.Libc.Sort.{qsort}
use diary.Server.Sqlite.{Row, Sqlite, IsSqlite, Works}
use diary.Server.Storage.{Storage}
use diary.Server.Storage.Entries.{rows_of, rows_of-storage_get_entries}
use diary.Server.Handler.{request, max_entries, handle_line, handle_get}
use diary.Server.Handler.Collect.{row_line, Fits, entries_header, handle_get_lem}
use diary.Client.Net.{Wire, DiaryEntry, read_entries, net_get_entries, entry_cmp_newest_first}
use diary.Client.Net.Read.{IsSealed, entry_of, read_entry-row_line}
use diary.Client.Net.Link.{Link, ask}

abbrev Readable : Row → Type 0
Readable r = Fits r × IsSealed r

-- The header of GET, as the client reads it.
header_starts : (n : ℕ) → strncmp_eq (entries_header n) (codes "ENTRIES ") ≡ true
unfolding strncmp_eq
header_starts n = refl

header_count : (n : ℕ) → n ≤ max_entries → atoi (drop 8 (entries_header n)) ≡ pos n
header_count n small = atoi-print_int_pos n (omega arith)

module _ (w : Wire) (sq : Sqlite) (user : Text) (link : Link w sq user) where
  -- The loop reads the rows whose lines come in.
  read_rows :
      (rs : List Row) (c : w.Conn)
      → link.incoming c ≡ map row_line rs
      → All Readable rs
      → ((read_entries w (length rs) c).0 ≡ some (map (entry_of w) rs))
        × (link.incoming (read_entries w (length rs) c).1 ≡ [])
        × (rows_of sq user (link.storage (read_entries w (length rs) c).1)
            ≡ rows_of sq user (link.storage c))
  unfolding read_entries
  read_rows [] c comes ok = (refl, comes, refl)
  read_rows (r ∷ rs) c comes ok =
      let (line, rest, kept) = link.received c (row_line r) (map row_line rs) comes in
      let (entries, quiet, kept') = read_rows rs (w.proto_recv_line_dyn c).1 rest ok.1 in
      let this = read_entry-row_line w r ok.0.0 ok.0.1 in
      (rw (line, this, entries) refl, rw (line, this) quiet, rw (line, this) (kept' ∙ kept))

handle_line-get :
    (sq : Sqlite) (user : Text) (now : ℤ) (st : Storage sq)
    → handle_line sq user (request now (codes "GET")) st
      ≡ handle_get sq user (request now (codes "GET")) st
unfolding handle_line strcmp_eq strncmp_eq
handle_line-get sq user now st = refl

pub take-map :
    {A B : Type 0} (f : A → B) (n : ℕ) (xs : List A) → take n (map f xs) ≡ map f (take n xs)
take-map f zero xs = refl
take-map f (suc n) [] = refl
take-map f (suc n) (x ∷ xs) = ap (λ ys. f x ∷ ys) (take-map f n xs)

-- What the client makes of a header and the lines that follow it.
get_run :
    (w : Wire) (c : w.Conn) (n : ℕ) (es : List DiaryEntry)
    → n ≤ max_entries
    → (w.proto_send_line (codes "GET") c).0 ≡ true
    → (w.proto_recv_line 64 (w.proto_send_line (codes "GET") c).1).0 ≡ some (entries_header n)
    → (read_entries w n (w.proto_recv_line 64 (w.proto_send_line (codes "GET") c).1).1).0 ≡ some es
    → (n ≡ 0 → es ≡ [])
    → net_get_entries w true c ≡ (
      some (qsort entry_cmp_newest_first es),
      (read_entries w n (w.proto_recv_line 64 (w.proto_send_line (codes "GET") c).1).1).1,
    )
unfolding net_get_entries
get_run w c zero es small sends header entries empty =
    rw (header, net_get_entries, empty refl)
      (simp (sends, header_starts 0, header_count 0 small) (unfold qsort read_entries in refl))
get_run w c (suc n) es small sends header entries empty =
    let positive : is_positive (pos (suc n)) ≡ true = ground arith in
    rw (header, net_get_entries)
      (simp (sends, header_starts (suc n), header_count (suc n) small, entries) (simp positive))

-- What the server sends, counted by the rows sent.
get_sent :
    (sq : Sqlite) (user : Text) (laws : IsSqlite sq) (works : Works sq) (now : ℤ) (st : Storage sq)
    → All Fits (rows_of sq user st)
    → (handle_line sq user (request now (codes "GET")) st).sent
      ≡ entries_header (length (take max_entries (rows_of sq user st)))
        ∷ map row_line (take max_entries (rows_of sq user st))
get_sent sq user laws works now st fit = rw (
  handle_line-get sq user now st,
  handle_get_lem sq laws works user (request now (codes "GET")) st refl refl fit,
  take-map row_line max_entries (rows_of sq user st),
  length-take max_entries (rows_of sq user st),
)

map-nil : {A B : Type 0} (f : A → B) (xs : List A) → length xs ≡ 0 → map f xs ≡ []
map-nil f [] h = refl
map-nil f (x ∷ xs) h = absurd (omega arith)

Readable-take : (n : ℕ) (rs : List Row) → All Fits rs → All IsSealed rs → All Readable (take n rs)
Readable-take zero rs fit sealed = tt
Readable-take (suc n) [] fit sealed = tt
Readable-take (suc n) (r ∷ rs) fit sealed = ((fit.0, sealed.0), Readable-take n rs fit.1 sealed.1)

rows_of-get :
    (sq : Sqlite) (user : Text) (laws : IsSqlite sq) (now : ℤ) (st : Storage sq)
    → rows_of sq user (handle_line sq user (request now (codes "GET")) st).storage
      ≡ rows_of sq user st
unfolding handle_get
rows_of-get sq user laws now st =
    rw (handle_line-get sq user now st) (rows_of-storage_get_entries sq laws user user _ _ st)

-- The client gets the first 1024 of the user's entries, opened and sorted, with their
-- identifiers and timestamps, and leaves the entries as they were and no line on the way: on a
-- connection that is up with no line on the way, with a database that works and memory at both
-- ends, if the identifiers fit an `int` and the timestamps a `long` and the data is sealed text.
pub net_get_entries-served :
    (w : Wire) (sq : Sqlite) (user : Text) (link : Link w sq user) (laws : IsSqlite sq)
    (works : Works sq) (c : w.Conn)
    → link.incoming c ≡ []
    → All Fits (rows_of sq user (link.storage c))
    → All IsSealed (rows_of sq user (link.storage c))
    → ((net_get_entries w true c).0
        ≡ some (
            qsort entry_cmp_newest_first
              (map (entry_of w) (take max_entries (rows_of sq user (link.storage c))))))
      × (rows_of sq user (link.storage (net_get_entries w true c).1)
          ≡ rows_of sq user (link.storage c))
      × (link.incoming (net_get_entries w true c).1 ≡ [])
net_get_entries-served w sq user link laws works c quiet fit sealed =
    let rows = rows_of sq user (link.storage c) in
    let rs = take max_entries rows in
    let count = length-take max_entries rows in
    let readable = Readable-take max_entries rows fit sealed in
    let sent = get_sent sq user laws works (link.clock c) (link.storage c) fit in
    let bound : length rs ≤ max_entries = omega (arith, count) in
    let short : length (entries_header (length rs)) < 64 =
      omega (arith, length-print_int_pos (length rs) (omega arith)) in
    let (answer, rest, asked) =
      ask w sq user link (codes "GET") c (entries_header (length rs)) (map row_line rs) quiet sent
        short in
    let (entries, quiet1, kept) = read_rows w sq user link rs _ rest readable in
    let run =
      get_run w c (length rs) (map (entry_of w) rs) bound (link.line_sent (codes "GET") c) answer
        entries (map-nil (entry_of w) rs) in
    (
      ap (λ r. r.0) run,
      rw (run, kept, asked) (rows_of-get sq user laws (link.clock c) (link.storage c)),
      rw run quiet1,
    )
