-- ===== src/Client/Net/Read.antt =====
-- client/net.c reads what GET of server/client_handler.c sends.
use diary.Prelude.{◌≡◌, ◌≢◌, ◌∙◌, sym, ap, [], ◌∷◌, ◌++◌, some}
use diary.Prelude.{append-nil, arith}
use diary.Prelude.Int.{ℤ, pos, IsLong}
use diary.Libc.Str.{Lacks, strtok_r-append, strtok_r-Lacks}
use diary.Libc.Decimal.{print_int, atol}
use diary.Libc.Decimal.RoundTrip.{
  Lacks-print_int, print_int-ne-nil, atoi-print_int_pos, atol-print_int,
}
use diary.Server.Sqlite.{Row}
use diary.Server.Handler.{entry_line, space}
use diary.Server.Handler.Collect.{row_line, Fits}
use diary.Client.Net.{Wire, DiaryEntry, entry_text, read_entry}

-- Sealed data as the server gets it: base64, without a space and not empty.
abbrev pub IsSealed : Row → Type 0
IsSealed r = Lacks space r.payload × (r.payload ≢ [])

-- The entry that a row stands for, to a client with its keys.
abbrev pub entry_of : Wire → Row → DiaryEntry
entry_of w r = record { id = pos r.id; timestamp = r.timestamp; text = entry_text w r.payload }

number_ts : (ts : ℤ) → IsLong ts → atol (print_int ts) ≡ ts
number_ts ts long = ap atol (sym (append-nil (print_int ts))) ∙ atol-print_int ts [] long tt

-- The client reads a line of GET as the row that the server printed.
pub read_entry-row_line :
    (w : Wire) (r : Row) → Fits r → IsSealed r → read_entry w (row_line r) ≡ some (entry_of w r)
unfolding entry_line
read_entry-row_line w r fits sealed =
    let first =
      strtok_r-append (print_int (pos r.id)) (print_int r.timestamp ++ (space ∷ r.payload)) space
        (Lacks-print_int space (pos r.id) (omega arith)) (print_int-ne-nil (pos r.id)) in
    let second =
      strtok_r-append (print_int r.timestamp) r.payload space
        (Lacks-print_int space r.timestamp (omega arith)) (print_int-ne-nil r.timestamp) in
    let third = strtok_r-Lacks r.payload space sealed.0 sealed.1 in
    unfold read_entry in
    rw (first, second, third, atoi-print_int_pos r.id fits.0, number_ts r.timestamp fits.1)
