-- ===== src/Client/Net/RoundTrip.antt =====
-- A new entry goes through client/net.c to server/client_handler.c and comes back.
use mathlib.Core.List.{map-append}
use diary.Prelude.{◌^◌, ◌<◌, ◌≡◌, refl, ◌∙◌, true, [], ◌∷◌, ◌++◌, some, map}
use diary.Prelude.{
  arith, Text, length, length-append, take-eq_of_le, All, All-append, if◌then◌else◌, if_cases,
}
use diary.Prelude.Int.{ℤ, is_positive, IsLong}
use diary.Libc.Sort.{qsort}
use diary.Server.Sqlite.{Sqlite, IsSqlite, Works}
use diary.Server.Storage.Entries.{rows_of}
use diary.Server.Handler.{max_entries}
use diary.Server.Handler.Post.{posted_id}
use diary.Server.Handler.Collect.{Fits}
use diary.Client.Net.{Wire, net_post_entry, net_get_entries, entry_cmp_newest_first}
use diary.Client.Net.Read.{IsSealed, entry_of}
use diary.Client.Net.Link.{Link}
use diary.Client.Net.Journal.Rows.{entry_text-sealed}
use diary.Client.Net.Served.{new_row, post_request, net_post_entry-served}
use diary.Client.Net.Fetched.{net_get_entries-served}

-- A text that the client sends as a new entry is among the entries that it gets afterwards,
-- whole, with the identifier that the client was told and the timestamp it gave (or the server's
-- clock, if that is not positive), beside the entries that the user had, in the order of the
-- client: on a connection that is up with no line on the way, with a database that works and
-- memory at both ends, if the text can be sealed, the user had less than 1024 entries, all
-- identifiers fit an `int` and all timestamps a `long`, and the data of the others is sealed
-- text.
pub net_get_entries-net_post_entry :
    (w : Wire) (sq : Sqlite) (user : Text) (link : Link w sq user) (laws : IsSqlite sq)
    (works : Works sq) (text b64 : Text) (timestamp : ℤ) (c : w.Conn)
    → link.incoming c ≡ []
    → w.proto_seal_new text c ≡ some b64
    → IsLong timestamp
    → IsLong (link.clock c)
    → posted_id sq user (post_request w sq user link timestamp b64 c) (link.storage c) < 2 ^ 31
    → All Fits (rows_of sq user (link.storage c))
    → All IsSealed (rows_of sq user (link.storage c))
    → length (rows_of sq user (link.storage c)) < max_entries
    → (net_get_entries w true (net_post_entry w text timestamp c).1).0
      ≡ some (
          qsort entry_cmp_newest_first (
            map (entry_of w) (rows_of sq user (link.storage c))
            ++ record {
              id = (net_post_entry w text timestamp c).0;
              timestamp = if is_positive timestamp then timestamp else link.clock c;
              text = text;
            }
              ∷ []))
net_get_entries-net_post_entry w sq user link laws works text b64 timestamp c quiet seal long clock
      small fit sealed room =
    let c1 = (net_post_entry w text timestamp c).1 in
    let rows = rows_of sq user (link.storage c) in
    let id = posted_id sq user (post_request w sq user link timestamp b64 c) (link.storage c) in
    let new = new_row w sq user link id timestamp b64 c in
    let (told, stored, quiet1) =
      net_post_entry-served w sq user link laws works text b64 timestamp c quiet seal long small in
    let (lacks, nonempty, opens) = link.sealed text c b64 seal in
    let new_fits : Fits new = (
      small,
      if_cases IsLong (is_positive timestamp) timestamp (link.clock c) (λ _. long) (λ _. clock),
    ) in
    let fit1 : All Fits (rows_of sq user (link.storage c1)) =
      rw stored (All-append Fits rows (new ∷ []) fit (new_fits, tt)) in
    let sealed1 : All IsSealed (rows_of sq user (link.storage c1)) =
      rw stored (All-append IsSealed rows (new ∷ []) sealed ((lacks, nonempty), tt)) in
    let whole =
      take-eq_of_le max_entries (rows ++ new ∷ []) (omega (arith, length-append rows (new ∷ []))) in
    (net_get_entries-served w sq user link laws works c1 quiet1 fit1 sealed1).0
    ∙ rw (told, stored, whole, map-append) (rw (entry_text-sealed w b64 text opens) refl)
