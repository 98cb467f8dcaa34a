-- ===== src/Client/Net.antt =====
-- client/net.c: the requests of a connected client. The wire protocol and the cryptography of the
-- submodule protocol/ are a parameter, as is the connection with its keys.
pub mod Order
pub mod Prefix
pub mod Read
pub mod Link
pub mod Served
pub mod Fetched
pub mod RoundTrip
pub mod Journal
pub mod Listing
pub mod Acknowledged
use diary.Prelude.{
  ℕ, zero, suc, ◌+◌, Bool, true, false, not, List, [], ◌∷◌, ◌++◌, Option, none, some, ◌>>=◌,
}
use mathlib.Core.Option as Opt
use diary.Prelude.{Text, codes, drop, if◌then◌else◌}
use diary.Prelude.Int.{ℤ, pos, neg, is_positive, eq_ℤ, ltb_ℤ, sub_ℤ, to_int}
use diary.Libc.Str.{strcmp_eq, strncmp_eq, strtok_r, snprintf}
use diary.Libc.Decimal.{print_int, atol, atoi}
use diary.Libc.Sort.{qsort}
use diary.Client.Service.{Service}

-- protocol/wire.h and protocol/crypto.h: whether a line was sent, the line received, if one was, and
-- a text sealed for the keys of the connection, and opened with them. The keys stay the same.
pub record Wire : Type 1 where
  pub Conn : Type 0
  pub proto_send_line : Text → Conn → Bool × Conn
  -- The prefix and the body, sent as one line.
  pub proto_send_prefixed : Text → Text → Conn → Bool × Conn
  pub proto_recv_line : ℕ → Conn → Option Text × Conn
  pub proto_recv_line_dyn : Conn → Option Text × Conn
  pub proto_seal_new : Text → Conn → Option Text
  pub proto_unseal_new : Text → Option Text

-- `diary_entry_t`.
pub record DiaryEntry : Type 0 where
  pub id : ℤ
  pub timestamp : ℤ
  pub text : Text

abbrev space : ℕ
space = 32

-- "POST " or, for a positive timestamp, "POST %ld ".
unfoldable pub post_prefix : ℤ → Text
post_prefix timestamp =
    if is_positive timestamp
    then snprintf 32 (codes "POST " ++ (print_int timestamp ++ codes " "))
    else codes "POST "

-- "UPDATE %d "
unfoldable pub update_prefix : ℤ → Text
update_prefix id = snprintf 32 (codes "UPDATE " ++ (print_int id ++ codes " "))

-- Newest first; ties broken by highest id. The difference of identifiers is an `int`.
unfoldable pub entry_cmp_newest_first : DiaryEntry → DiaryEntry → ℤ
entry_cmp_newest_first ea eb =
    if not (eq_ℤ ea.timestamp eb.timestamp)
    then if ltb_ℤ ea.timestamp eb.timestamp then pos 1 else neg 1
    else to_int (sub_ℤ eb.id ea.id)

abbrev pub to_nat : ℤ → ℕ
to_nat (pos n) = n
to_nat _ = 0

module _ (w : Wire) where
  unfoldable pub net_post_entry : Text → ℤ → w.Conn → ℤ × w.Conn
  net_post_entry text timestamp conn = elim (w.proto_seal_new text conn) [
    | none ↦ (neg 1, conn)
    | some b64 ↦
        let (sent, c1) = w.proto_send_prefixed (post_prefix timestamp) b64 conn in
        let (line, c2) = w.proto_recv_line 64 c1 in
        if not sent then (neg 1, c1) else elim line [
          | none ↦ (neg 1, c2)
          | some l ↦ (if strncmp_eq l (codes "OK ") then atoi (drop 3 l) else neg 1, c2)
        ]
  ]

  unfoldable pub net_update_entry : ℤ → Text → w.Conn → ℤ × w.Conn
  net_update_entry id text conn = elim (w.proto_seal_new text conn) [
    | none ↦ (neg 1, conn)
    | some b64 ↦
        let (sent, c1) = w.proto_send_prefixed (update_prefix id) b64 conn in
        let (line, c2) = w.proto_recv_line 64 c1 in
        if not sent then (neg 1, c1) else elim line [
          | none ↦ (neg 1, c2)
          | some l ↦ (if strcmp_eq l (codes "OK") then id else neg 1, c2)
        ]
  ]

  unfoldable pub net_delete_entry : ℤ → w.Conn → ℤ × w.Conn
  net_delete_entry id conn =
      let (sent, c1) = w.proto_send_line (snprintf 32 (codes "DELETE " ++ print_int id)) conn in
      let (line, c2) = w.proto_recv_line 64 c1 in
      if not sent then (neg 1, c1) else elim line [
        | none ↦ (neg 1, c2)
        | some l ↦ (if strcmp_eq l (codes "OK") then pos 0 else neg 1, c2)
      ]

  -- The requests as the screens use them.
  abbrev pub net : Service
  net = record {
    Conn = w.Conn;
    net_post_entry = net_post_entry;
    net_update_entry = net_update_entry;
    net_delete_entry = net_delete_entry;
  }

  -- The text of an entry, or what stands for it if it cannot be opened.
  unfoldable pub entry_text : Text → Text
  entry_text sdat = elim (w.proto_unseal_new sdat) [
    | none ↦ codes "[could not decrypt]"
    | some plain ↦ plain
  ]

  -- "<id> <timestamp> <data>", a line of GET.
  unfoldable pub read_entry : Text → Option DiaryEntry
  unfolding entry_text
  read_entry line = do
    a ← strtok_r space line
    b ← strtok_r space a.1
    c ← strtok_r space b.1
    some (record { id = atoi a.0; timestamp = atol b.0; text = entry_text c.0 })

  -- The loop over the lines of GET; one that does not come or cannot be read ends it.
  unfoldable pub read_entries : ℕ → w.Conn → Option (List DiaryEntry) × w.Conn
  read_entries zero conn = (some [], conn)
  read_entries (suc n) conn =
      let (line, c1) = w.proto_recv_line_dyn conn in
      elim line [
        | none ↦ (none, c1)
        | some l ↦ elim (read_entry l) [
          | none ↦ (none, c1)
          | some e ↦ let (rest, c2) = read_entries n c1 in (Opt.map (λ es. e ∷ es) rest, c2)
        ]
      ]

  -- The entries, newest first, or nothing on an error; `calloc_ok` is the answer of calloc.
  unfoldable pub net_get_entries : Bool → w.Conn → Option (List DiaryEntry) × w.Conn
  net_get_entries calloc_ok conn =
      let (sent, c1) = w.proto_send_line (codes "GET") conn in
      let (hdr, c2) = w.proto_recv_line 64 c1 in
      if not sent then (none, c1) else elim hdr [
        | none ↦ (none, c2)
        | some h ↦
            let n = atoi (drop 8 h) in
            let (read, c3) = read_entries (to_nat n) c2 in
            if not (strncmp_eq h (codes "ENTRIES "))
            then (none, c2)
            else if not (is_positive n)
            then (some [], c2)
            else if not calloc_ok
            then (none, c2)
            else (Opt.map (qsort entry_cmp_newest_first) read, c3)
      ]
