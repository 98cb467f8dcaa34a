-- ===== src/Client/Net/Served.antt =====
-- The requests of client/net.c, served by server/client_handler.c.
use diary.Prelude.{ℕ, ◌^◌, ◌<◌, ◌≡◌, refl, Bool, true, false, not, [], ◌∷◌, ◌++◌}
use diary.Prelude.{some, map, arith, Text, codes, length, drop, keep, ◌==◌, if◌then◌else◌}
use diary.Prelude.Int.{ℤ, pos, neg, is_positive, IsLong}
use diary.Libc.Str.{strcmp_eq, strncmp_eq, snprintf, snprintf-fits}
use diary.Libc.Decimal.{print_int, atoi}
use diary.Libc.Decimal.RoundTrip.{atoi-print_int_pos, length-print_int_pos}
use diary.Server.Sqlite.{Row, done, Sqlite, IsSqlite, Works, insert_entry}
use diary.Server.Storage.Entries.{rows_of}
use diary.Server.Handler.{request, Request}
use diary.Server.Handler.Post.{posted_id, posted_rc, handle_line_post}
use diary.Server.Handler.Change.{
  has_id, with_payload, found_text, handle_line_update, handle_line_delete,
}
use diary.Client.Net.{
  Wire, post_prefix, update_prefix, net_post_entry, net_update_entry, net_delete_entry,
}
use diary.Client.Net.Prefix.{post_prefix-post_fields, update_prefix_lem}
use diary.Client.Net.Link.{Link, ask}

-- The identifier in the answer to a POST.
read_ok :
    (id : ℕ)
    → id < 2 ^ 31
    → (if strncmp_eq (codes "OK " ++ print_int (pos id)) (codes "OK ")
        then atoi (drop 3 (codes "OK " ++ print_int (pos id)))
        else neg 1)
      ≡ pos id
unfolding strncmp_eq
read_ok id small = atoi-print_int_pos id small

-- What an UPDATE or a DELETE returns on the server's answer.
read_found :
    (found : Bool) (id : ℤ)
    → (if strcmp_eq (found_text found) (codes "OK") then id else neg 1)
      ≡ (if found then id else neg 1)
unfolding strcmp_eq
read_found true id = refl
read_found false id = refl

found-short : (found : Bool) → length (found_text found) < 64
found-short true = omega arith
found-short false = omega arith

module _ (w : Wire) (sq : Sqlite) (user : Text) (link : Link w sq user) where
  -- The entry that a POST of `b64` gets, with the client's timestamp or the server's clock.
  abbrev pub new_row : ℕ → ℤ → Text → w.Conn → Row
  new_row id timestamp b64 c = record {
    id = id;
    auth_pubkey = user;
    timestamp = if is_positive timestamp then timestamp else link.clock c;
    payload = b64;
  }

  -- The request that the client makes of a new entry.
  abbrev pub post_request : ℤ → Text → w.Conn → Request
  post_request timestamp b64 c = request (link.clock c) (post_prefix timestamp ++ b64)

  post_run :
      (text b64 l : Text) (timestamp : ℤ) (c : w.Conn)
      → w.proto_seal_new text c ≡ some b64
      → (w.proto_recv_line 64 (w.proto_send_line (post_prefix timestamp ++ b64) c).1).0 ≡ some l
      → net_post_entry w text timestamp c ≡ (
        if strncmp_eq l (codes "OK ") then atoi (drop 3 l) else neg 1,
        (w.proto_recv_line 64 (w.proto_send_line (post_prefix timestamp ++ b64) c).1).1,
      )
  unfolding net_post_entry
  post_run text b64 l timestamp c seal answer =
      rw (seal, net_post_entry)
        (simp (
          link.prefixed (post_prefix timestamp) b64 c,
          link.line_sent (post_prefix timestamp ++ b64) c,
          answer,
        ))

  update_run :
      (text b64 l : Text) (id : ℤ) (c : w.Conn)
      → w.proto_seal_new text c ≡ some b64
      → (w.proto_recv_line 64 (w.proto_send_line (update_prefix id ++ b64) c).1).0 ≡ some l
      → net_update_entry w id text c ≡ (
        if strcmp_eq l (codes "OK") then id else neg 1,
        (w.proto_recv_line 64 (w.proto_send_line (update_prefix id ++ b64) c).1).1,
      )
  unfolding net_update_entry
  update_run text b64 l id c seal answer =
      rw (seal, net_update_entry)
        (simp (
          link.prefixed (update_prefix id) b64 c,
          link.line_sent (update_prefix id ++ b64) c,
          answer,
        ))

  delete_run :
      (q l : Text) (id : ℤ) (c : w.Conn)
      → snprintf 32 (codes "DELETE " ++ print_int id) ≡ q
      → (w.proto_recv_line 64 (w.proto_send_line q c).1).0 ≡ some l
      → net_delete_entry w id c ≡ (
        if strcmp_eq l (codes "OK") then pos 0 else neg 1,
        (w.proto_recv_line 64 (w.proto_send_line q c).1).1,
      )
  unfolding net_delete_entry
  delete_run q l id c fits answer = simp (fits, link.line_sent q c, answer)

module _ (w : Wire) (sq : Sqlite) (user : Text) (link : Link w sq user) (laws : IsSqlite sq)
    (works : Works sq) where
  -- A new entry is stored sealed at the server behind the user's entries, under the client's
  -- timestamp if that is positive and else the server's clock, and the client returns the
  -- identifier that the server gave it: on a connection that is up with no line on the way, with
  -- a database that works, a timestamp in the range of `long`, an identifier that fits an `int`,
  -- and a text that can be sealed.
  pub net_post_entry-served :
      (text b64 : Text) (timestamp : ℤ) (c : w.Conn)
      → link.incoming c ≡ []
      → w.proto_seal_new text c ≡ some b64
      → IsLong timestamp
      → posted_id sq user (post_request w sq user link timestamp b64 c) (link.storage c) < 2 ^ 31
      → ((net_post_entry w text timestamp c).0
          ≡ pos (posted_id sq user (post_request w sq user link timestamp b64 c) (link.storage c)))
        × (rows_of sq user (link.storage (net_post_entry w text timestamp c).1)
            ≡ rows_of sq user (link.storage c)
              ++ new_row w sq user link
                  (posted_id sq user (post_request w sq user link timestamp b64 c) (link.storage c))
                  timestamp
                  b64
                  c
                ∷ [])
        × (link.incoming (net_post_entry w text timestamp c).1 ≡ [])
  net_post_entry-served text b64 timestamp c quiet seal long small =
      let r = post_request w sq user link timestamp b64 c in
      let id = posted_id sq user r (link.storage c) in
      let (lacks, _, _) = link.sealed text c b64 seal in
      let (fields, line, reads) = post_prefix-post_fields timestamp (link.clock c) b64 long lacks in
      let inserted : posted_rc sq user r (link.storage c) ≡ done =
        works.steps_done (insert_entry _ _ _) _ refl in
      let (sent, stored, _) =
        handle_line_post sq laws user fields r (link.storage c) line inserted small in
      let (answer, rest, kept) =
        ask w sq user link (post_prefix timestamp ++ b64) c _ [] quiet sent
          (omega (arith, length-print_int_pos id small)) in
      let run = post_run w sq user link text b64 _ timestamp c seal answer in
      (rw run (read_ok id small), rw (run, kept, stored, reads) refl, rw run rest)

  -- A changed entry replaces, sealed, the data of the user's entry of that identifier, whose
  -- timestamp and place stay. The client returns the identifier if the user has the entry, and
  -- -1 if not: on a connection that is up with no line on the way, with a database that works,
  -- an identifier that fits an `int`, and a text that can be sealed.
  pub net_update_entry-served :
      (id : ℕ) (text b64 : Text) (c : w.Conn)
      → link.incoming c ≡ []
      → w.proto_seal_new text c ≡ some b64
      → id < 2 ^ 31
      → ((net_update_entry w (pos id) text c).0
          ≡ (if has_id id (rows_of sq user (link.storage c)) then pos id else neg 1))
        × (rows_of sq user (link.storage (net_update_entry w (pos id) text c).1)
            ≡ map (with_payload id b64) (rows_of sq user (link.storage c)))
        × (link.incoming (net_update_entry w (pos id) text c).1 ≡ [])
  net_update_entry-served id text b64 c quiet seal small =
      let r = request (link.clock c) (update_prefix (pos id) ++ b64) in
      let found = has_id id (rows_of sq user (link.storage c)) in
      let (sent, stored) =
        handle_line_update sq laws works user id b64 r (link.storage c) small
          (update_prefix_lem id b64 small) in
      let (answer, rest, kept) =
        ask w sq user link (update_prefix (pos id) ++ b64) c _ [] quiet sent (found-short found) in
      let run = update_run w sq user link text b64 _ (pos id) c seal answer in
      (rw run (read_found found (pos id)), rw (run, kept) stored, rw run rest)

  -- A deletion removes the user's entry of that identifier and no other of the user's. The
  -- client returns 0 if the user had the entry, and -1 if not: on a connection that is up with
  -- no line on the way, with a database that works and an identifier that fits an `int`.
  pub net_delete_entry-served :
      (id : ℕ) (c : w.Conn)
      → link.incoming c ≡ []
      → id < 2 ^ 31
      → ((net_delete_entry w (pos id) c).0
          ≡ (if has_id id (rows_of sq user (link.storage c)) then pos 0 else neg 1))
        × (rows_of sq user (link.storage (net_delete_entry w (pos id) c).1)
            ≡ keep (λ e. not (e.id == id)) (rows_of sq user (link.storage c)))
        × (link.incoming (net_delete_entry w (pos id) c).1 ≡ [])
  net_delete_entry-served id c quiet small =
      let q = codes "DELETE " ++ print_int (pos id) in
      let found = has_id id (rows_of sq user (link.storage c)) in
      let fits : snprintf 32 q ≡ q =
        snprintf-fits 32 q (omega (arith, length-print_int_pos id small)) in
      let (sent, stored) =
        handle_line_delete sq laws works user id (request (link.clock c) q) (link.storage c) small
          refl in
      let (answer, rest, kept) = ask w sq user link q c _ [] quiet sent (found-short found) in
      let run = delete_run w sq user link q _ (pos id) c fits answer in
      (rw run (read_found found (pos 0)), rw (run, kept) stored, rw run rest)
