-- ===== src/Server/Handler.antt =====
-- server/client_handler.c: the handler of one authenticated client. The socket is a parameter: what
-- `proto_recv_line` and `proto_recv_line_dyn` return is input, and the lines that
-- `proto_send_line` is given are output (the handler ignores its result).
pub mod Isolation
pub mod Collect
pub mod Post
pub mod Change
pub mod Session
pub mod Replies
use diary.Prelude.{ℕ, suc, ◌+◌, Bool, true, false, List, [], ◌∷◌, ◌++◌, Option, none, some, not}
use diary.Prelude.{Text, codes, length, leb, ltb, ◌==◌, ◌||◌, drop, if◌then◌else◌}
use diary.Prelude.Int.{ℤ, pos, neg, is_positive, is_negative, eq_ℤ}
use diary.Libc.Str.{strcmp_eq, strncmp_eq, strchr, snprintf}
use diary.Libc.Decimal.{print_int, atol, atoi}
use diary.Server.Sqlite.{Sqlite}
use diary.Server.Storage.{Storage, EntryCb, storage_init, storage_close, storage_user_exists}
use diary.Server.Storage.{storage_register_user, storage_add_entry, storage_get_entries}
use diary.Server.Storage.{storage_update_entry, storage_delete_entry}

abbrev pub max_entries : ℕ
max_entries = 1024

abbrev pub space : ℕ
space = 32

-- The accumulator of GET; `heap` answers the next calls of `malloc`, and an empty list means that
-- they succeed.
pub record EntryCollect : Type 0 where
  pub lines : List Text
  pub heap : List Bool

abbrev pub head_ok : List Bool → Bool
head_ok [] = true
head_ok (b ∷ bs) = b

abbrev pub tail_ok : List Bool → List Bool
tail_ok [] = []
tail_ok (b ∷ bs) = bs

-- "%d %ld %s"
unfoldable pub entry_line : ℤ → ℤ → Text → Text
entry_line id ts payload = print_int id ++ (space ∷ (print_int ts ++ (space ∷ payload)))

unfoldable pub collect_entry : EntryCb EntryCollect
collect_entry id ts payload c =
    if leb max_entries (length c.lines)
    then c
    else if not (head_ok c.heap)
    then record c { heap = tail_ok c.heap }
    else record {
      lines =
          c.lines
          ++ snprintf (10 + 1 + 20 + 1 + length payload + 1) (entry_line id ts payload) ∷ [];
      heap = tail_ok c.heap;
    }

-- A line that the client sent, with what the process meets while it handles the line: the clock,
-- and the allocator.
pub record Request : Type 0 where
  pub line : Text
  pub now : ℤ
  pub calloc_ok : Bool
  pub heap : List Bool

-- A line that is handled while memory does not run out.
abbrev pub request : ℤ → Text → Request
request now l = record { line = l; now = now; calloc_ok = true; heap = [] }

-- The timestamp and the data of a POST: "<epoch> <data>" with a positive epoch, or else "<data>".
unfoldable pub post_fields : Text → ℤ → ℤ × Text
post_fields payload now = elim (strchr payload space) [
  | none ↦ (now, payload)
  | some (first, rest) ↦
      let client_ts = atol payload in
      if is_positive client_ts then (client_ts, rest) else (now, payload)
]

-- libsodium and the lengths of protocol/protocol.h: a parameter.
pub record Sodium : Type 0 where
  pub enc_pk_len : ℕ
  -- The decoded bytes, if they are base64 and at most as many as the buffer takes.
  pub base642bin : ℕ → Text → Option Text

abbrev pub valid_key : Sodium → Text → Bool
valid_key so key = elim (so.base642bin so.enc_pk_len key) [
  | none ↦ false
  | some epk ↦ length epk == so.enc_pk_len
]

module _ (sq : Sqlite) where
  -- What a line is answered, and whether the loop goes on.
  pub record Reply : Type 0 where
    pub sent : List Text
    pub quit : Bool
    pub storage : Storage sq

  unfoldable pub handle_post : Text → Request → Storage sq → Reply
  handle_post user r st =
      let (ts, payload) = post_fields (drop 5 r.line) r.now in
      let (id, st1) = storage_add_entry sq user payload ts st in
      record {
        sent =
            (if is_negative id
              then codes "FAIL could not save entry"
              else snprintf 32 (codes "OK " ++ print_int id))
            ∷ [];
        quit = false;
        storage = st1;
      }

  unfoldable pub handle_get : Text → Request → Storage sq → Reply
  handle_get user r st =
      let (col, st1) =
        storage_get_entries sq user collect_entry (record { lines = []; heap = r.heap }) st in
      if r.calloc_ok
      then record {
        sent = snprintf 32 (codes "ENTRIES " ++ print_int (pos (length col.lines))) ∷ col.lines;
        quit = false;
        storage = st1;
      }
      else record { sent = codes "FAIL out of memory" ∷ []; quit = false; storage = st }

  unfoldable pub found_reply : ℤ × Storage sq → Reply
  found_reply (rc, st) = record {
    sent = (if eq_ℤ rc (pos 0) then codes "OK" else codes "FAIL entry not found") ∷ [];
    quit = false;
    storage = st;
  }

  unfoldable pub handle_update : Text → Request → Storage sq → Reply
  unfolding found_reply
  handle_update user r st = elim (strchr (drop 7 r.line) space) [
    | none ↦ record { sent = codes "FAIL invalid UPDATE format" ∷ []; quit = false; storage = st }
    | some (uid, payload) ↦ found_reply (storage_update_entry sq user (atoi uid) payload st)
  ]

  unfoldable pub handle_delete : Text → Request → Storage sq → Reply
  unfolding found_reply
  handle_delete user r st = found_reply (storage_delete_entry sq user (atoi (drop 7 r.line)) st)

  -- One round of the command loop.
  unfoldable pub handle_line : Text → Request → Storage sq → Reply
  handle_line user r st =
      if strcmp_eq r.line (codes "QUIT")
      then record { sent = codes "BYE" ∷ []; quit = true; storage = st }
      else if strncmp_eq r.line (codes "POST ")
      then handle_post user r st
      else if strcmp_eq r.line (codes "GET")
      then handle_get user r st
      else if strncmp_eq r.line (codes "UPDATE ")
      then handle_update user r st
      else if strncmp_eq r.line (codes "DELETE ")
      then handle_delete user r st
      else record { sent = codes "FAIL unknown command" ∷ []; quit = false; storage = st }

  -- The command loop, until QUIT or the end of the connection.
  unfoldable pub command_loop : Text → List Request → Storage sq → List Text × Storage sq
  command_loop user [] st = ([], st)
  command_loop user (r ∷ rs) st =
      let reply = handle_line user r st in
      let rest = command_loop user rs reply.storage in
      if reply.quit then (reply.sent, reply.storage) else (reply.sent ++ rest.0, rest.1)

  -- The registration of a user who is not known: what is sent, and whether the session goes on.
  unfoldable pub handle_register :
      Sodium → Text → Option Text → Storage sq → List Text × Bool × Storage sq
  handle_register so user none st = ([], false, st)
  handle_register so user (some line) st =
      let (rc, st1) = storage_register_user sq user (drop 9 line) st in
      if not (strncmp_eq line (codes "REGISTER "))
      then (codes "FAIL expected REGISTER <enc_pubkey_b64>" ∷ [], false, st)
      else if not (valid_key so (drop 9 line))
      then (codes "FAIL invalid encryption key" ∷ [], false, st)
      else if not (eq_ℤ rc (pos 0))
      then (codes "FAIL could not register user" ∷ [], false, st1)
      else (codes "OK" ∷ [], true, st1)

  -- The reply to the authentication: `OK`, or the exchange that registers the user.
  unfoldable pub handle_greeting :
      Sodium → Text → Option Text → Storage sq → List Text × Bool × Storage sq
  handle_greeting so user hello st =
      let (exists, st1) = storage_user_exists sq user st in
      let (sent, go, st2) = handle_register so user hello st1 in
      if not exists then (codes "REGISTER" ∷ sent, go, st2) else (codes "OK" ∷ [], true, st1)

  -- `hello` is what the handler reads if it asks for a registration.
  unfoldable pub diary_handle :
      Sodium → Text → Text → Option Text → List Request → Storage sq → List Text × Storage sq
  diary_handle so db_path user hello requests st =
      let (rc, st1) = storage_init sq db_path st in
      let (greeting, go, st2) = handle_greeting so user hello st1 in
      let (replies, st3) = command_loop user requests st2 in
      if not (eq_ℤ rc (pos 0))
      then (codes "FAIL db" ∷ [], st1)
      else if not go
      then (greeting, storage_close sq st2)
      else (greeting ++ replies, storage_close sq st3)
