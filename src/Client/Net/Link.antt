-- ===== src/Client/Net/Link.antt =====
-- A connection of client/net.c to a server that runs server/client_handler.c.
use diary.Prelude.{ℕ, ◌<◌, ◌≡◌, ◌≢◌, ◌∙◌, true, List, [], ◌∷◌, ◌++◌, some, Text, length}
use diary.Prelude.Int.{ℤ}
use diary.Libc.Str.{Lacks}
use diary.Server.Sqlite.{Sqlite}
use diary.Server.Storage.{Storage}
use diary.Server.Storage.Entries.{rows_of}
use diary.Server.Handler.{request, handle_line, space}
use diary.Client.Net.{Wire}

-- A connection that is up, to the handler of `user`: what a line sent does at the server, and how
-- the lines sent back come in. `storage` is the database as the handler finds it when it gets the
-- next line; between two lines the handlers of other users may work on it, which leave the rows of
-- this user. Text that is sealed has no space, is not empty and can be opened.
pub record Link (w : Wire) (sq : Sqlite) (user : Text) : Type 0 where
  pub storage : w.Conn → Storage sq
  pub incoming : w.Conn → List Text
  pub clock : w.Conn → ℤ
  pub line_sent : (l : Text) (c : w.Conn) → (w.proto_send_line l c).0 ≡ true
  pub line_stored :
      (l : Text) (c : w.Conn)
      → rows_of sq user (storage (w.proto_send_line l c).1)
        ≡ rows_of sq user (handle_line sq user (request (clock c) l) (storage c)).storage
  pub line_answered :
      (l : Text) (c : w.Conn)
      → incoming (w.proto_send_line l c).1
        ≡ incoming c ++ (handle_line sq user (request (clock c) l) (storage c)).sent
  pub prefixed :
      (p b : Text) (c : w.Conn) → w.proto_send_prefixed p b c ≡ w.proto_send_line (p ++ b) c
  pub received :
      (c : w.Conn) (l : Text) (ls : List Text)
      → incoming c ≡ l ∷ ls
      → ((w.proto_recv_line_dyn c).0 ≡ some l)
        × (incoming (w.proto_recv_line_dyn c).1 ≡ ls)
        × (rows_of sq user (storage (w.proto_recv_line_dyn c).1) ≡ rows_of sq user (storage c))
  -- A line that fits the buffer with its NUL.
  pub received_short :
      (size : ℕ) (c : w.Conn) (l : Text) (ls : List Text)
      → incoming c ≡ l ∷ ls
      → length l < size
      → ((w.proto_recv_line size c).0 ≡ some l)
        × (incoming (w.proto_recv_line size c).1 ≡ ls)
        × (rows_of sq user (storage (w.proto_recv_line size c).1) ≡ rows_of sq user (storage c))
  pub sealed :
      (t : Text) (c : w.Conn) (b : Text)
      → w.proto_seal_new t c ≡ some b
      → Lacks space b × (b ≢ []) × (w.proto_unseal_new b ≡ some t)

module _ (w : Wire) (sq : Sqlite) (user : Text) (link : Link w sq user) where
  -- A request and the short line that answers it first.
  pub ask :
      (q : Text) (c : w.Conn) (l : Text) (ls : List Text)
      → link.incoming c ≡ []
      → (handle_line sq user (request (link.clock c) q) (link.storage c)).sent ≡ l ∷ ls
      → length l < 64
      → ((w.proto_recv_line 64 (w.proto_send_line q c).1).0 ≡ some l)
        × (link.incoming (w.proto_recv_line 64 (w.proto_send_line q c).1).1 ≡ ls)
        × (rows_of sq user (link.storage (w.proto_recv_line 64 (w.proto_send_line q c).1).1)
            ≡ rows_of sq user
                (handle_line sq user (request (link.clock c) q) (link.storage c)).storage)
  ask q c l ls quiet answer short =
      let c1 = (w.proto_send_line q c).1 in
      let comes : link.incoming c1 ≡ l ∷ ls = link.line_answered q c ∙ rw (quiet, answer) in
      let (line, rest, kept) = link.received_short 64 c1 l ls comes short in
      (line, rest, kept ∙ link.line_stored q c)
