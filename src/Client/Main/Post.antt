-- ===== src/Client/Main/Post.antt =====
-- `diary-client --post` of client/main.c, up to the database of the server.
use diary.Prelude.{ℕ, ◌<◌, ◌^◌, ◌≡◌, refl, ◌∙◌, true, List, [], ◌∷◌, ◌++◌, some, Text}
use diary.Prelude.{arith}
use diary.Prelude.Int.{ℤ, pos, IsLong}
use diary.Libc.Str.{c_string}
use diary.Libc.Decimal.{print_int}
use diary.Server.Sqlite.{Sqlite, IsSqlite, Works}
use diary.Server.Storage.Entries.{rows_of}
use diary.Server.Handler.Post.{posted_id}
use diary.Client.Net.{Wire, net_post_entry}
use diary.Client.Net.Link.{Link}
use diary.Client.Net.Served.{post_request, new_row, net_post_entry-served}
use diary.Client.Stdin.{read_stdin_lem}
use diary.Client.Ui.Backup.{Files}
use diary.Client.Main.{
  Calendar, Opt, Options, default_options, go_on, read_options, Proto, Meets, post_stdin,
  main_options, main,
}

module _ (w : Wire) (pr : Proto w) (cal : Calendar) where
  -- The options ask for one entry from the standard input, the keys load and the server lets in.
  pub record Connects (opts : List Opt) (o : Options) (conn : w.Conn) : Type 0 where
    pub started : pr.proto_init ≡ true
    pub parsed : read_options cal default_options opts ≡ go_on o
    pub posts : o.post_mode ≡ true
    pub keys : pr.Keys
    pub loaded : pr.proto_load_keys o.auth_sk o.enc_sk ≡ some keys
    pub connected : pr.proto_connect keys o.host o.port ≡ some conn

  Connects_posts :
      (m : Meets w) (opts : List Opt) (o : Options) (conn : w.Conn) (files : Files)
      → Connects opts o conn
      → main w pr cal m opts files ≡ post_stdin w pr m o.entry_at conn files
  unfolding main main_options post_stdin
  Connects_posts m opts o conn files h =
      rw (main, h.started, h.parsed, main_options, h.loaded, h.connected, h.posts) refl

  stdin_posts :
      (m : Meets w) (t : ℤ) (conn : w.Conn) (files : Files) (id : ℕ)
      → m.malloc_ok ≡ true
      → m.heap ≡ []
      → (net_post_entry w (c_string m.input) t conn).0 ≡ pos id
      → post_stdin w pr m t conn files ≡ record {
        status = 0;
        out = print_int (pos id) ∷ [];
        conn = some (pr.proto_close (net_post_entry w (c_string m.input) t conn).1);
        files = files;
      }
  unfolding post_stdin
  stdin_posts m t conn files id ok heap posted =
      let (b, reads, holds) = read_stdin_lem m.input in
      rw (post_stdin, ok, heap, reads, holds.0, posted) (ground arith)

  -- diary-client --post puts the text of its standard input, up to a NUL byte, sealed behind the
  -- entries of the user at the server, under the date given by --entry-at or else the server's clock,
  -- prints the identifier that the server gave it and ends with status 0: if memory does not run out,
  -- the options are taken, the keys load, the server lets the client in with no line on the way and
  -- its database works, the text can be sealed, the date is in the range of `long` and the identifier
  -- fits an `int`.
  pub main_posts :
      (sq : Sqlite) (user : Text) (link : Link w sq user) (laws : IsSqlite sq) (works : Works sq)
      (m : Meets w) (opts : List Opt) (o : Options) (c : w.Conn) (files : Files) (b64 : Text)
      → Connects opts o c
      → m.malloc_ok ≡ true
      → m.heap ≡ []
      → link.incoming c ≡ []
      → w.proto_seal_new (c_string m.input) c ≡ some b64
      → IsLong o.entry_at
      → posted_id sq user (post_request w sq user link o.entry_at b64 c) (link.storage c) < 2 ^ 31
      → let id =
          posted_id sq user (post_request w sq user link o.entry_at b64 c) (link.storage c) in
        let c1 = (net_post_entry w (c_string m.input) o.entry_at c).1 in
        (main w pr cal m opts files ≡ record {
          status = 0;
          out = print_int (pos id) ∷ [];
          conn = some (pr.proto_close c1);
          files = files;
        })
        × (rows_of sq user (link.storage c1)
            ≡ rows_of sq user (link.storage c) ++ new_row w sq user link id o.entry_at b64 c ∷ [])
  main_posts sq user link laws works m opts o c files b64 h ok heap quiet seal long small =
      let (id, stored, _) =
        net_post_entry-served w sq user link laws works (c_string m.input) b64 o.entry_at c quiet
          seal long small in
      (Connects_posts m opts o c files h ∙ stdin_posts m o.entry_at c files _ ok heap id, stored)
