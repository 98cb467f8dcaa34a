-- ===== src/Tests/Server.antt =====
-- The server's theorems at concrete inputs, over the database in memory.
use diary.Prelude.{◌≡◌, ◌≢◌, refl, inl, true, false, List, [], ◌∷◌, ◌++◌, Option, none, some}
use diary.Prelude.{arith, Text, codes}
use diary.Prelude.Int.{pos, neg}
use diary.Libc.Str.{strcmp_eq, strcmp_eq_iff, strncmp_eq, strchr, snprintf}
use diary.Libc.Decimal.{print_int, atol, atoi}
use diary.Server.Sqlite.{
  Row, IsSqlite, insert_entry, done, has_user, owned, matches, insert_or_ignore, encrypt_pubkey_of,
}
use diary.Server.Sqlite.Memory.{memory, run, memory-IsSqlite}
use diary.Server.Storage.{
  Storage, storage_init, storage_close, storage_user_exists, storage_register_user,
  storage_add_entry, storage_get_entries, storage_update_entry, storage_delete_entry, each_row,
  statement,
}
use diary.Server.Storage.Entries.{rows_of}
use diary.Server.Handler.{
  Request, Sodium, space, post_fields, handle_line, handle_post, handle_get, handle_update,
  handle_delete, handle_register, found_reply, collect_entry, entry_line, handle_greeting,
  command_loop, diary_handle,
}
use diary.Server.Handler.Isolation.{rows_of-diary_handle_ne}
use diary.Server.Handler.Post.{dated, handle_line_post_epoch}
use diary.Server.Handler.Session.{
  IsRejected, rejection, handle_greeting_registers, handle_greeting_keeps_key, diary_handle_rejects,
}

no_true : false ≢ true
no_true e = cc

abbrev pub alice : Text
alice = codes "a1"

abbrev pub bob : Text
bob = codes "b2"

abbrev old_entry : Row
old_entry = record { id = 7; auth_pubkey = bob; timestamp = pos 100; payload = codes "Zm9v" }

-- A database on which Bob is registered and has one entry.
abbrev pub start : Storage (memory true)
start = record {
  file = record {
    users = record { auth_pubkey = bob; encrypt_pubkey = codes "key" } ∷ [];
    entries = old_entry ∷ [];
  };
  handle = true;
}

-- A key is base64 if it is not empty, and the bytes are its own.
abbrev pub sodium : Sodium
sodium = record {
  enc_pk_len = 3;
  base642bin = λ n s. elim s [ [] ↦ none | c ∷ rest ↦ some (c ∷ rest) ];
}

abbrev pub said : Text → Request
said line = record { line = line; now = pos 500; calloc_ok = true; heap = [] }

abbrev script : List Request
script =
    said (codes "POST YmFy")
    ∷ said (codes "POST 1720137600 YmF6")
    ∷ said (codes "GET")
    ∷ said (codes "DELETE 7")
    ∷ said (codes "UPDATE 8 bmV3")
    ∷ said (codes "GET")
    ∷ said (codes "QUIT")
    ∷ said (codes "GET")
    ∷ []

session : List Text
session =
    (diary_handle (memory true) sodium (codes "db") alice (some (codes "REGISTER abc")) script
      start).0

session_lem :
    session
    ≡ codes "REGISTER"
      ∷ codes "OK"
      ∷ codes "OK 8"
      ∷ codes "OK 9"
      ∷ codes "ENTRIES 2"
      ∷ codes "8 500 YmFy"
      ∷ codes "9 1720137600 YmF6"
      ∷ codes "FAIL entry not found"
      ∷ codes "OK"
      ∷ codes "ENTRIES 2"
      ∷ codes "8 500 bmV3"
      ∷ codes "9 1720137600 YmF6"
      ∷ codes "BYE"
      ∷ []
unfolding session diary_handle command_loop handle_line handle_post handle_get handle_update
    handle_delete handle_register handle_greeting collect_entry entry_line post_fields storage_init
    storage_close storage_user_exists storage_register_user storage_add_entry storage_get_entries
    storage_update_entry storage_delete_entry each_row statement run owned matches has_user
    insert_or_ignore strcmp_eq strncmp_eq strchr snprintf print_int atol atoi found_reply
session_lem = refl

abbrev pub laws : IsSqlite (memory true)
laws = memory-IsSqlite true

pub alice_ne : alice ≢ bob
unfolding strcmp_eq
alice_ne e = let same : strcmp_eq alice bob ≡ true = (strcmp_eq_iff alice bob).1 e in no_true same

carol_ne : codes "c3" ≢ bob
unfolding strcmp_eq
carol_ne e =
    let same : strcmp_eq (codes "c3") bob ≡ true = (strcmp_eq_iff (codes "c3") bob).1 e in
    no_true same

abbrev bob_entries : Storage (memory true) → List Row
bob_entries = rows_of (memory true) bob

rows_of-diary_handle_ne_example :
    bob_entries
      (diary_handle
        (memory true)
        sodium
        (codes "db")
        alice
        (some (codes "REGISTER abc"))
        script
        start).1
    ≡ bob_entries start
rows_of-diary_handle_ne_example =
    rows_of-diary_handle_ne (memory true) laws bob alice alice_ne sodium (codes "db")
      (some (codes "REGISTER abc")) script start

abbrev schedule : List (Text × Request)
schedule =
    (alice, said (codes "DELETE 7"))
    ∷ (codes "c3", said (codes "POST YQ=="))
    ∷ (alice, said (codes "UPDATE 7 eA=="))
    ∷ []

-- A date before 1970, in a line that the client does not send.
abbrev early : Request
early = said (codes "POST " ++ (print_int (neg 5) ++ (space ∷ codes "YQ==")))

early_inserted :
    ((memory true).run
      (insert_entry bob
        (dated (neg 5) (codes "YQ==") (pos 500)).0
        (dated (neg 5) (codes "YQ==") (pos 500)).1)
      start.file).0.rc
    ≡ done
unfolding run
early_inserted = refl

handle_line_post_epoch_example :
    rows_of (memory true) bob (handle_line (memory true) bob early start).storage
    ≡ bob_entries start
      ++ record {
        id =
            ((memory true).run
              (insert_entry bob
                (dated (neg 5) (codes "YQ==") (pos 500)).0
                (dated (neg 5) (codes "YQ==") (pos 500)).1)
              start.file).0.rowid;
        auth_pubkey = bob;
        timestamp = (dated (neg 5) (codes "YQ==") (pos 500)).0;
        payload = (dated (neg 5) (codes "YQ==") (pos 500)).1;
      }
        ∷ []
handle_line_post_epoch_example =
    handle_line_post_epoch (memory true) laws bob (codes "YQ==") (neg 5) early start (omega arith)
      refl early_inserted

opened : (storage_init (memory true) (codes "db") start).0 ≡ pos 0
unfolding storage_init statement run
opened = refl

unknown :
    (storage_user_exists (memory true) alice (storage_init (memory true) (codes "db") start).1).0
    ≡ false
unfolding storage_init storage_user_exists statement run has_user strcmp_eq
unknown = refl

abbrev refused : Option Text
refused = some (codes "HELLO")

refused-IsRejected : IsRejected sodium refused
unfolding strncmp_eq
refused-IsRejected = inl refl

diary_handle_rejects_example :
    ((diary_handle (memory true) sodium (codes "db") alice refused script start).0
      ≡ codes "REGISTER" ∷ rejection refused)
    × (bob_entries (diary_handle (memory true) sodium (codes "db") alice refused script start).1
        ≡ bob_entries start)
    × ((diary_handle (memory true) sodium (codes "db") alice refused script start).1.handle ≡ false)
diary_handle_rejects_example =
    diary_handle_rejects (memory true) laws sodium (codes "db") alice refused script start bob
      opened unknown refused-IsRejected

abbrev hello : Option Text
hello = some (codes "REGISTER abc")

registered : (handle_greeting (memory true) sodium alice hello start).1 ≡ true
unfolding handle_greeting handle_register storage_user_exists storage_register_user statement run
    has_user strcmp_eq strncmp_eq
registered = refl

handle_greeting_registers_example :
    has_user alice (handle_greeting (memory true) sodium alice hello start).2.file.users ≡ true
handle_greeting_registers_example =
    handle_greeting_registers (memory true) laws sodium alice hello start registered

bob_key : encrypt_pubkey_of bob start.file.users ≡ some (codes "key")
unfolding encrypt_pubkey_of strcmp_eq
bob_key = refl

handle_greeting_keeps_key_example :
    encrypt_pubkey_of bob (handle_greeting (memory true) sodium alice hello start).2.file.users
    ≡ some (codes "key")
handle_greeting_keeps_key_example =
    handle_greeting_keeps_key (memory true) laws sodium alice hello start bob (codes "key") bob_key
