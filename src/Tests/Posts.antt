-- ===== src/Tests/Posts.antt =====
-- `diary-client` at concrete inputs, on the connection of `Tests.Net`.
use diary.Prelude.{ℕ, ◌≡◌, ◌<◌, ◌^◌, refl, inl, true, List, [], ◌∷◌, ◌++◌, none, some}
use diary.Prelude.{arith, Text, codes}
use diary.Prelude.Int.{pos}
use diary.Libc.Str.{c_string}
use diary.Libc.Decimal.{print_int, atoi}
use diary.Server.Sqlite.Memory.{memory, run, memory-IsSqlite, memory-Works}
use diary.Server.Storage.Entries.{rows_of}
use diary.Server.Handler.Post.{posted_id}
use diary.Client.Net.{net_post_entry}
use diary.Client.Net.Served.{new_row, post_request}
use diary.Client.Ui.Backup.{Files}
use diary.Client.Main.{
  Calendar, Opt, port_is, entry_at_is, post, Options, default_options, go_on, read_options,
  parse_entry_at, Proto, Meets, main,
}
use diary.Client.Main.Arguments.{IsEntryDate, read_options-IsEntryDate}
use diary.Client.Main.Post.{Connects, main_posts}
use diary.Tests.Net.{Wired, bob, wire, link, start, shift}

-- Every text is a date, and every date is the second 900.
abbrev calendar : Calendar
calendar = record { strptime = λ s format tm. some ([], tm); mktime = λ tm. pos 900 }

abbrev given : List Opt
given = post ∷ port_is (codes "99") ∷ entry_at_is (codes "1970-01-01 00:15") ∷ []

abbrev options : Options
options = record default_options { port = pos 99; entry_at = pos 900; post_mode = true }

reads : read_options calendar default_options given ≡ go_on options
unfolding read_options parse_entry_at atoi
reads = refl

abbrev proto : Proto wire
proto = record {
  Keys = Text × Text;
  proto_init = true;
  proto_load_keys = λ auth enc. some (auth, enc);
  proto_connect = λ keys host port. some start;
  proto_close = λ c. c;
}

-- The standard input is "new".
abbrev meets : Meets wire
meets = record { malloc_ok = true; heap = []; calloc_ok = true; input = codes "new"; terminal = [] }

abbrev connects : Connects wire proto calendar given options start
connects = record {
  started = refl;
  parsed = reads;
  posts = refl;
  keys = (codes "auth.key", codes "enc.key");
  loaded = refl;
  connected = refl;
}

abbrev id : ℕ
id =
    posted_id (memory true) bob
      (post_request wire (memory true) bob link (pos 900) (shift (codes "new")) start) start.storage

small : id < 2 ^ 31
unfolding run
small = omega arith

abbrev done : Wired
done = (net_post_entry wire (c_string (codes "new")) (pos 900) start).1

abbrev no_files : Files
no_files name = none

main_posts_example :
    (main wire proto calendar meets given no_files
      ≡ record { status = 0; out = print_int (pos id) ∷ []; conn = some done; files = no_files })
    × (rows_of (memory true) bob done.storage
        ≡ rows_of (memory true) bob start.storage
          ++ new_row wire (memory true) bob link id (pos 900) (shift (codes "new")) start ∷ [])
unfolding link c_string
main_posts_example =
    main_posts wire proto calendar (memory true) bob link (memory-IsSqlite true) memory-Works meets
      given options start no_files (shift (codes "new")) connects refl refl refl refl (omega arith)
      small

read_options-IsEntryDate_example : IsEntryDate (pos 900)
read_options-IsEntryDate_example =
    read_options-IsEntryDate calendar default_options options given (inl refl) reads
