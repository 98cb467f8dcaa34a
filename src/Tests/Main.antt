-- ===== src/Tests/Main.antt =====
-- The programs at concrete inputs: the server on a file system that lists its paths and a database in
-- memory, the client on a connection to a server.
use diary.Prelude.{◌≡◌, refl, true, false, List, [], ◌∷◌, some}
use diary.Prelude.{Text, codes}
use diary.Prelude.Int.{pos}
use diary.Libc.Str.{strcmp_eq, snprintf}
use diary.Libc.Decimal.{atoi}
use diary.Server.Sqlite.{IsSqlite}
use diary.Server.Sqlite.Memory.{memory, run, memory-IsSqlite}
use diary.Server.Storage.{Storage, storage_init}
use diary.Server.Directories.{
  FileSystem, made as created, writable, dirname, ensure_db_dir, mkdirs, make_each, trim_slash,
}
use diary.Server.Main as Server
use diary.Server.Main.Steps.{made, Ready, main-Ready, main_serves}

abbrev plain : FileSystem
plain = record {
  Disk = List Text;
  mkdir = λ p disk. (created, p ∷ disk);
  look = λ p disk. writable;
}

abbrev empty : Storage (memory true)
empty = record { file = record { users = []; entries = [] }; handle = false }

abbrev world : Server.World (memory true) plain
world = record { storage = empty; disk = [] }

-- The key file holds its own name, and the server loop returns at once.
abbrev serving : Server.Proto (memory true) plain
serving = record {
  proto_init = true;
  proto_load_pubkey_hex = λ path disk. some path;
  proto_serve = λ port hex db w. (pos 0, w);
  exists = λ path disk. false;
}

abbrev arguments : List Text
arguments =
    codes "-k" ∷ codes "pub.key" ∷ codes "-p" ∷ codes "99" ∷ codes "-db" ∷ codes "data/d.db" ∷ []

abbrev options : Server.Options
options = record {
  port = pos 99;
  db_path = some (codes "data/d.db");
  pubkey_path = some (codes "pub.key");
}

reads : Server.parse_options arguments ≡ Server.go_on options
unfolding Server.parse_options Server.parse_args strcmp_eq atoi
reads = refl

abbrev memory_laws : IsSqlite (memory true)
memory_laws = memory-IsSqlite true

abbrev made_world : Server.World (memory true) plain
made_world = made (memory true) memory_laws plain serving (codes "data/d.db") world

dir_there : (ensure_db_dir plain (codes "data/d.db") []).0 ≡ pos 0
unfolding ensure_db_dir mkdirs make_each trim_slash snprintf dirname strcmp_eq
dir_there = refl

db_opens : (storage_init (memory true) (codes "data/d.db") empty).0 ≡ pos 0
unfolding storage_init run
db_opens = refl

abbrev ready :
    Ready
      (memory true)
      memory_laws
      plain
      serving
      arguments
      world
      (pos 99)
      (codes "pub.key")
      (codes "data/d.db")
ready = record {
  options = options;
  parsed = reads;
  port_given = refl;
  db_given = refl;
  key_path = codes "pub.key";
  key_given = refl;
  started = refl;
  key_loaded = refl;
  directory = dir_there;
  opens = db_opens;
}

called_there :
    (Server.main (memory true) plain serving arguments world).called
    ≡ some (pos 99, codes "pub.key", codes "data/d.db", made_world)
called_there =
    (main_serves (memory true) memory_laws plain serving arguments world (pos 99) (codes "pub.key")
      (codes "data/d.db") ready).0

main-Ready_example :
    Ready
      (memory true)
      memory_laws
      plain
      serving
      arguments
      world
      (pos 99)
      (codes "pub.key")
      (codes "data/d.db")
    × (made_world ≡ made_world)
main-Ready_example =
    main-Ready (memory true) memory_laws plain serving arguments world (pos 99) (codes "pub.key")
      (codes "data/d.db") made_world called_there
