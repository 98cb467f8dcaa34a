-- ===== src/Server/Main.antt =====
-- server/main.c: the options and the steps of `main`. The functions of the submodule protocol/ are a
-- parameter, as is the file system. What is printed on stderr is left out.
pub mod Arguments
pub mod Steps
pub mod Unserved
use diary.Prelude.{ℕ, Bool, true, false, not, List, [], ◌∷◌, ◌++◌, Option, none, some}
use diary.Prelude.{Text, codes, if◌then◌else◌}
use diary.Prelude.Int.{ℤ, pos, eq_ℤ}
use diary.Libc.Str.{strcmp_eq}
use diary.Libc.Decimal.{print_int, atoi}
use diary.Server.Sqlite.{Sqlite}
use diary.Server.Storage.{Storage, storage_init, storage_close}
use diary.Server.Directories.{FileSystem, ensure_db_dir}

-- DIARY_PORT
abbrev pub diary_port : ℤ
diary_port = pos 4242

-- DIARY_VERSION
abbrev pub diary_version : Text
diary_version = codes "1.1"

pub record Options : Type 0 where
  pub port : ℤ
  pub db_path : Option Text
  pub pubkey_path : Option Text

-- What the loop over the arguments comes to: the options, or the end of the program.
pub data Parsed : Type 0 where
  go_on : Options → Parsed
  version usage : Parsed

-- The loop, on the arguments from `argv[i]` on.
unfoldable pub parse_args : Options → List Text → Parsed
parse_args o [] = go_on o
parse_args o (a ∷ []) = if strcmp_eq a (codes "-v") then version else usage
parse_args o (a ∷ v ∷ rest) =
    let with_port = parse_args (record o { port = atoi v }) rest in
    let with_key = parse_args (record o { pubkey_path = some v }) rest in
    let with_db = parse_args (record o { db_path = some v }) rest in
    if strcmp_eq a (codes "-p")
    then with_port
    else if strcmp_eq a (codes "-k")
    then with_key
    else if strcmp_eq a (codes "-db")
    then with_db
    else if strcmp_eq a (codes "-v")
    then version
    else usage

unfoldable pub parse_options : List Text → Parsed
unfolding parse_args
parse_options argv =
    parse_args (record { port = diary_port; db_path = none; pubkey_path = none }) argv

module _ (sq : Sqlite) (fs : FileSystem) where
  -- The database and the disk.
  pub record World : Type 0 where
    pub storage : Storage sq
    pub disk : fs.Disk

  -- protocol/crypto.h and protocol/serve.h: whether libsodium starts, the key in a file, and the
  -- server loop, which returns only if it cannot start; and access(path, F_OK).
  pub record Proto : Type 0 where
    pub proto_init : Bool
    pub proto_load_pubkey_hex : Text → fs.Disk → Option Text
    pub proto_serve : ℤ → Text → Text → World → ℤ × World
    pub exists : Text → fs.Disk → Bool

  -- The exit status, the lines printed, the world in the end, and the call of `proto_serve`, if the
  -- program came to it: the port, the key that may connect, the database, and the world then.
  pub record Exit : Type 0 where
    pub status : ℕ
    pub out : List Text
    pub world : World
    pub called : Option (ℤ × Text × Text × World)

  abbrev pub quits : ℕ → World → Exit
  quits n world = record { status = n; out = []; world = world; called = none }

  unfoldable pub start_server : Proto → Text → Text → ℤ → World → Exit
  start_server pr allowed_hex db_path port world =
      let (rc_dir, disk1) = ensure_db_dir fs db_path world.disk in
      let w1 = record world { disk = disk1 } in
      let (rc_db, st1) = storage_init sq db_path world.storage in
      let w2 = record w1 { storage = st1 } in
      let w3 = record w1 { storage = storage_close sq st1 } in
      let (rc_serve, w4) = pr.proto_serve port allowed_hex db_path w3 in
      if not (eq_ℤ rc_dir (pos 0))
      then quits 1 w1
      else if not (eq_ℤ rc_db (pos 0))
      then quits 1 w2
      else record {
        status = if not (eq_ℤ rc_serve (pos 0)) then 1 else 0;
        out =
            ((if not (pr.exists db_path disk1)
                then codes "Database created at "
                else codes "Using database ")
              ++ db_path)
            ∷ (codes "Diary server listening on port " ++ print_int port)
            ∷ [];
        world = w4;
        called = some (port, allowed_hex, db_path, w3);
      }

  -- The steps behind the options.
  unfoldable pub main_options : Proto → Options → World → Exit
  main_options pr o world = elim o.pubkey_path [
    | none ↦ quits 1 world
    | some pubkey_path ↦ elim o.db_path [
      | none ↦ quits 1 world
      | some db_path ↦
          if not pr.proto_init
          then quits 1 world
          else elim (pr.proto_load_pubkey_hex pubkey_path world.disk) [
            | none ↦ quits 1 world
            | some allowed_hex ↦ start_server pr allowed_hex db_path o.port world
          ]
    ]
  ]

  unfoldable pub main : Proto → List Text → World → Exit
  main pr argv world = elim (parse_options argv) [
    | version ↦ record (quits 0 world) { out = (codes "diary-server " ++ diary_version) ∷ [] }
    | usage ↦ quits 1 world
    | go_on o ↦ main_options pr o world
  ]
