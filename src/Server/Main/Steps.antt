-- ===== src/Server/Main/Steps.antt =====
-- The steps of `main` in server/main.c.
use mathlib.Core.Option.{some-injective}
use mathlib.Core.Path.{subst}
use diary.Prelude.{
  ◌≡◌, ap, ◌⊎◌, refl, ◌∙◌, Bool-cases, Option-cases, inl, inr, true, false, List, some,
}
use diary.Prelude.{arith, Text, if◌then◌else◌}
use diary.Prelude.Int.{ℤ, pos, eq_ℤ}
use diary.Server.Sqlite.{Sqlite, IsSqlite}
use diary.Server.Storage.{storage_init, storage_close}
use diary.Server.Storage.Entries.{rows_of, rows_of-storage_init, rows_of-storage_close}
use diary.Server.Directories.{FileSystem, ensure_db_dir}
use diary.Server.Main.{
  Options, Parsed, World, Proto, start_server, main_options, main, parse_options, go_on, version,
  usage,
}

pub Parsed-cases : (p : Parsed) → ((o : Options) × (p ≡ go_on o)) ⊎ ((p ≡ version) ⊎ (p ≡ usage))
Parsed-cases (go_on o) = inl (o, refl)
Parsed-cases version = inr (inl refl)
Parsed-cases usage = inr (inr refl)

module _ (sq : Sqlite) (laws : IsSqlite sq) (fs : FileSystem) (pr : Proto sq fs) where
  -- The world that `proto_serve` gets behind a directory and a database that are there.
  abbrev pub made : Text → World sq fs → World sq fs
  made db w = record {
    disk = (ensure_db_dir fs db w.disk).1;
    storage = storage_close sq (storage_init sq db w.storage).1;
  }

  -- Nothing stands in the way of `proto_serve`: the arguments, in order, give the port and a
  -- database, the key file they give holds a key, the directory of the database is there and may be
  -- written, and the database opens.
  pub record Ready (argv : List Text) (w : World sq fs) (port : ℤ) (hex db : Text) : Type 0 where
    pub options : Options
    pub parsed : parse_options argv ≡ go_on options
    pub port_given : options.port ≡ port
    pub db_given : options.db_path ≡ some db
    pub key_path : Text
    pub key_given : options.pubkey_path ≡ some key_path
    pub started : pr.proto_init ≡ true
    pub key_loaded : pr.proto_load_pubkey_hex key_path w.disk ≡ some hex
    pub directory : (ensure_db_dir fs db w.disk).0 ≡ pos 0
    pub opens : (storage_init sq db w.storage).0 ≡ pos 0

  start_serves :
      (hex db : Text) (port : ℤ) (w : World sq fs) (q : ℤ × Text × Text × World sq fs)
      → (start_server sq fs pr hex db port w).called ≡ some q
      → ((ensure_db_dir fs db w.disk).0 ≡ pos 0)
        × ((storage_init sq db w.storage).0 ≡ pos 0)
        × (some (port, hex, db, made db w) ≡ some q)
  unfolding start_server
  start_serves hex db port w q h = ground arith

  start_ready :
      (hex db : Text) (port : ℤ) (w : World sq fs)
      → (ensure_db_dir fs db w.disk).0 ≡ pos 0
      → (storage_init sq db w.storage).0 ≡ pos 0
      → let served = pr.proto_serve port hex db (made db w) in
        ((start_server sq fs pr hex db port w).called ≡ some (port, hex, db, made db w))
        × ((start_server sq fs pr hex db port w).world ≡ served.1)
        × ((start_server sq fs pr hex db port w).status ≡ (if eq_ℤ served.0 (pos 0) then 0 else 1))
  unfolding start_server
  start_ready hex db port w dir opens = ground arith

  options_serve :
      (argv : List Text) (o : Options) (w : World sq fs) (q : ℤ × Text × Text × World sq fs)
      → parse_options argv ≡ go_on o
      → (main_options sq fs pr o w).called ≡ some q
      → Ready argv w q.0 q.1 q.2 × (q.3 ≡ made q.2 w)
  unfolding main_options
  options_serve argv o w q read h = elim (Option-cases o.pubkey_path) [
    | inl e ↦ ground arith
    | inr (key, e1) ↦ elim (Option-cases o.db_path) [
      | inl e ↦ ground arith
      | inr (db, e2) ↦ elim (Bool-cases pr.proto_init) [
        | inr e ↦ ground arith
        | inl e3 ↦ elim (Option-cases (pr.proto_load_pubkey_hex key w.disk)) [
          | inl e ↦ ground arith
          | inr (hex, e4) ↦
              let called : (start_server sq fs pr hex db o.port w).called ≡ some q = ground arith in
              let (dir, opens, at) = start_serves hex db o.port w q called in
              subst
                (λ (p : ℤ × Text × Text × World sq fs).
                  Ready argv w p.0 p.1 p.2 × (p.3 ≡ made p.2 w))
                (some-injective _ _ at)
                (
                  record {
                    options = o;
                    parsed = read;
                    port_given = refl;
                    db_given = e2;
                    key_path = key;
                    key_given = e1;
                    started = e3;
                    key_loaded = e4;
                    directory = dir;
                    opens = opens;
                  },
                  refl,
                )
        ]
      ]
    ]
  ]

  -- `main` comes to `proto_serve` with a port, a key, a database and a world only if everything is
  -- ready for them; the directory is then made and the database opened, brought up and closed.
  pub main-Ready :
      (argv : List Text) (w : World sq fs) (port : ℤ) (hex db : Text) (at : World sq fs)
      → (main sq fs pr argv w).called ≡ some (port, hex, db, at)
      → Ready argv w port hex db × (at ≡ made db w)
  unfolding main
  main-Ready argv w port hex db at h = elim (Parsed-cases (parse_options argv)) [
    | inl (o, e) ↦ options_serve argv o w (port, hex, db, at) e (ground arith)
    | inr (inl e) ↦ ground arith
    | inr (inr e) ↦ ground arith
  ]

  pub main_of_options :
      (argv : List Text) (w : World sq fs) (o : Options)
      → parse_options argv ≡ go_on o
      → main sq fs pr argv w ≡ main_options sq fs pr o w
  unfolding main
  main_of_options argv w o e = rw (main, e) refl

  options_started :
      (w : World sq fs) (o : Options) (port : ℤ) (hex db key : Text)
      → o.pubkey_path ≡ some key
      → o.db_path ≡ some db
      → pr.proto_init ≡ true
      → pr.proto_load_pubkey_hex key w.disk ≡ some hex
      → o.port ≡ port
      → main_options sq fs pr o w ≡ start_server sq fs pr hex db port w
  unfolding main_options start_server
  options_started w o port hex db key e1 e2 e3 e4 e5 = rw (main_options, e1, e2, e3, e4, e5) refl

  main_started :
      (argv : List Text) (w : World sq fs) (port : ℤ) (hex db : Text)
      → Ready argv w port hex db
      → main sq fs pr argv w ≡ start_server sq fs pr hex db port w
  main_started argv w port hex db r =
      main_of_options argv w r.options r.parsed
      ∙ options_started w r.options port hex db r.key_path r.key_given r.db_given r.started
          r.key_loaded r.port_given

  made_closed : (db : Text) (w : World sq fs) → (made db w).storage.handle ≡ false
  unfolding storage_close
  made_closed db w = ground arith

  made_kept :
      (db : Text) (w : World sq fs) (k : Text)
      → rows_of sq k (made db w).storage ≡ rows_of sq k w.storage
  made_kept db w k =
      rows_of-storage_close sq laws k (storage_init sq db w.storage).1
      ∙ rows_of-storage_init sq laws k db w.storage

  -- Where everything is ready `main` gives the port, the key and the database to `proto_serve`, in the
  -- world behind a database opened and closed, whose entries are as they were; the program ends as
  -- the call leaves it, with status 0 if the server loop returned 0 and 1 if it did not.
  pub main_serves :
      (argv : List Text) (w : World sq fs) (port : ℤ) (hex db : Text)
      → Ready argv w port hex db
      → let served = pr.proto_serve port hex db (made db w) in
        ((main sq fs pr argv w).called ≡ some (port, hex, db, made db w))
        × ((made db w).storage.handle ≡ false)
        × ((k : Text) → rows_of sq k (made db w).storage ≡ rows_of sq k w.storage)
        × ((main sq fs pr argv w).world ≡ served.1)
        × ((main sq fs pr argv w).status ≡ (if eq_ℤ served.0 (pos 0) then 0 else 1))
  main_serves argv w port hex db r =
      let same = main_started argv w port hex db r in
      let (call, world, status) = start_ready hex db port w r.directory r.opens in
      (
        ap (λ x. x.called) same ∙ call,
        made_closed db w,
        made_kept db w,
        ap (λ x. x.world) same ∙ world,
        ap (λ x. x.status) same ∙ status,
      )
