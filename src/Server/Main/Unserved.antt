-- ===== src/Server/Main/Unserved.antt =====
-- Runs of `main` in server/main.c that end before the server loop.
use diary.Prelude.{◌≡◌, ap, sym, ◌∙◌, Bool-cases, Option-cases, inl, inr, List, [], none}
use diary.Prelude.{arith, Text}
use diary.Prelude.Int.{ℤ}
use diary.Server.Sqlite.{Sqlite, IsSqlite}
use diary.Server.Storage.Entries.{rows_of, rows_of-storage_init}
use diary.Server.Directories.{FileSystem}
use diary.Server.Main.{
  Options, World, Proto, start_server, main_options, main, parse_options, go_on, version, usage,
}
use diary.Server.Main.Steps.{Parsed-cases, main_of_options}

module _ (sq : Sqlite) (laws : IsSqlite sq) (fs : FileSystem) (pr : Proto sq fs) where
  start_unserved :
      (hex db : Text) (port : ℤ) (w : World sq fs) (k : Text)
      → (start_server sq fs pr hex db port w).called ≡ none
      → (rows_of sq k (start_server sq fs pr hex db port w).world.storage ≡ rows_of sq k w.storage)
        × ((start_server sq fs pr hex db port w).status ≡ 1)
  unfolding start_server
  start_unserved hex db port w k h = ground (arith, rows_of-storage_init sq laws k db w.storage)

  options_unserved :
      (o : Options) (w : World sq fs) (k : Text)
      → (main_options sq fs pr o w).called ≡ none
      → (rows_of sq k (main_options sq fs pr o w).world.storage ≡ rows_of sq k w.storage)
        × ((main_options sq fs pr o w).status ≡ 1)
  unfolding main_options
  options_unserved o w k h = elim (Option-cases o.pubkey_path) [
    | inl e ↦ ground arith
    | inr (key, e1) ↦ elim (Option-cases o.db_path) [
      | inl e ↦ ground arith
      | inr (db, e2) ↦ elim (Bool-cases pr.proto_init) [
        | inr e ↦ ground arith
        | inl e3 ↦ elim (Option-cases (pr.proto_load_pubkey_hex key w.disk)) [
          | inl e ↦ ground arith
          | inr (hex, e4) ↦ ground (arith, start_unserved hex db o.port w k)
        ]
      ]
    ]
  ]

  -- A run that does not come to `proto_serve` changes no entry of any user, and its status is 1 but
  -- for -v.
  pub main_unserved :
      (argv : List Text) (w : World sq fs)
      → (main sq fs pr argv w).called ≡ none
      → ((k : Text) → rows_of sq k (main sq fs pr argv w).world.storage ≡ rows_of sq k w.storage)
        × ((main sq fs pr argv w).status
            ≡ (elim (parse_options argv) [ version ↦ 0 | usage ↦ 1 | go_on _ ↦ 1 ]))
  unfolding main
  main_unserved argv w h = elim (Parsed-cases (parse_options argv)) [
    | inl (o, e) ↦
        let same = main_of_options sq laws fs pr argv w o e in
        let unserved : (main_options sq fs pr o w).called ≡ none =
          ap (λ x. x.called) (sym same) ∙ h in
        (
          λ k. ap (λ x. rows_of sq k x.world.storage) same ∙ (options_unserved o w k unserved).0,
          rw (e) (ap (λ x. x.status) same ∙ (options_unserved o w [] unserved).1),
        )
    | inr (inl e) ↦ ground arith
    | inr (inr e) ↦ ground arith
  ]
