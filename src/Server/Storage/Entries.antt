-- ===== src/Server/Storage/Entries.antt =====
-- What the storage operations of server/storage.c do to the entries of each user.
use diary.Prelude.{◌≡◌, ◌≢◌, ◌⊎◌, inl, inr, refl, ap, false, not, List, [], ◌∷◌, ◌++◌}
use diary.Prelude.{map, append-nil, arith, Text, keep, keep-append, codes}
use diary.Prelude.Int.{ℤ, pos, eq_ℤ}
use diary.Libc.Str.{strcmp_eq_iff, strcmp_eq-ne}
use diary.Server.Sqlite.{Row, Rc, row, done, failed, Sqlite, IsSqlite, owned, matches, set_payload}
use diary.Server.Sqlite.{
  Statement, open_file, pragma, busy_timeout, create_schema, select_user, insert_user, insert_entry,
  update_entry, delete_entry, select_entries, writes_entries,
}
use diary.Server.Storage.{
  Storage, EntryCb, statement, storage_init, storage_close, storage_user_exists,
}
use diary.Server.Storage.{storage_register_user, storage_add_entry, storage_get_entries}
use diary.Server.Storage.{storage_update_entry, storage_delete_entry}

pub Rc-cases : (rc : Rc) → (rc ≡ done) ⊎ (rc ≢ done)
Rc-cases done = inl refl
Rc-cases row = inr (cc)
Rc-cases failed = inr (cc)

-- The select of one owner's rows meets the other statements.
module _ (k : Text) where
  pub owned-append : (xs ys : List Row) → owned k (xs ++ ys) ≡ owned k xs ++ owned k ys
  unfolding owned
  owned-append = keep-append _

  pub owned-map_ne :
      (d : Text) (id : ℤ) (u : Text) (rs : List Row)
      → u ≢ k
      → owned k (map (set_payload d id u) rs) ≡ owned k rs
  unfolding owned matches
  owned-map_ne d id u [] h = refl
  owned-map_ne d id u (r ∷ rs) h = ground (
    arith,
    owned-map_ne d id u rs h,
    strcmp_eq_iff r.auth_pubkey u,
    strcmp_eq_iff r.auth_pubkey k,
  )

  pub owned-map_self :
      (d : Text) (id : ℤ) (rs : List Row)
      → owned k (map (set_payload d id k) rs) ≡ map (set_payload d id k) (owned k rs)
  unfolding owned matches
  owned-map_self d id [] = refl
  owned-map_self d id (r ∷ rs) = ground (arith, owned-map_self d id rs)

  pub owned-keep_ne :
      (id : ℤ) (u : Text) (rs : List Row)
      → u ≢ k
      → owned k (keep (λ r. not (matches id u r)) rs) ≡ owned k rs
  unfolding owned matches
  owned-keep_ne id u [] h = refl
  owned-keep_ne id u (r ∷ rs) h =
      ground (
        arith,
        owned-keep_ne id u rs h,
        strcmp_eq_iff r.auth_pubkey u,
        strcmp_eq_iff r.auth_pubkey k,
      )

  pub owned-keep_self :
      (id : ℤ) (rs : List Row)
      → owned k (keep (λ r. not (matches id k r)) rs)
        ≡ keep (λ r. not (eq_ℤ (pos r.id) id)) (owned k rs)
  unfolding owned matches
  owned-keep_self id [] = refl
  owned-keep_self id (r ∷ rs) = ground (arith, owned-keep_self id rs)

-- The rows of a user, in the order of their identifiers.
unfoldable pub rows_of : (sq : Sqlite) → Text → Storage sq → List Row
rows_of sq k st = owned k (sq.entries st.file)

module _ (sq : Sqlite) (laws : IsSqlite sq) where
  module _ (k : Text) where
    pub rows_of-statement :
        (s : Statement) (st : Storage sq)
        → writes_entries s ≡ false
        → rows_of sq k (statement sq s st).1 ≡ rows_of sq k st
    unfolding rows_of statement
    rows_of-statement s st h = ap (owned k) (laws.entries_kept s st.file h)

    pub rows_of-failed :
        (s : Statement) (st : Storage sq)
        → (statement sq s st).0.rc ≢ done
        → rows_of sq k (statement sq s st).1 ≡ rows_of sq k st
    unfolding rows_of statement
    rows_of-failed s st h = ap (owned k) (laws.failed_entries s st.file h)

    -- A write for another user.
    insert_ne :
        (u : Text) (t : ℤ) (d : Text) (st : Storage sq)
        → u ≢ k
        → rows_of sq k (statement sq (insert_entry u t d) st).1 ≡ rows_of sq k st
    insert_ne u t d st h = elim (Rc-cases (statement sq (insert_entry u t d) st).0.rc) [
      | inl e ↦
          unfold rows_of statement owned in
          rw (laws.entry_inserted u t d st.file e, keep-append, strcmp_eq-ne u k h, append-nil)
      | inr e ↦ rows_of-failed (insert_entry u t d) st e
    ]

    update_ne :
        (d : Text) (id : ℤ) (u : Text) (st : Storage sq)
        → u ≢ k
        → rows_of sq k (statement sq (update_entry d id u) st).1 ≡ rows_of sq k st
    update_ne d id u st h = elim (Rc-cases (statement sq (update_entry d id u) st).0.rc) [
      | inl e ↦
          unfold rows_of statement in
          rw (laws.entry_updated d id u st.file e) (owned-map_ne k d id u _ h)
      | inr e ↦ rows_of-failed (update_entry d id u) st e
    ]

    delete_ne :
        (id : ℤ) (u : Text) (st : Storage sq)
        → u ≢ k
        → rows_of sq k (statement sq (delete_entry id u) st).1 ≡ rows_of sq k st
    delete_ne id u st h = elim (Rc-cases (statement sq (delete_entry id u) st).0.rc) [
      | inl e ↦
          unfold rows_of statement in
          rw (laws.entry_deleted id u st.file e) (owned-keep_ne k id u _ h)
      | inr e ↦ rows_of-failed (delete_entry id u) st e
    ]

    pub rows_of-storage_add_entry_ne :
        (u d : Text) (t : ℤ) (st : Storage sq)
        → u ≢ k
        → rows_of sq k (storage_add_entry sq u d t st).1 ≡ rows_of sq k st
    unfolding storage_add_entry
    rows_of-storage_add_entry_ne u d t st h = insert_ne u t d st h

    pub rows_of-storage_update_entry_ne :
        (u : Text) (id : ℤ) (d : Text) (st : Storage sq)
        → u ≢ k
        → rows_of sq k (storage_update_entry sq u id d st).1 ≡ rows_of sq k st
    unfolding storage_update_entry
    rows_of-storage_update_entry_ne u id d st h = update_ne d id u st h

    pub rows_of-storage_delete_entry_ne :
        (u : Text) (id : ℤ) (st : Storage sq)
        → u ≢ k
        → rows_of sq k (storage_delete_entry sq u id st).1 ≡ rows_of sq k st
    unfolding storage_delete_entry
    rows_of-storage_delete_entry_ne u id st h = delete_ne id u st h

    pub rows_of-storage_get_entries :
        {A : Type 0} (u : Text) (cb : EntryCb A) (a : A) (st : Storage sq)
        → rows_of sq k (storage_get_entries sq u cb a st).1 ≡ rows_of sq k st
    unfolding storage_get_entries
    rows_of-storage_get_entries u cb a st = rows_of-statement (select_entries u) st refl

    pub rows_of-storage_user_exists :
        (u : Text) (st : Storage sq)
        → rows_of sq k (storage_user_exists sq u st).1 ≡ rows_of sq k st
    unfolding storage_user_exists
    rows_of-storage_user_exists u st = rows_of-statement (select_user u) st refl

    pub rows_of-storage_register_user :
        (u e : Text) (st : Storage sq)
        → rows_of sq k (storage_register_user sq u e st).1 ≡ rows_of sq k st
    unfolding storage_register_user
    rows_of-storage_register_user u e st = rows_of-statement (insert_user u e) st refl

    pub rows_of-storage_close :
        (st : Storage sq) → rows_of sq k (storage_close sq st) ≡ rows_of sq k st
    unfolding storage_close rows_of
    rows_of-storage_close st = ground arith

    pub rows_of-storage_init :
        (path : Text) (st : Storage sq) → rows_of sq k (storage_init sq path st).1 ≡ rows_of sq k st
    unfolding storage_init rows_of
    rows_of-storage_init path st =
        let d1 = (sq.run (open_file path) st.file).1 in
        let d2 = (sq.run (pragma (codes "PRAGMA journal_mode=WAL;")) d1).1 in
        let d3 = (sq.run (busy_timeout 5000) d2).1 in
        let d4 = (sq.run (pragma (codes "PRAGMA foreign_keys=ON;")) d3).1 in
        ground (
          arith,
          laws.entries_kept (open_file path) st.file refl,
          laws.entries_kept (pragma (codes "PRAGMA journal_mode=WAL;")) d1 refl,
          laws.entries_kept (busy_timeout 5000) d2 refl,
          laws.entries_kept (pragma (codes "PRAGMA foreign_keys=ON;")) d3 refl,
          laws.entries_kept create_schema d4 refl,
        )
