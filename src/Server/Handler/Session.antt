-- ===== src/Server/Handler/Session.antt =====
-- A session of server/client_handler.c: registration, and the database handle.
use diary.Prelude.{◌≡◌, refl, ◌∙◌, ◌⊎◌, inl, inr, true, false, List, [], ◌∷◌, ◌++◌}
use diary.Prelude.{arith, Text, codes, drop, if◌then◌else◌, some, none, Option}
use diary.Prelude.Int.{pos, eq_ℤ}
use diary.Libc.Str.{strcmp_eq_self, strncmp_eq}
use diary.Server.Sqlite.{
  User, Rc, row, done, failed, Sqlite, IsSqlite, has_user, insert_or_ignore, encrypt_pubkey_of,
}
use diary.Server.Sqlite.{select_user, insert_user}
use diary.Server.Storage.{
  Storage, is_row, storage_init, storage_close, storage_user_exists, storage_register_user,
}
use diary.Server.Storage.Entries.{rows_of, Rc-cases, rows_of-storage_init, rows_of-storage_close}
use diary.Server.Handler.Isolation.{rows_of-handle_greeting}
use diary.Server.Handler.{
  Request, Sodium, valid_key, handle_register, handle_greeting, diary_handle,
}

has_user-append :
    (k : Text) (us vs : List User) → has_user k us ≡ true → has_user k (us ++ vs) ≡ true
unfolding has_user
has_user-append k [] vs h = cc
has_user-append k (u ∷ us) vs h = ground (arith, has_user-append k us vs)

has_user-last : (u : User) (us : List User) → has_user u.auth_pubkey (us ++ u ∷ []) ≡ true
unfolding has_user
has_user-last u [] = rw (strcmp_eq_self u.auth_pubkey)
has_user-last u (v ∷ us) = ground (arith, has_user-last u us)

has_user-insert :
    (u : User) (us : List User) → has_user u.auth_pubkey (insert_or_ignore u us) ≡ true
unfolding insert_or_ignore
has_user-insert u us = ground (arith, has_user-last u us)

encrypt_pubkey_of-append :
    (k e : Text) (us vs : List User)
    → encrypt_pubkey_of k us ≡ some e
    → encrypt_pubkey_of k (us ++ vs) ≡ some e
unfolding encrypt_pubkey_of
encrypt_pubkey_of-append k e [] vs h = cc
encrypt_pubkey_of-append k e (u ∷ us) vs h = ground (arith, encrypt_pubkey_of-append k e us vs)

encrypt_pubkey_of-insert :
    (k e : Text) (u : User) (us : List User)
    → encrypt_pubkey_of k us ≡ some e
    → encrypt_pubkey_of k (insert_or_ignore u us) ≡ some e
unfolding insert_or_ignore
encrypt_pubkey_of-insert k e u us h = ground (arith, encrypt_pubkey_of-append k e us (u ∷ []))

-- A session that opened the database closes it, however it ends.
pub diary_handle_closes :
    (sq : Sqlite) (so : Sodium) (db_path user : Text) (hello : Option Text) (rs : List Request)
    (st : Storage sq)
    → (storage_init sq db_path st).0 ≡ pos 0
    → (diary_handle sq so db_path user hello rs st).1.handle ≡ false
unfolding diary_handle storage_close
diary_handle_closes sq so db_path user hello rs st opened = ground arith

-- A registration that is refused: the end of the connection, another line, or a bad key.
abbrev pub IsRejected : Sodium → Option Text → Type 0
IsRejected so none = Unit {0}
IsRejected so (some line) =
    (strncmp_eq line (codes "REGISTER ") ≡ false) ⊎ (valid_key so (drop 9 line) ≡ false)

-- What the refusal sends.
abbrev pub rejection : Option Text → List Text
rejection none = []
rejection (some line) =
    (if strncmp_eq line (codes "REGISTER ")
      then codes "FAIL invalid encryption key"
      else codes "FAIL expected REGISTER <enc_pubkey_b64>")
    ∷ []

register_rejected :
    (sq : Sqlite) (so : Sodium) (user : Text) (hello : Option Text) (st : Storage sq)
    → IsRejected so hello
    → ((handle_register sq so user hello st).0 ≡ rejection hello)
      × ((handle_register sq so user hello st).1 ≡ false)
unfolding handle_register
register_rejected sq so user none st bad = (refl, refl)
register_rejected sq so user (some line) st bad = ground arith

greeting_rejected :
    (sq : Sqlite) (so : Sodium) (user : Text) (hello : Option Text) (st : Storage sq)
    → (storage_user_exists sq user st).0 ≡ false
    → IsRejected so hello
    → ((handle_greeting sq so user hello st).0 ≡ codes "REGISTER" ∷ rejection hello)
      × ((handle_greeting sq so user hello st).1 ≡ false)
unfolding handle_greeting
greeting_rejected sq so user hello st unknown bad =
    let (sent, stop) = register_rejected sq so user hello (storage_user_exists sq user st).1 bad in
    (rw (unknown, sent), rw (unknown, stop))

is_row→row : (rc : Rc) → is_row rc ≡ true → rc ≡ row
is_row→row row h = refl
is_row→row done h = cc
is_row→row failed h = cc

module _ (sq : Sqlite) (laws : IsSqlite sq) where
  exists-has_user :
      (user : Text) (st : Storage sq)
      → (storage_user_exists sq user st).0 ≡ true
      → has_user user (sq.users (storage_user_exists sq user st).1.file) ≡ true
  unfolding storage_user_exists
  exists-has_user user st h =
      rw (laws.users_kept (select_user user) st.file refl)
        (laws.user_found user st.file (is_row→row (sq.run (select_user user) st.file).0.rc h))

  register-has_user :
      (user e : Text) (st : Storage sq)
      → eq_ℤ (storage_register_user sq user e st).0 (pos 0) ≡ true
      → has_user user (sq.users (storage_register_user sq user e st).1.file) ≡ true
  unfolding storage_register_user
  register-has_user user e st h = elim (Rc-cases (sq.run (insert_user user e) st.file).0.rc) [
    | inl ok ↦ rw (laws.user_inserted user e st.file ok) (has_user-insert _ (sq.users st.file))
    | inr failure ↦ absurd (failure (ground arith))
  ]

  greeting_register :
      (so : Sodium) (user : Text) (hello : Option Text) (st : Storage sq)
      → (handle_register sq so user hello st).1 ≡ true
      → has_user user (sq.users (handle_register sq so user hello st).2.file) ≡ true
  unfolding handle_register
  greeting_register so user none st go = cc
  greeting_register so user (some line) st go =
      ground (arith, register-has_user user (drop 9 line) st)

  -- The reply to the authentication lets a session go on to its commands only when the user is in
  -- the table of users, found there or inserted by the registration.
  pub handle_greeting_registers :
      (so : Sodium) (user : Text) (hello : Option Text) (st : Storage sq)
      → (handle_greeting sq so user hello st).1 ≡ true
      → has_user user (sq.users (handle_greeting sq so user hello st).2.file) ≡ true
  unfolding handle_greeting
  handle_greeting_registers so user hello st go = ground (
    arith,
    exists-has_user user st,
    greeting_register so user hello (storage_user_exists sq user st).1,
  )

  register_keeps_key :
      (user e : Text) (st : Storage sq) (k old : Text)
      → encrypt_pubkey_of k (sq.users st.file) ≡ some old
      → encrypt_pubkey_of k (sq.users (storage_register_user sq user e st).1.file) ≡ some old
  unfolding storage_register_user
  register_keeps_key user e st k old h =
      elim (Rc-cases (sq.run (insert_user user e) st.file).0.rc) [
        | inl ok ↦
            rw (laws.user_inserted user e st.file ok)
              (encrypt_pubkey_of-insert k old _ (sq.users st.file) h)
        | inr failure ↦ rw (laws.failed_users (insert_user user e) st.file failure) h
      ]

  greeting_register_keeps_key :
      (so : Sodium) (user : Text) (hello : Option Text) (st : Storage sq) (k old : Text)
      → encrypt_pubkey_of k (sq.users st.file) ≡ some old
      → encrypt_pubkey_of k (sq.users (handle_register sq so user hello st).2.file) ≡ some old
  unfolding handle_register
  greeting_register_keeps_key so user none st k old h = h
  greeting_register_keeps_key so user (some line) st k old h =
      ground (arith, register_keeps_key user (drop 9 line) st k old h)

  exists_keeps_users :
      (user : Text) (st : Storage sq)
      → sq.users (storage_user_exists sq user st).1.file ≡ sq.users st.file
  unfolding storage_user_exists
  exists_keeps_users user st = laws.users_kept (select_user user) st.file refl

  -- A registered encryption key is never replaced, whoever registers and whatever the line says.
  pub handle_greeting_keeps_key :
      (so : Sodium) (user : Text) (hello : Option Text) (st : Storage sq) (k old : Text)
      → encrypt_pubkey_of k (sq.users st.file) ≡ some old
      → encrypt_pubkey_of k (sq.users (handle_greeting sq so user hello st).2.file) ≡ some old
  unfolding handle_greeting
  handle_greeting_keeps_key so user hello st k old h = ground (
    arith,
    exists_keeps_users user st,
    greeting_register_keeps_key so user hello (storage_user_exists sq user st).1 k old,
  )

  -- When the database opens, a user who is not found in the table and sends no valid
  -- registration is told so and served no command: the entries of every user stay as they were,
  -- and the database is closed.
  pub diary_handle_rejects :
      (so : Sodium) (db_path user : Text) (hello : Option Text) (rs : List Request)
      (st : Storage sq) (k : Text)
      → (storage_init sq db_path st).0 ≡ pos 0
      → (storage_user_exists sq user (storage_init sq db_path st).1).0 ≡ false
      → IsRejected so hello
      → ((diary_handle sq so db_path user hello rs st).0 ≡ codes "REGISTER" ∷ rejection hello)
        × (rows_of sq k (diary_handle sq so db_path user hello rs st).1 ≡ rows_of sq k st)
        × ((diary_handle sq so db_path user hello rs st).1.handle ≡ false)
  diary_handle_rejects so db_path user hello rs st k opened unknown bad =
      let st1 = (storage_init sq db_path st).1 in
      let (greeting, stop) = greeting_rejected sq so user hello st1 unknown bad in
      let st2 = (handle_greeting sq so user hello st1).2 in
      unfold diary_handle in
      (
        rw (opened, stop) greeting,
        rw (opened, stop)
            (rows_of-storage_close sq laws k st2
              ∙ rows_of-handle_greeting sq laws k so user hello st1
              ∙ rows_of-storage_init sq laws k db_path st),
        diary_handle_closes sq so db_path user hello rs st opened,
      )
