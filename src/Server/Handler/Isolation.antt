-- ===== src/Server/Handler/Isolation.antt =====
-- A session of server/client_handler.c and the entries of the other users.
use diary.Prelude.{◌≡◌, ◌≢◌, refl, ◌∙◌, inl, inr, List, [], ◌∷◌, Option, none, some}
use diary.Prelude.{arith, Text, drop, Option-cases, All}
use diary.Libc.Str.{strchr}
use diary.Server.Sqlite.{Row, Sqlite, IsSqlite}
use diary.Server.Storage.{Storage, storage_init, storage_user_exists}
use diary.Server.Storage.Entries.{
  rows_of, rows_of-storage_add_entry_ne, rows_of-storage_update_entry_ne,
  rows_of-storage_delete_entry_ne, rows_of-storage_get_entries, rows_of-storage_user_exists,
  rows_of-storage_register_user, rows_of-storage_init, rows_of-storage_close,
}
use diary.Server.Handler.{
  Request, Sodium, collect_entry, handle_post, handle_get, handle_update, handle_delete,
  handle_line, command_loop, handle_register, handle_greeting, diary_handle, space,
}

-- Greeting and registration touch no entry.
module _ (sq : Sqlite) (laws : IsSqlite sq) (k : Text) (so : Sodium) (user : Text) where
  rows_of-handle_register :
      (hello : Option Text) (st : Storage sq)
      → rows_of sq k (handle_register sq so user hello st).2 ≡ rows_of sq k st
  unfolding handle_register
  rows_of-handle_register none st = refl
  rows_of-handle_register (some line) st =
      ground (arith, rows_of-storage_register_user sq laws k user (drop 9 line) st)

  pub rows_of-handle_greeting :
      (hello : Option Text) (st : Storage sq)
      → rows_of sq k (handle_greeting sq so user hello st).2 ≡ rows_of sq k st
  unfolding handle_greeting
  rows_of-handle_greeting hello st =
      let st1 = (storage_user_exists sq user st).1 in
      ground
        (arith, rows_of-storage_user_exists sq laws k user st, rows_of-handle_register hello st1)

module _ (sq : Sqlite) (laws : IsSqlite sq) (k user : Text) (other : user ≢ k) where
  abbrev view : Storage sq → List Row
  view = rows_of sq k

  view-handle_post :
      (r : Request) (st : Storage sq) → view (handle_post sq user r st).storage ≡ view st
  unfolding handle_post
  view-handle_post r st = rows_of-storage_add_entry_ne sq laws k user _ _ st other

  view-handle_get :
      (r : Request) (st : Storage sq) → view (handle_get sq user r st).storage ≡ view st
  unfolding handle_get
  view-handle_get r st = ground (
    arith,
    rows_of-storage_get_entries sq laws k user collect_entry (record { lines = []; heap = r.heap })
        st,
  )

  view-handle_update :
      (r : Request) (st : Storage sq) → view (handle_update sq user r st).storage ≡ view st
  unfolding handle_update
  view-handle_update r st = elim (Option-cases (strchr (drop 7 r.line) space)) [
    | inl e ↦ rw (e, handle_update)
    | inr (f, e) ↦
        rw (e, handle_update) (rows_of-storage_update_entry_ne sq laws k user _ _ st other)
  ]

  view-handle_delete :
      (r : Request) (st : Storage sq) → view (handle_delete sq user r st).storage ≡ view st
  unfolding handle_delete
  view-handle_delete r st = rows_of-storage_delete_entry_ne sq laws k user _ st other

  -- One line of a client leaves the entries of every other user as they were.
  pub rows_of-handle_line_ne :
      (r : Request) (st : Storage sq) → view (handle_line sq user r st).storage ≡ view st
  unfolding handle_line
  rows_of-handle_line_ne r st = ground (
    arith,
    view-handle_post r st,
    view-handle_get r st,
    view-handle_update r st,
    view-handle_delete r st,
  )

  rows_of-command_loop_ne :
      (rs : List Request) (st : Storage sq) → view (command_loop sq user rs st).1 ≡ view st
  unfolding command_loop
  rows_of-command_loop_ne [] st = refl
  rows_of-command_loop_ne (r ∷ rs) st = ground (
    arith,
    rows_of-handle_line_ne r st,
    rows_of-command_loop_ne rs (handle_line sq user r st).storage,
  )

  -- A whole session, from opening the database to closing it, leaves the entries of every other
  -- user as they were, whatever the client sends and whichever statements fail.
  pub rows_of-diary_handle_ne :
      (so : Sodium) (db_path : Text) (hello : Option Text) (rs : List Request) (st : Storage sq)
      → view (diary_handle sq so db_path user hello rs st).1 ≡ view st
  unfolding diary_handle
  rows_of-diary_handle_ne so db_path hello rs st =
      let st1 = (storage_init sq db_path st).1 in
      let st2 = (handle_greeting sq so user hello st1).2 in
      let st3 = (command_loop sq user rs st2).1 in
      ground (
        arith,
        rows_of-storage_init sq laws k db_path st,
        rows_of-handle_greeting sq laws k so user hello st1,
        rows_of-command_loop_ne rs st2,
        rows_of-storage_close sq laws k st2,
        rows_of-storage_close sq laws k st3,
      )

-- Forked children on one database: each step is one line of one client.
unfoldable pub serve_schedule : (sq : Sqlite) → List (Text × Request) → Storage sq → Storage sq
serve_schedule sq [] st = st
serve_schedule sq ((user, r) ∷ rest) st = serve_schedule sq rest (handle_line sq user r st).storage

-- Under any interleaving of clients, the entries of a user change only by that user's own lines.
pub rows_of-serve_schedule :
    (sq : Sqlite) (laws : IsSqlite sq) (k : Text) (schedule : List (Text × Request))
    (st : Storage sq)
    → All (λ step. step.0 ≢ k) schedule
    → rows_of sq k (serve_schedule sq schedule st) ≡ rows_of sq k st
unfolding serve_schedule
rows_of-serve_schedule sq laws k [] st others = refl
rows_of-serve_schedule sq laws k ((user, r) ∷ rest) st others =
    rows_of-serve_schedule sq laws k rest (handle_line sq user r st).storage others.1
    ∙ rows_of-handle_line_ne sq laws k user others.0 r st
