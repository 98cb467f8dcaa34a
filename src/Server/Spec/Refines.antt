-- ===== src/Server/Spec/Refines.antt =====
-- The handler of server/client_handler.c serves a user as `Server.Spec` says.
use mathlib.Core.List.{map-append}
use mathlib.Core.Path.{subst}
use diary.Prelude.{
  ℕ, ◌^◌, ◌<◌, ◌≡◌, refl, sym, ap, ◌∙◌, Bool-cases, inl, inr, true, false, List, [], ◌∷◌, ◌++◌, map,
  Option, none, some,
}
use diary.Prelude.{Text, codes, length-map, length-take, take, All, All-append}
use diary.Prelude.Int.{ℤ, IsLong}
use diary.Libc.Str.{strcmp_eq, strncmp_eq}
use diary.Server.Sqlite.{done, Sqlite, IsSqlite, Works, insert_entry}
use diary.Server.Storage.{Storage}
use diary.Server.Storage.Entries.{rows_of, rows_of-storage_get_entries}
use diary.Server.Handler.{
  Request, request, Reply, max_entries, collect_entry, handle_post, handle_get, found_reply,
  handle_line, command_loop,
}
use diary.Server.Handler.Post.{posted_id, posted_rc, handle_line_post, handle_line-post}
use diary.Server.Handler.Change.{
  has_id, handle_line_update, handle_line_delete, dispatch_update, dispatch_delete,
}
use diary.Server.Handler.Collect.{handle_get_lem}
use diary.Server.Spec.{
  Diary, Op, post, get, update, delete, quit, serve, Fresh, print_op, print_answer, is_quit, Run,
  ended, left, served, IsOp,
}
use diary.Server.Spec.Notes.{
  note, diary_of, note-with_payload, has_note-has_id, note-keep, note-take, line-take, All-note,
  NoteFits, All-Fits, fits-set, fits-keep, is_quit→quit, print-found, post_text, post_text_lem,
}

module _ (sq : Sqlite) (laws : IsSqlite sq) (works : Works sq) (user : Text) where
  abbrev pub view : Storage sq → Diary
  view = diary_of sq user

  abbrev pub reply : ℤ → Op → Storage sq → Reply sq
  reply now op st = handle_line sq user (request now (print_op op)) st

  -- The identifier that SQLite gives a POST fits an `int`.
  abbrev pub Small : ℤ → Op → Storage sq → Type 0
  Small now (post t text) st = posted_id sq user (request now (print_op (post t text))) st < 2 ^ 31
  Small now _ st = Unit {0}

  -- One request is served as the specification serves it.
  abbrev pub Served : ℤ → Op → Storage sq → ℕ → Type 0
  Served now op st id =
      ((reply now op st).sent ≡ print_answer (serve id now op (view st)).0)
      × (view (reply now op st).storage ≡ (serve id now op (view st)).1)
      × ((reply now op st).quit ≡ is_quit op)
      × Fresh id op (view st)

  serves_post :
      (now : ℤ) (t : Option ℤ) (text : Text) (st : Storage sq)
      → IsOp (post t text)
      → Small now (post t text) st
      → Served now (post t text) st (posted_id sq user (request now (print_op (post t text))) st)
  unfolding serve print_answer
  serves_post now t text st h small =
      let (line, fields) = post_text_lem t text now h in
      let r = request now (print_op (post t text)) in
      let inserted : posted_rc sq user r st ≡ done = works.steps_done (insert_entry _ _ _) _ refl in
      let (sent, rows, fresh) =
        handle_line_post sq laws user (post_text t text) r st line inserted small in
      (
        sent,
        rw (rows, map-append, fields) refl,
        rw (handle_line-post sq user (post_text t text) r st line) (unfold handle_post in refl),
        All-note (λ i _. i < posted_id sq user r st) (rows_of sq user st) fresh,
      )

  serves_update :
      (now : ℤ) (i : ℕ) (text : Text) (st : Storage sq)
      → i < 2 ^ 31
      → Served now (update i text) st 0
  unfolding serve print_op
  serves_update now i text st h =
      let r = request now (print_op (update i text)) in
      let (sent, rows) = handle_line_update sq laws works user i text r st h refl in
      (
        sent
            ∙ print-found (has_id i (rows_of sq user st))
            ∙ rw (has_note-has_id i (rows_of sq user st)),
        rw rows (note-with_payload i text (rows_of sq user st)),
        rw (dispatch_update sq laws works user i text r st h refl) (unfold found_reply in refl),
        tt,
      )

  serves_delete : (now : ℤ) (i : ℕ) (st : Storage sq) → i < 2 ^ 31 → Served now (delete i) st 0
  unfolding serve print_op
  serves_delete now i st h =
      let r = request now (print_op (delete i)) in
      let (sent, rows) = handle_line_delete sq laws works user i r st h refl in
      (
        sent
            ∙ print-found (has_id i (rows_of sq user st))
            ∙ rw (has_note-has_id i (rows_of sq user st)),
        rw rows (note-keep i (rows_of sq user st)),
        rw (dispatch_delete sq laws works user i r st h refl) (unfold found_reply in refl),
        tt,
      )

  get_line :
      (now : ℤ) (st : Storage sq)
      → reply now get st ≡ handle_get sq user (request now (codes "GET")) st
  unfolding handle_line print_op strcmp_eq strncmp_eq
  get_line now st = refl

  serves_get : (now : ℤ) (st : Storage sq) → All NoteFits (view st) → Served now get st 0
  unfolding serve print_answer
  serves_get now st h =
      let rows = rows_of sq user st in
      let r = request now (codes "GET") in
      (
        rw (get_line now st, handle_get_lem sq laws works user r st refl refl (All-Fits rows h))
            (rw
              (
                line-take max_entries rows,
                note-take max_entries rows,
                length-map note (take max_entries rows),
                length-take max_entries rows,
              )
              refl),
        rw (get_line now st) (
            unfold handle_get in
            ap (map note) (rows_of-storage_get_entries sq laws user user collect_entry _ st)),
        rw (get_line now st) (unfold handle_get in refl),
        tt,
      )

  serves_quit : (now : ℤ) (st : Storage sq) → Served now quit st 0
  unfolding serve print_answer print_op handle_line strcmp_eq
  serves_quit now st = (refl, refl, refl, tt)

  -- The identifier of a request: that of its POST.
  unfoldable pub id_of : ℤ → Op → Storage sq → ℕ
  id_of now (post t text) st = posted_id sq user (request now (print_op (post t text))) st
  id_of now _ st = 0

  pub serves :
      (now : ℤ) (op : Op) (st : Storage sq)
      → IsOp op
      → Small now op st
      → All NoteFits (view st)
      → Served now op st (id_of now op st)
  unfolding id_of
  serves now (post t text) st h small fits = serves_post now t text st h small
  serves now get st h small fits = serves_get now st fits
  serves now (update i text) st h small fits = serves_update now i text st h
  serves now (delete i) st h small fits = serves_delete now i st h
  serves now quit st h small fits = serves_quit now st

  pub NoteFits-serve :
      (now : ℤ) (op : Op) (st : Storage sq) (d : Diary)
      → IsLong now
      → IsOp op
      → Small now op st
      → All NoteFits d
      → All NoteFits (serve (id_of now op st) now op d).1
  unfolding serve id_of
  NoteFits-serve now (post none text) st d long h small fits =
      All-append NoteFits d _ fits ((small, long), tt)
  NoteFits-serve now (post (some t) text) st d long h small fits =
      All-append NoteFits d _ fits ((small, h.1), tt)
  NoteFits-serve now get st d long h small fits = fits
  NoteFits-serve now (update i text) st d long h small fits = fits-set i text d fits
  NoteFits-serve now (delete i) st d long h small fits = fits-keep i d fits
  NoteFits-serve now quit st d long h small fits = fits

  -- The identifiers of a whole run.
  abbrev pub AllSmall : List (ℤ × Op) → Storage sq → Type 0
  AllSmall [] st = Unit {0}
  AllSmall ((now, op) ∷ ops) st = Small now op st × AllSmall ops (reply now op st).storage

  -- A request at a time that fits a `long`.
  abbrev pub IsTimed : ℤ × Op → Type 0
  IsTimed (now, op) = IsLong now × IsOp op

  abbrev pub request_of : ℤ × Op → Request
  request_of (now, op) = request now (print_op op)

  abbrev pub loop : List (ℤ × Op) → Storage sq → List Text × Storage sq
  loop ops st = command_loop sq user (map request_of ops) st

  loop_next :
      (now : ℤ) (op : Op) (ops : List (ℤ × Op)) (st : Storage sq)
      → (reply now op st).quit ≡ false
      → loop ((now, op) ∷ ops) st ≡ (
        (reply now op st).sent ++ (loop ops (reply now op st).storage).0,
        (loop ops (reply now op st).storage).1,
      )
  unfolding command_loop
  loop_next now op ops st on = rw on

  loop_quit :
      (now : ℤ) (op : Op) (ops : List (ℤ × Op)) (st : Storage sq)
      → (reply now op st).quit ≡ true
      → loop ((now, op) ∷ ops) st ≡ ((reply now op st).sent, (reply now op st).storage)
  unfolding command_loop
  loop_quit now op ops st off = rw off

  Run-quit :
      (now : ℤ) (ops : List (ℤ × Op)) (st : Storage sq)
      → Run
          (view st)
          ((now, quit) ∷ ops)
          (loop ((now, quit) ∷ ops) st).0
          (view (loop ((now, quit) ∷ ops) st).1)
  Run-quit now ops st =
      let (sent, after, off, _) = serves_quit now st in
      rw (loop_quit now quit ops st off, sent, after) (unfold serve in left (view st) now ops)

  -- The handler's loop refines the specification: on a database that works, every session of
  -- requests that can be read back is a run of the specification on the user's notes, with the lines
  -- that the handler sends as its answers and the notes that it leaves in the end, as long as
  -- identifiers fit an `int` and timestamps a `long`, and memory does not run out.
  pub Run-command_loop :
      (ops : List (ℤ × Op)) (st : Storage sq)
      → All IsTimed ops
      → AllSmall ops st
      → All NoteFits (view st)
      → Run (view st) ops (loop ops st).0 (view (loop ops st).1)
  Run-command_loop [] st ok small fits = unfold command_loop in ended (view st)
  Run-command_loop ((now, op) ∷ ops) st ok small fits = elim (Bool-cases (is_quit op)) [
    | inl over ↦
        subst
          (λ (o : Op).
            Run (view st) ((now, o) ∷ ops) (loop ((now, o) ∷ ops) st).0
              (view (loop ((now, o) ∷ ops) st).1))
          (sym (is_quit→quit op over)) (Run-quit now ops st)
    | inr more ↦
        let (sent, after, on, fresh) = serves now op st ok.0.1 small.0 fits in
        let fits' : All NoteFits (view (reply now op st).storage) =
          rw after (NoteFits-serve now op st (view st) ok.0.0 ok.0.1 small.0 fits) in
        let rest = Run-command_loop ops (reply now op st).storage ok.1 small.1 fits' in
        rw (loop_next now op ops st (on ∙ more), sent)
          (served (id_of now op st) now op (view st) more fresh (rw (← after) rest))
  ]
