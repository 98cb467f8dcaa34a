-- ===== src/Server/Spec/Interleaved.antt =====
-- A user of server/client_handler.c among others: the server forks a process per client, and the lines
-- of all of them reach the database in any order.
use diary.Prelude.{map, ◌≡◌, ◌≢◌, ap, false, List, [], ◌∷◌, ◌++◌, Text, All}
use diary.Prelude.Int.{ℤ, IsLong}
use diary.Server.Sqlite.{Sqlite, IsSqlite, Works}
use diary.Server.Storage.{Storage}
use diary.Server.Handler.{Request, request, handle_line}
use diary.Server.Handler.Isolation.{rows_of-handle_line_ne, serve_schedule}
use diary.Server.Spec.{Op, print_op, is_quit, Run, ended, served, IsOp}
use diary.Server.Spec.Notes.{note, NoteFits}
use diary.Server.Spec.Refines.{view, reply, Small, id_of, serves, NoteFits-serve}

-- A line of the user, which is a request, or any line of another client.
pub data Step : Type 0 where
  own : ℤ → Op → Step
  other : Text → Request → Step

-- The requests of the user alone.
abbrev pub own_ops : List Step → List (ℤ × Op)
own_ops [] = []
own_ops (own now op ∷ steps) = (now, op) ∷ own_ops steps
own_ops (other u r ∷ steps) = own_ops steps

-- All lines, as the server meets them.
abbrev pub schedule_of : Text → List Step → List (Text × Request)
schedule_of user [] = []
schedule_of user (own now op ∷ steps) = (user, request now (print_op op)) ∷ schedule_of user steps
schedule_of user (other u r ∷ steps) = (u, r) ∷ schedule_of user steps

module _ (sq : Sqlite) (laws : IsSqlite sq) (works : Works sq) (user : Text) where
  -- What the user is sent.
  abbrev pub answers : List Step → Storage sq → List Text
  answers [] st = []
  answers (own now op ∷ steps) st =
      let r = handle_line sq user (request now (print_op op)) st in
      r.sent ++ answers steps r.storage
  answers (other u r ∷ steps) st = answers steps (handle_line sq u r st).storage

  -- The user's requests can be read back and are none to leave, and the identifiers that they get fit
  -- an `int`; the others are others.
  abbrev pub AllServed : List Step → Storage sq → Type 0
  AllServed [] st = Unit {0}
  AllServed (own now op ∷ steps) st =
      (IsLong now × IsOp op × (is_quit op ≡ false) × Small sq laws works user now op st)
      × AllServed steps (handle_line sq user (request now (print_op op)) st).storage
  AllServed (other u r ∷ steps) st = (u ≢ user) × AllServed steps (handle_line sq u r st).storage

  -- Among any number of other clients, who send whatever they like in any order, a user is served as
  -- if alone: the lines sent to the user and the notes left are those of a run of the specification
  -- on the user's own requests, on a database that works, as long as these can be read back and are no
  -- QUIT, identifiers fit an `int` and timestamps a `long`, and memory does not run out in them.
  pub Run-serve_schedule :
      (steps : List Step) (st : Storage sq)
      → AllServed steps st
      → All NoteFits (view sq laws works user st)
      → Run
          (view sq laws works user st)
          (own_ops steps)
          (answers steps st)
          (view sq laws works user (serve_schedule sq (schedule_of user steps) st))
  unfolding serve_schedule
  Run-serve_schedule [] st ok fits = ended (view sq laws works user st)
  Run-serve_schedule (own now op ∷ steps) st ((long, readable, stays, small), ok) fits =
      let st1 = (reply sq laws works user now op st).storage in
      let (sent, after, on, fresh) = serves sq laws works user now op st readable small fits in
      let fits1 : All NoteFits (view sq laws works user st1) = rw after (
        NoteFits-serve sq laws works user now op st (view sq laws works user st) long readable small
          fits) in
      let rest = Run-serve_schedule steps st1 ok fits1 in
      rw sent (
        served (id_of sq laws works user now op st) now op (view sq laws works user st) stays fresh
          (rw (← after) rest))
  Run-serve_schedule (other u r ∷ steps) st (ne, ok) fits =
      let st1 = (handle_line sq u r st).storage in
      let same : view sq laws works user st1 ≡ view sq laws works user st =
        ap (map note) (rows_of-handle_line_ne sq laws user u ne r st) in
      rw (← same) (Run-serve_schedule steps st1 ok (rw same fits))
