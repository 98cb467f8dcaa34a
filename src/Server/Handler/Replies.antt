-- ===== src/Server/Handler/Replies.antt =====
-- What server/client_handler.c sends: which lines may answer which request, and what a whole session
-- sends.
pub mod Commands
pub mod Sessions
pub mod Reading
use diary.Prelude.{ℕ, ◌^◌, ◌≤◌, ◌<◌, Bool, true, false, List, [], ◌∷◌, ◌++◌, Option, none, some}
use diary.Prelude.{Text, codes, length}
use diary.Prelude.Int.{pos}
use diary.Libc.Decimal.{print_int}
use diary.Server.Handler.{max_entries}
use diary.Server.Handler.Collect.{entries_header}

-- A request, whether it ends the session, and the lines that answer it.
pub data Turn : Text → Bool → List Text → Type 0 where
  bye : Turn (codes "QUIT") true (codes "BYE" ∷ [])
  fail : (l reason : Text) → Turn l false ((codes "FAIL " ++ reason) ∷ [])
  saved :
      (fields : Text) (id : ℕ)
      → id < 2 ^ 31
      → Turn (codes "POST " ++ fields) false ((codes "OK " ++ print_int (pos id)) ∷ [])
  listed :
      (lines : List Text)
      → length lines ≤ max_entries
      → Turn (codes "GET") false (entries_header (length lines) ∷ lines)
  updated : (fields : Text) → Turn (codes "UPDATE " ++ fields) false (codes "OK" ∷ [])
  deleted : (fields : Text) → Turn (codes "DELETE " ++ fields) false (codes "OK" ∷ [])

-- The requests of a command loop and all that it sends. What stands behind a QUIT is not answered.
pub data Dialogue : List Text → List Text → Type 0 where
  ended : Dialogue [] []
  left : {l : Text} {sent : List Text} (ls : List Text) → Turn l true sent → Dialogue (l ∷ ls) sent
  next :
      {l : Text} {sent more : List Text} {ls : List Text}
      → Turn l false sent
      → Dialogue ls more
      → Dialogue (l ∷ ls) (sent ++ more)

-- The answer to the authentication, the line that a new user registers with, the requests, and all
-- that a session sends.
pub data Session : Option Text → List Text → List Text → Type 0 where
  closed :
      (hello : Option Text) (ls : List Text) (reason : Text)
      → Session hello ls ((codes "FAIL " ++ reason) ∷ [])
  known :
      (hello : Option Text) {ls sent : List Text}
      → Dialogue ls sent
      → Session hello ls (codes "OK" ∷ sent)
  gone : (ls : List Text) → Session none ls (codes "REGISTER" ∷ [])
  refused :
      (line : Text) (ls : List Text) (reason : Text)
      → Session (some line) ls (codes "REGISTER" ∷ (codes "FAIL " ++ reason) ∷ [])
  registered :
      (key : Text) {ls sent : List Text}
      → Dialogue ls sent
      → Session (some (codes "REGISTER " ++ key)) ls (codes "REGISTER" ∷ codes "OK" ∷ sent)
