-- ===== src/Server/Spec.antt =====
-- What server/client_handler.c promises a user: a list of notes, and what each request does to it.
-- Other users, the text of the requests and the tables are out of sight.
pub mod Increasing
pub mod Notes
pub mod Refines
pub mod Interleaved
use diary.Prelude.{
  ℕ, ◌^◌, ◌<◌, ◌≡◌, ◌≢◌, Bool, true, false, not, List, [], ◌∷◌, ◌++◌, map, Option, none, some,
}
use diary.Prelude.{Text, codes, length, take, keep, All, ◌==◌, if◌then◌else◌}
use diary.Prelude.Int.{ℤ, pos, is_positive, IsLong}
use diary.Libc.Str.{Lacks}
use diary.Libc.Decimal.{print_int}
use diary.Server.Handler.{max_entries, space, entry_line}

pub record Note : Type 0 where
  pub id : ℕ
  pub timestamp : ℤ
  pub payload : Text

abbrev pub Diary : Type 0
Diary = List Note

-- A request; a POST may give a timestamp.
pub data Op : Type 0 where
  post : Option ℤ → Text → Op
  get : Op
  update : ℕ → Text → Op
  delete : ℕ → Op
  quit : Op

pub data Answer : Type 0 where
  stored : ℕ → Answer
  notes : Diary → Answer
  found : Bool → Answer
  bye : Answer

abbrev pub has_note : ℕ → Diary → Bool
has_note id [] = false
has_note id (n ∷ d) = if n.id == id then true else has_note id d

abbrev pub set_note : ℕ → Text → Note → Note
set_note id t n = if n.id == id then record n { payload = t } else n

abbrev pub stamp : Option ℤ → ℤ → ℤ
stamp none now = now
stamp (some t) now = t

-- The effect of a request at a time, with the identifier that a POST gets.
unfoldable pub serve : ℕ → ℤ → Op → Diary → Answer × Diary
serve id now (post t text) d =
    (stored id, d ++ record { id = id; timestamp = stamp t now; payload = text } ∷ [])
serve id now get d = (notes (take max_entries d), d)
serve id now (update i text) d = (found (has_note i d), map (set_note i text) d)
serve id now (delete i) d = (found (has_note i d), keep (λ n. not (n.id == i)) d)
serve id now quit d = (bye, d)

-- An identifier for a new note is above those of all notes.
abbrev pub Fresh : ℕ → Op → Diary → Type 0
Fresh id (post t text) d = All (λ n. n.id < id) d
Fresh id _ d = Unit {0}

-- The lines of a request and of an answer.
unfoldable pub print_op : Op → Text
print_op (post none text) = codes "POST " ++ text
print_op (post (some t) text) = codes "POST " ++ (print_int t ++ (space ∷ text))
print_op get = codes "GET"
print_op (update id text) = codes "UPDATE " ++ (print_int (pos id) ++ (space ∷ text))
print_op (delete id) = codes "DELETE " ++ print_int (pos id)
print_op quit = codes "QUIT"

abbrev pub note_line : Note → Text
note_line n = entry_line (pos n.id) n.timestamp n.payload

unfoldable pub print_answer : Answer → List Text
print_answer (stored id) = (codes "OK " ++ print_int (pos id)) ∷ []
print_answer (notes d) = (codes "ENTRIES " ++ print_int (pos (length d))) ∷ map note_line d
print_answer (found true) = codes "OK" ∷ []
print_answer (found false) = codes "FAIL entry not found" ∷ []
print_answer bye = codes "BYE" ∷ []

abbrev pub is_quit : Op → Bool
is_quit quit = true
is_quit _ = false

-- The runs of a session: the requests with the time of each, all that is answered, and the diary
-- before and after. Whatever comes behind a QUIT is not read.
pub data Run : Diary → List (ℤ × Op) → List Text → Diary → Type 0 where
  ended : (d : Diary) → Run d [] [] d
  left :
      (d : Diary) (now : ℤ) (ops : List (ℤ × Op)) → Run d ((now, quit) ∷ ops) (print_answer bye) d
  served :
      (id : ℕ) (now : ℤ) (op : Op) (d : Diary) {ops : List (ℤ × Op)} {sent : List Text} {d' : Diary}
      → is_quit op ≡ false
      → Fresh id op d
      → Run (serve id now op d).1 ops sent d'
      → Run d ((now, op) ∷ ops) (print_answer (serve id now op d).0 ++ sent) d'

-- A request that can be read back: a timestamp is a positive `long`, data without a timestamp has no
-- space, and an identifier is an `int`.
abbrev pub IsOp : Op → Type 0
IsOp (post none text) = Lacks space text
IsOp (post (some t) text) = (is_positive t ≡ true) × IsLong t
IsOp get = Unit {0}
IsOp (update id text) = id < 2 ^ 31
IsOp (delete id) = id < 2 ^ 31
IsOp quit = Unit {0}
