-- ===== src/Server/Spec/Notes.antt =====
-- The notes of `Server.Spec` and the rows and texts of server/client_handler.c that stand for them.
use diary.Prelude.{
  ℕ, zero, suc, ◌^◌, ◌<◌, ◌≡◌, refl, ap, ◌∙◌, Bool, true, false, not, List, [], ◌∷◌, ◌++◌, map,
  Option, none, some,
}
use diary.Prelude.{arith, Text, codes, take, keep, All, ◌==◌, if_cases}
use diary.Prelude.Int.{ℤ, IsLong}
use diary.Libc.Decimal.{print_int}
use diary.Server.Sqlite.{Row, Sqlite}
use diary.Server.Storage.{Storage}
use diary.Server.Storage.Entries.{rows_of}
use diary.Server.Handler.{space, post_fields}
use diary.Server.Handler.Post.{post_fields-Lacks, post_fields-epoch}
use diary.Server.Handler.Change.{has_id, with_payload, found_text}
use diary.Server.Handler.Collect.{row_line, Fits}
use diary.Server.Spec.{
  Note, Diary, Op, post, get, update, delete, quit, found, has_note, set_note, stamp, print_op,
  note_line, print_answer, is_quit, IsOp,
}

-- The note that a row of the user is.
abbrev pub note : Row → Note
note r = record { id = r.id; timestamp = r.timestamp; payload = r.payload }

-- The abstract view of a user's entries.
abbrev pub diary_of : (sq : Sqlite) → Text → Storage sq → Diary
diary_of sq user st = map note (rows_of sq user st)

pub note-with_payload :
    (id : ℕ) (t : Text) (rs : List Row)
    → map note (map (with_payload id t) rs) ≡ map (set_note id t) (map note rs)
note-with_payload id t [] = refl
note-with_payload id t (r ∷ rs) = ground (arith, note-with_payload id t rs)

pub has_note-has_id : (id : ℕ) (rs : List Row) → has_note id (map note rs) ≡ has_id id rs
unfolding has_id
has_note-has_id id [] = refl
has_note-has_id id (r ∷ rs) = ground (arith, has_note-has_id id rs)

pub note-keep :
    (id : ℕ) (rs : List Row)
    → map note (keep (λ r. not (r.id == id)) rs) ≡ keep (λ n. not (n.id == id)) (map note rs)
note-keep id [] = refl
note-keep id (r ∷ rs) = ground (arith, note-keep id rs)

pub note-take : (n : ℕ) (rs : List Row) → take n (map note rs) ≡ map note (take n rs)
note-take zero rs = refl
note-take (suc n) [] = refl
note-take (suc n) (r ∷ rs) = ap (λ (d : Diary). note r ∷ d) (note-take n rs)

pub line-take :
    (n : ℕ) (rs : List Row) → take n (map row_line rs) ≡ map note_line (map note (take n rs))
line-take zero rs = refl
line-take (suc n) [] = refl
line-take (suc n) (r ∷ rs) = ap (λ (ls : List Text). row_line r ∷ ls) (line-take n rs)

pub All-note :
    (P : ℕ → ℤ → Type 0) (rs : List Row)
    → All (λ r. P r.id r.timestamp) rs
    → All (λ n. P n.id n.timestamp) (map note rs)
All-note P [] h = tt
All-note P (r ∷ rs) h = (h.0, All-note P rs h.1)

-- The identifier is an `int`, the timestamp a `long`.
abbrev pub NoteFits : Note → Type 0
NoteFits n = (n.id < 2 ^ 31) × IsLong n.timestamp

pub All-Fits : (rs : List Row) → All NoteFits (map note rs) → All Fits rs
All-Fits [] h = tt
All-Fits (r ∷ rs) h = (h.0, All-Fits rs h.1)

pub fits-set : (i : ℕ) (t : Text) (d : Diary) → All NoteFits d → All NoteFits (map (set_note i t) d)
fits-set i t [] h = tt
fits-set i t (n ∷ d) h =
    (if_cases NoteFits (n.id == i) _ n (λ _. h.0) (λ _. h.0), fits-set i t d h.1)

pub fits-keep : (i : ℕ) (d : Diary) → All NoteFits d → All NoteFits (keep (λ n. not (n.id == i)) d)
fits-keep i [] h = tt
fits-keep i (n ∷ d) h =
    if_cases (All NoteFits) (not (n.id == i)) _ _ (λ _. (h.0, fits-keep i d h.1))
      (λ _. fits-keep i d h.1)

pub is_quit→quit : (op : Op) → is_quit op ≡ true → op ≡ quit
is_quit→quit quit h = refl
is_quit→quit get h = cc
is_quit→quit (post t text) h = cc
is_quit→quit (update i text) h = cc
is_quit→quit (delete i) h = cc

pub print-found : (b : Bool) → found_text b ∷ [] ≡ print_answer (found b)
unfolding print_answer
print-found true = refl
print-found false = refl

-- The fields of a POST, as the handler reads them.
pub post_text : Option ℤ → Text → Text
post_text none text = text
post_text (some t) text = print_int t ++ (space ∷ text)

pub post_text_lem :
    (t : Option ℤ) (text : Text) (now : ℤ)
    → IsOp (post t text)
    → (print_op (post t text) ≡ codes "POST " ++ post_text t text)
      × (post_fields (post_text t text) now ≡ (stamp t now, text))
unfolding post_text print_op
post_text_lem none text now h = (refl, post_fields-Lacks text now h)
post_text_lem (some t) text now h = (refl, post_fields-epoch t text now h.1 ∙ rw (h.0))
