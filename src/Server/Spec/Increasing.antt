-- ===== src/Server/Spec/Increasing.antt =====
-- Notes keep their order and their identifiers apart.
use diary.Prelude.{ℕ, ◌≡◌, refl, List}
use diary.Prelude.{Text, ◌==◌, if_cases}
use diary.Prelude.Rising.{Rising, Rising-map, Rising-keep, Rising-append}
use diary.Prelude.Int.{ℤ}
use diary.Server.Spec.{
  Note, Diary, Op, post, get, update, delete, quit, set_note, serve, Fresh, Run, ended, left,
  served,
}

-- Every identifier is below those of the later notes, so no two notes have one identifier.
abbrev pub Increasing : Diary → Type 0
Increasing = Rising (λ n. n.id)

set_note-id : (id : ℕ) (t : Text) (n : Note) → (set_note id t n).id ≡ n.id
set_note-id id t n = if_cases (λ (m : Note). m.id ≡ n.id) (n.id == id) _ n (λ _. refl) (λ _. refl)

Increasing-serve :
    (id : ℕ) (now : ℤ) (op : Op) (d : Diary)
    → Fresh id op d
    → Increasing d
    → Increasing (serve id now op d).1
unfolding serve
Increasing-serve id now (post t text) d fresh h = Rising-append _ d _ h fresh
Increasing-serve id now get d fresh h = h
Increasing-serve id now (update i text) d fresh h =
    Rising-map _ (set_note i text) d (set_note-id i text) h
Increasing-serve id now (delete i) d fresh h = Rising-keep _ _ d h
Increasing-serve id now quit d fresh h = h

-- Whatever a session does, the notes stay in the order of their identifiers, and no two have the
-- same one.
pub Run-Increasing :
    {d d' : Diary} {ops : List (ℤ × Op)} {sent : List Text}
    → Run d ops sent d'
    → Increasing d
    → Increasing d'
Run-Increasing (ended d) h = h
Run-Increasing (left d now ops) h = h
Run-Increasing (served id now op d more fresh run) h =
    Run-Increasing run (Increasing-serve id now op d fresh h)
