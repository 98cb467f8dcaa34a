-- ===== src/Tests/Spec.antt =====
-- Sessions and their specification at concrete inputs, over the database in memory.
use diary.Prelude.{refl, true, List, [], ◌∷◌, some, arith, codes, All}
use diary.Prelude.Int.{ℤ, pos}
use diary.Libc.Str.{strcmp_eq}
use diary.Server.Sqlite.{owned}
use diary.Server.Sqlite.Memory.{memory, run, memory-Works}
use diary.Server.Storage.Entries.{rows_of}
use diary.Server.Spec.{Op, post, get, update, quit, Run}
use diary.Server.Spec.Notes.{NoteFits}
use diary.Server.Spec.Refines.{view, loop, IsTimed, AllSmall, Run-command_loop}
use diary.Server.Handler.Isolation.{serve_schedule}
use diary.Server.Spec.Interleaved.{
  Step, own, other, own_ops, schedule_of, answers, AllServed, Run-serve_schedule,
}
use diary.Tests.Server.{alice_ne, alice, bob, start, said, laws}

-- Bob stores a note, changes his old one, and leaves.
abbrev ops : List (ℤ × Op)
ops =
    (pos 500, post (some (pos 900)) (codes "YmFy"))
    ∷ (pos 501, update 7 (codes "bmV3"))
    ∷ (pos 502, get)
    ∷ (pos 503, quit)
    ∷ []

timed : All (IsTimed (memory true) laws memory-Works bob) ops
timed = (
  (omega arith, (refl, omega arith)),
  ((omega arith, omega arith), ((omega arith, tt), ((omega arith, tt), tt))),
)

small : AllSmall (memory true) laws memory-Works bob ops start
unfolding run
small = (omega arith, (tt, (tt, (tt, tt))))

fit : All NoteFits (view (memory true) laws memory-Works bob start)
unfolding rows_of owned strcmp_eq
fit = ((omega arith, omega arith), tt)

Run-command_loop_example :
    Run
      (view (memory true) laws memory-Works bob start)
      ops
      (loop (memory true) laws memory-Works bob ops start).0
      (view
        (memory true)
        laws
        memory-Works
        bob
        (loop (memory true) laws memory-Works bob ops start).1)
Run-command_loop_example =
    Run-command_loop (memory true) laws memory-Works bob ops start timed small fit

-- Alice, who is not registered here, tries to delete Bob's note between his requests.
abbrev steps : List Step
steps =
    own (pos 500) (post (some (pos 900)) (codes "YmFy"))
    ∷ other alice (said (codes "DELETE 7"))
    ∷ other alice (said (codes "POST YmF6"))
    ∷ own (pos 501) get
    ∷ []

steps_served : AllServed (memory true) laws memory-Works bob steps start
unfolding run strcmp_eq
steps_served = (
  (omega arith, (refl, omega arith), refl, omega arith),
  (alice_ne, (alice_ne, ((omega arith, tt, refl, tt), tt))),
)

Run-serve_schedule_example :
    Run
      (view (memory true) laws memory-Works bob start)
      (own_ops steps)
      (answers (memory true) laws memory-Works bob steps start)
      (view
        (memory true)
        laws
        memory-Works
        bob
        (serve_schedule (memory true) (schedule_of bob steps) start))
Run-serve_schedule_example =
    Run-serve_schedule (memory true) laws memory-Works bob steps start steps_served fit
