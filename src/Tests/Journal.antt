-- ===== src/Tests/Journal.antt =====
-- A sequence of the client's requests at concrete inputs, with Alice's between them.
use diary.Prelude.{◌≡◌, refl, true, List, [], ◌∷◌, some, arith, codes}
use diary.Prelude.Int.{pos}
use diary.Libc.Str.{strcmp_eq}
use diary.Server.Sqlite.{owned}
use diary.Server.Sqlite.Memory.{memory, run, memory-IsSqlite, memory-Works}
use diary.Server.Storage.Entries.{rows_of}
use diary.Client.Net.{DiaryEntry, entry_text, net_update_entry}
use diary.Client.Net.Acknowledged.{Succeeds, Acknowledged, perform-Acknowledged}
use diary.Client.Net.Served.{net_update_entry-served}
use diary.Server.Handler.Change.{has_id}
use diary.Client.Net.Journal.{Action, post, update, delete, entries, Steps}
use diary.Client.Net.Journal.Requests.{perform, journal, Ready}
use diary.Client.Net.Journal.Sequences.{
  perform_all, moments, AllInRange, perform_all-Steps, perform_all-entry_at,
}
use diary.Client.Net.Journal.Kept.{entry_at, last_text}
use diary.Tests.Busy.{busy_wire, busy_link, busy_start}
use diary.Tests.Net.{wire, shift, link, start, bob, start-Fits, start-IsSealed}

abbrev actions : List Action
actions =
    post (codes "new") (pos 900)
    ∷ update 7 (codes "changed")
    ∷ entries
    ∷ delete 8
    ∷ update 9 []
    ∷ []

ready : Ready busy_wire (memory true) bob busy_link busy_start
unfolding busy_link
ready = (refl, start-Fits, start-IsSealed)

range : AllInRange busy_wire (memory true) bob busy_link actions busy_start
unfolding busy_link run
range = (
  (omega arith, omega arith, λ b64 e. omega arith),
  (omega arith, (tt, (omega arith, (omega arith, tt)))),
)

-- The journal of bob's rows.
abbrev before : List DiaryEntry
before = journal busy_wire (memory true) bob busy_link busy_start

abbrev after : List DiaryEntry
after = journal busy_wire (memory true) bob busy_link (perform_all busy_wire actions busy_start).1

perform_all-Steps_example :
    Steps
      (moments busy_wire (memory true) bob busy_link actions busy_start)
      before
      actions
      (perform_all busy_wire actions busy_start).0
      after
perform_all-Steps_example =
    perform_all-Steps busy_wire (memory true) bob busy_link (memory-IsSqlite true) memory-Works
      actions busy_start ready range

old : DiaryEntry
old = record { id = pos 7; timestamp = pos 100; text = codes "old" }

at_start : entry_at 7 before ≡ some old
unfolding busy_link rows_of owned strcmp_eq entry_text old
at_start = refl

perform_all-entry_at_example :
    entry_at 7 after
    ≡ some (record old {
      text = last_text 7 actions (perform_all busy_wire actions busy_start).0 old.text;
    })
perform_all-entry_at_example =
    perform_all-entry_at busy_wire (memory true) bob busy_link (memory-IsSqlite true) memory-Works
      actions busy_start 7 old ready range (refl, (refl, (refl, (refl, (refl, tt))))) at_start

-- The server has the entry of the update.
told : (net_update_entry wire (pos 7) (codes "changed") start).0 ≡ pos 7
unfolding link rows_of owned strcmp_eq has_id
told =
    (net_update_entry-served wire (memory true) bob link (memory-IsSqlite true) memory-Works 7
      (codes "changed") (shift (codes "changed")) start refl refl (omega arith)).0

succeeds : Succeeds (perform wire (update 7 (codes "changed")) start).0
succeeds = rw told λ e. cc

perform-Acknowledged_example :
    Acknowledged wire
      (update 7 (codes "changed"))
      start
      (perform wire (update 7 (codes "changed")) start).0
perform-Acknowledged_example = perform-Acknowledged wire (update 7 (codes "changed")) start succeeds
