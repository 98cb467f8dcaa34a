-- ===== src/Tests/Replies.antt =====
-- The replies of sessions at concrete inputs, over the database in memory.
use diary.Prelude.{◌≡◌, true, false, List, [], ◌∷◌, some, Text, codes, length, map}
use diary.Prelude.Int.{pos}
use diary.Server.Sqlite.Memory.{memory}
use diary.Server.Handler.{Request, command_loop, diary_handle}
use diary.Server.Handler.Replies.{Session}
use diary.Server.Handler.Replies.Sessions.{diary_handle-Session}
use diary.Server.Handler.Replies.Reading.{read_replies, sent_each, read_replies-command_loop}
use diary.Tests.Server.{alice, bob, start, sodium, said}

abbrev script : List Request
script =
    said (codes "POST 1720137600 YmF6")
    ∷ said (codes "GET")
    ∷ record { line = codes "GET"; now = pos 500; calloc_ok = false; heap = [] }
    ∷ said (codes "UPDATE 8")
    ∷ said (codes "QUIT")
    ∷ said (codes "GET")
    ∷ []

abbrev lines : List Text
lines = map (λ (r : Request). r.line) script

diary_handle-Session_example :
    Session
      (some (codes "REGISTER abc"))
      lines
      (diary_handle
        (memory true)
        sodium
        (codes "db")
        alice
        (some (codes "REGISTER abc"))
        script
        start).0
diary_handle-Session_example =
    diary_handle-Session (memory true) sodium alice (codes "db") (some (codes "REGISTER abc"))
      script start

read_replies-command_loop_example :
    read_replies
      (length (sent_each (memory true) bob script start))
      (command_loop (memory true) bob script start).0
    ≡ (sent_each (memory true) bob script start, [])
read_replies-command_loop_example = read_replies-command_loop (memory true) bob script start
