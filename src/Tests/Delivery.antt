-- ===== src/Tests/Delivery.antt =====
-- The editor over the server at concrete inputs.
use diary.Prelude.{◌≡◌, refl, true, false, List, [], ◌∷◌, some, none, arith, codes}
use diary.Prelude.Int.{pos, is_positive}
use diary.Libc.Str.{strcmp_eq}
use diary.Server.Sqlite.{owned}
use diary.Server.Sqlite.Memory.{memory, run, memory-IsSqlite, memory-Works}
use diary.Server.Storage.Entries.{rows_of}
use diary.Client.Net.{net, entry_text, net_update_entry}
use diary.Client.Net.Served.{net_update_entry-served}
use diary.Server.Handler.Change.{has_id}
use diary.Client.Net.Journal.Requests.{journal, Sound}
use diary.Client.Ui.Layout.{get_vpos}
use diary.Client.Ui.Utf8.{u8_is_cont}
use diary.Client.Ui.Editor.{
  on_key, on_byte, refresh, with_room, insert_byte, save, escape, send_entry, is_print, editor_step,
  Input, Key, byte, f2, Session, open_editor, screen_editor,
}
use diary.Client.Ui.Editor.Stored.{HasText, AtServer, SavesInRange}
use diary.Client.Ui.Editor.Once.{screen_editor_adds}
use diary.Prelude.{length, ◌+◌, ◌≤◌, if◌then◌else◌}
use diary.Client.Ui.Editor.Delivered.{screen_editor_delivers}
use diary.Client.Ui.ListScreen.{confirms, ListInput, command_of, reload_entries, screen_list}
use diary.Client.Ui.ListScreen.Fetching.{Shows}
use diary.Client.Ui.ListScreen.Shows.{AllAllowed, opening, screen_list-Shows, screen_list-Grows}
use diary.Client.Net.Journal.Grows.{Grows}
use diary.Prelude.{All}
use diary.Tests.Net.{wire, shift, link, start, bob, start-Fits, start-IsSealed}

abbrev pressed : Key → Input
pressed k = record {
  text_rows = 10;
  cols = 20;
  key = k;
  opens = true;
  written = 4096;
  realloc_ok = true;
}

-- Bob opens his entry, adds an x, saves and leaves.
abbrev keys : List Input
keys = pressed (byte b'x') ∷ pressed f2 ∷ pressed (byte 27) ∷ []

abbrev at_first : Session (net wire)
at_first = record {
  editor = open_editor (pos 7) (some (codes "old"));
  conn = start;
  files = λ name. none;
  running = true;
}

abbrev at_last : Session (net wire)
at_last = screen_editor (net wire) (pos 0) keys at_first

pub start-Sound : Sound wire (memory true) bob link start
unfolding link rows_of owned strcmp_eq
start-Sound = ((refl, start-Fits, start-IsSealed), (tt, tt))

there : AtServer wire (memory true) bob link at_first
unfolding link rows_of owned strcmp_eq entry_text open_editor
there =
    λ clean some_id. (record { id = pos 7; timestamp = pos 100; text = codes "old" }, refl, refl)

-- The server knows the entry.
told : (net_update_entry wire (pos 7) (codes "oldx") start).0 ≡ pos 7
unfolding link rows_of owned strcmp_eq has_id
told =
    (net_update_entry-served wire (memory true) bob link (memory-IsSqlite true) memory-Works 7
      (codes "oldx") (shift (codes "oldx")) start refl refl (omega arith)).0

range : SavesInRange wire (memory true) bob link (pos 0) keys at_first
unfolding editor_step on_key on_byte refresh with_room insert_byte save escape send_entry
    open_editor is_print get_vpos u8_is_cont
range = λ _. (omega arith, λ _. (omega arith, λ _. (rw told (omega arith), tt)))

stops : at_last.running ≡ false
unfolding screen_editor editor_step on_key on_byte refresh with_room insert_byte save escape
    send_entry open_editor is_print get_vpos u8_is_cont
stops = rw told refl

has_one : is_positive at_last.editor.entry_id ≡ true
unfolding screen_editor editor_step on_key on_byte refresh with_room insert_byte save escape
    send_entry open_editor is_print get_vpos u8_is_cont
has_one = rw told refl

screen_editor_delivers_example :
    HasText at_last.editor.entry_id at_last.editor.buf
      (journal wire (memory true) bob link at_last.conn)
screen_editor_delivers_example =
    screen_editor_delivers wire (memory true) bob link (memory-IsSqlite true) memory-Works (pos 0)
      keys at_first start-Sound there range refl (refl, (refl, (refl, tt))) stops has_one

-- Bob writes a new entry and saves it.
abbrev new_keys : List Input
new_keys = pressed (byte b'x') ∷ pressed f2 ∷ []

abbrev at_new : Session (net wire)
at_new = record at_first { editor = open_editor (pos 0) none }

new_range : SavesInRange wire (memory true) bob link (pos 0) new_keys at_new
unfolding link run editor_step on_key on_byte refresh with_room insert_byte save escape send_entry
    open_editor is_print get_vpos u8_is_cont
new_range = λ _. (
  (omega arith, omega arith, λ b64 e. omega arith),
  λ _. ((omega arith, omega arith, λ b64 e. omega arith), tt),
)

screen_editor_adds_example :
    length
      (journal wire (memory true) bob link (screen_editor (net wire) (pos 0) new_keys at_new).conn)
    ≤ length (journal wire (memory true) bob link start)
      + (if is_positive at_new.editor.entry_id then 0 else 1)
screen_editor_adds_example =
    screen_editor_adds wire (memory true) bob link (memory-IsSqlite true) memory-Works (pos 0)
      new_keys at_new start-Sound new_range

abbrev listed : Key → ListInput
listed k = record { list_rows = 10; key = k; conf = byte b'y'; edits = []; calloc_ok = true }

-- Bob moves down, deletes the entry, and asks for the list again.
abbrev list_keys : List ListInput
list_keys = listed (byte b'j') ∷ listed (byte b'd') ∷ listed (byte b'r') ∷ []

allowed :
    AllAllowed wire
      (memory true)
      bob
      link
      (pos 0)
      list_keys
      (reload_entries wire true (opening wire start (λ name. none)))
unfolding command_of
allowed = λ _. (tt, λ _. (tt, λ _. (tt, tt)))

screen_list-Shows_example :
    Shows wire (memory true) bob link (screen_list wire (pos 0) true list_keys start (λ name. none))
screen_list-Shows_example =
    screen_list-Shows wire (memory true) bob link (memory-IsSqlite true) memory-Works (pos 0)
      list_keys start (λ name. none) start-Sound (refl, (refl, (refl, tt))) allowed

-- Bob is asked, and says no.
abbrev timid_keys : List ListInput
timid_keys =
    record (listed (byte b'd')) { conf = byte b'n' }
    ∷ record (listed (byte b'r')) { conf = byte 27 }
    ∷ []

timid : All (λ i. (i.calloc_ok ≡ true) × (confirms i.conf ≡ false)) timid_keys
unfolding confirms
timid = ((refl, refl), ((refl, refl), tt))

timid_allowed :
    AllAllowed wire
      (memory true)
      bob
      link
      (pos 0)
      timid_keys
      (reload_entries wire true (opening wire start (λ name. none)))
unfolding command_of
timid_allowed = λ _. (tt, λ _. (tt, tt))

screen_list-Grows_example : Grows (journal wire (memory true) bob link start) (
    journal wire
      (memory true)
      bob
      link
      (screen_list wire (pos 0) true timid_keys start (λ name. none)).conn)
screen_list-Grows_example =
    screen_list-Grows wire (memory true) bob link (memory-IsSqlite true) memory-Works (pos 0)
      timid_keys start (λ name. none) start-Sound timid timid_allowed
