-- ===== src/Tests/Screens.antt =====
-- The viewer and the list at concrete inputs; the list on a connection with a script of lines.
use diary.Prelude.{◌-◌, ◌≤◌, ◌≡◌, refl, inl, true, List, [], ◌∷◌, Option, none, some}
use diary.Prelude.{arith, Text, codes, length}
use diary.Prelude.Int.{pos, to_int}
use diary.Libc.Str.{strncmp_eq, strtok_r}
use diary.Libc.Decimal.{atoi, atol}
use diary.Libc.Sort.{insert, qsort}
use diary.Client.Net.{
  Wire, DiaryEntry, net_get_entries, net_delete_entry, read_entries, entry_text,
  entry_cmp_newest_first, update_prefix,
}
use diary.Client.Net as Net
use diary.Client.Ui.Backup.{Files}
use diary.Client.Ui.Editor.{Key, byte, down, enter, mouse, wheel_down, screen_editor, scroll_to}
use diary.Client.Ui.Viewer.{screen_view, screen_view_bounds, screen_view_end}
use diary.Client.Ui.ListScreen.{
  Screen, ListInput, reload_entries, edit, with_selected, command_of, on_command, list_step,
  list_loop, screen_list,
}
use diary.Client.Ui.ListScreen.InRange.{InRange, NoneLost, opened, screen_list-InRange}

screen_view_bounds_example :
    screen_view (mouse wheel_down ∷ down ∷ byte b'k' ∷ byte b'q' ∷ down ∷ []) 10 12 0 ≤ 12 - 10
screen_view_bounds_example =
    screen_view_bounds (mouse wheel_down ∷ down ∷ byte b'k' ∷ byte b'q' ∷ down ∷ []) 10 12 0
      (omega arith)

screen_view_end_example : screen_view (down ∷ down ∷ down ∷ []) 10 12 0 ≡ 12 - 10
screen_view_end_example =
    screen_view_end (down ∷ down ∷ down ∷ []) 10 12 0 (refl, (refl, (refl, tt))) (omega arith)
      (omega arith)

abbrev next_line : List Text → Option Text × List Text
next_line [] = (none, [])
next_line (l ∷ ls) = (some l, ls)

abbrev scripted : Wire
scripted = record {
  Conn = List Text;
  proto_send_line = λ l c. (true, c);
  proto_send_prefixed = λ p b c. (true, c);
  proto_recv_line = λ size c. next_line c;
  proto_recv_line_dyn = next_line;
  proto_seal_new = λ t c. some t;
  proto_unseal_new = λ b. some b;
}

abbrev no_files : Files
no_files name = none

abbrev press : Key → ListInput
press key = record { list_rows = 5; key = key; conf = byte b'y'; edits = []; calloc_ok = true }

-- Two entries; after the edit another client has deleted one.
abbrev shrinking : List Text
shrinking =
    codes "ENTRIES 2"
    ∷ codes "7 100 aa"
    ∷ codes "8 90 bb"
    ∷ codes "ENTRIES 1"
    ∷ codes "7 100 aa"
    ∷ []

stale : Screen scripted
stale =
    screen_list scripted (pos 0) true (press down ∷ press (byte b'e') ∷ press enter ∷ []) shrinking
      no_files

-- The edit leaves the selection behind the array, and Enter reads there.
stale_lem : (stale.selected ≡ 1) × (length stale.entries ≡ 1) × (stale.fault ≡ true)
unfolding stale screen_list list_loop list_step on_command command_of with_selected edit
    reload_entries net_get_entries read_entries Net.read_entry entry_text entry_cmp_newest_first
    qsort insert strncmp_eq strtok_r atoi atol to_int screen_editor scroll_to
stale_lem = (refl, refl, refl)

-- Two entries; the second is edited, and then deleted.
abbrev lasting : List Text
lasting =
    codes "ENTRIES 2"
    ∷ codes "7 100 aa"
    ∷ codes "8 90 bb"
    ∷ codes "ENTRIES 2"
    ∷ codes "7 100 aa"
    ∷ codes "8 90 cc"
    ∷ codes "OK"
    ∷ codes "ENTRIES 1"
    ∷ codes "7 100 aa"
    ∷ []

abbrev keys : List ListInput
keys = press down ∷ press (byte b'e') ∷ press (byte b'd') ∷ press (byte b'q') ∷ []

none_lost : NoneLost scripted (pos 0) keys (opened scripted true lasting no_files)
unfolding list_step on_command command_of with_selected edit reload_entries net_get_entries
    read_entries Net.read_entry entry_text entry_cmp_newest_first qsort insert strncmp_eq strtok_r
    atoi atol to_int screen_editor scroll_to
none_lost = ((λ e. cc), ((λ e. inl (omega arith)), ((λ e. cc), ((λ e. cc), tt))))

screen_list-InRange_example : InRange (screen_list scripted (pos 0) true keys lasting no_files)
screen_list-InRange_example =
    screen_list-InRange scripted (pos 0) true keys lasting no_files none_lost
