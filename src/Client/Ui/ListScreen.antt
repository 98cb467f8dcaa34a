-- ===== src/Client/Ui/ListScreen.antt =====
-- The list of client/ui.c, `screen_list`, with the editor and the requests that it calls. A round of
-- its loop takes what the terminal and the system answer in it; drawing is left out. The terminal has
-- at least four rows.
pub mod InRange
pub mod Fetching
pub mod Shows
pub mod Draw
use diary.Prelude.{
  ℕ, zero, suc, ◌+◌, ◌-◌, ◌<◌, Bool, true, false, ◌&&◌, ◌||◌, List, [], ◌∷◌, Option, none, some,
}
use diary.Prelude.{Text, length, get_elem?, ltb, leb, ◌==◌, if◌then◌else◌}
use diary.Prelude.Int.{ℤ, pos, eq_ℤ}
use diary.Client.Service.{Service}
use diary.Client.Net.{Wire, DiaryEntry, net, net_get_entries, net_delete_entry}
use diary.Client.Ui.Backup.{Files}
use diary.Client.Ui.Editor.{
  Key, byte, up, down, enter, mouse, wheel_up, wheel_down, Input, Editor, open_editor, Session,
  scroll_to, screen_editor,
}

-- `status_msg`.
pub data ListStatus : Type 0 where
  silent fetch_error deleted delete_error reloaded : ListStatus

-- What a key does in the list.
pub data Command : Type 0 where
  quit go_up go_down read_entry new_entry edit_entry delete_entry reload nothing : Command

unfoldable pub command_of : Key → Command
command_of (byte b) =
    if b == b'q' || b == b'Q'
    then quit
    else if b == b'k'
    then go_up
    else if b == b'j'
    then go_down
    else if b == b'\n'
    then read_entry
    else if b == b'n' || b == b'N'
    then new_entry
    else if b == b'e' || b == b'E'
    then edit_entry
    else if b == b'd' || b == b'D'
    then delete_entry
    else if b == b'r' || b == b'R'
    then reload
    else nothing
command_of up = go_up
command_of down = go_down
command_of enter = read_entry
command_of (mouse wheel_up) = go_up
command_of (mouse wheel_down) = go_down
command_of _ = nothing

-- conf == 'y' || conf == 'Y'
unfoldable pub confirms : Key → Bool
confirms (byte b) = b == b'y' || b == b'Y'
confirms _ = false

-- What a round meets: the rows of the list, the key, the key that answers the question of a deletion,
-- the rounds of the editor, and whether calloc succeeds.
pub record ListInput : Type 0 where
  pub list_rows : ℕ
  pub key : Key
  pub conf : Key
  pub edits : List Input
  pub calloc_ok : Bool

module _ (w : Wire) where
  -- The state; `fault` tells that an entry was read that is not in the array.
  pub record Screen : Type 0 where
    pub conn : w.Conn
    pub files : Files
    pub entries : List DiaryEntry
    pub selected : ℕ
    pub scroll : ℕ
    pub status : ListStatus
    pub running : Bool
    pub fault : Bool

  unfoldable pub reload_entries : Bool → Screen → Screen
  reload_entries calloc_ok s =
      let (got, c) = net_get_entries w calloc_ok s.conn in
      elim got [
        | none ↦ record s { conn = c; entries = []; status = fetch_error }
        | some es ↦ record s { conn = c; entries = es }
      ]

  -- if (selected >= count) selected = count > 0 ? count - 1 : 0;
  unfoldable pub clamp : Screen → Screen
  clamp s =
      if leb (length s.entries) s.selected then record s { selected = length s.entries - 1 } else s

  -- The editor, on the connection and the directory of the list.
  unfoldable pub edit : ℤ → List Input → ℤ → Option Text → Screen → Screen
  edit g_entry_at keys id text s =
      let done =
        screen_editor (net w) g_entry_at keys (record {
          editor = open_editor id text;
          conn = s.conn;
          files = s.files;
          running = true;
        }) in
      record s { conn = done.conn; files = done.files }

  -- entries[selected], if there are entries.
  unfoldable pub with_selected : (DiaryEntry → Screen) → Screen → Screen
  with_selected f s =
      if ltb 0 (length s.entries)
      then elim (get_elem? s.entries s.selected) [
        | none ↦ record s { fault = true; running = false }
        | some e ↦ f e
      ]
      else s

  -- The request, once it is confirmed, and its message.
  unfoldable pub request_delete : DiaryEntry → Screen → Screen
  request_delete e s =
      let (rc, c) = net_delete_entry w e.id s.conn in
      record s { conn = c; status = if eq_ℤ rc (pos 0) then deleted else delete_error }

  unfoldable pub delete_selected : ListInput → DiaryEntry → Screen → Screen
  delete_selected i e s =
      if confirms i.conf then clamp (reload_entries i.calloc_ok (request_delete e s)) else s

  -- The last entry of the array.
  unfoldable pub select_last : Screen → Screen
  select_last s = record s { selected = length s.entries - 1 }

  -- if (!status_msg[0]) "Reloaded."
  unfoldable pub announce : Screen → Screen
  announce s = elim s.status [ silent ↦ record s { status = reloaded } | _ ↦ s ]

  unfoldable pub on_command : ℤ → ListInput → Command → Screen → Screen
  on_command g i quit s = record s { running = false }
  on_command g i go_up s = if ltb 0 s.selected then record s { selected = s.selected - 1 } else s
  on_command g i go_down s =
      if ltb (s.selected + 1) (length s.entries) then record s { selected = s.selected + 1 } else s
  on_command g i read_entry s = with_selected (λ e. s) s
  on_command g i new_entry s =
      select_last (reload_entries i.calloc_ok (edit g i.edits (pos 0) none s))
  on_command g i edit_entry s =
      with_selected (λ e. reload_entries i.calloc_ok (edit g i.edits e.id (some e.text) s)) s
  on_command g i delete_entry s = with_selected (λ e. delete_selected i e s) s
  on_command g i reload s = announce (clamp (reload_entries i.calloc_ok s))
  on_command g i nothing s = s

  -- One round: the selected entry comes into view, the message is cleared, and a key is read.
  unfoldable pub list_step : ℤ → ListInput → Screen → Screen
  list_step g i s =
      on_command g i (command_of i.key)
        (record s { scroll = scroll_to i.list_rows s.selected s.scroll; status = silent })

  -- The loop.
  unfoldable pub list_loop : ℤ → List ListInput → Screen → Screen
  list_loop g [] s = s
  list_loop g (i ∷ is) s =
      let rest = list_loop g is (list_step g i s) in if s.running then rest else s

  unfoldable pub screen_list : ℤ → Bool → List ListInput → w.Conn → Files → Screen
  screen_list g calloc_ok is conn files = list_loop g is (
      reload_entries calloc_ok (record {
        conn = conn;
        files = files;
        entries = [];
        selected = 0;
        scroll = 0;
        status = silent;
        running = true;
        fault = false;
      }))
