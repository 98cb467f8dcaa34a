-- ===== src/Client/Ui/Editor.antt =====
-- The editor of client/ui.c, `screen_editor`. A round of its loop takes what the terminal and the
-- system answer in it; drawing is left out. The terminal has at least two rows and one column.
pub mod Bytes
pub mod Valid
pub mod Invariant
pub mod Saving
pub mod Runs
pub mod Posts
pub mod View
pub mod Stored
pub mod Delivered
pub mod Once
use diary.Prelude.{
  ℕ, zero, suc, ◌+◌, ◌-◌, ◌*◌, Bool, true, false, not, ◌&&◌, ◌||◌, List, [], ◌∷◌, ◌++◌, Option,
  none, some,
}
use diary.Prelude.{Text, length, take, drop, ltb, leb, ◌==◌, if◌then◌else◌}
use diary.Prelude.Int.{ℤ, pos, neg, is_positive, eq_ℤ}
use diary.Client.Service.{Service}
use diary.Client.Ui.Utf8.{u8_char_len, char_start}
use diary.Client.Ui.Layout.{newline, get_vpos, vpos_to_idx}
use diary.Client.Ui.Backup.{Files, backup_write, backup_remove}

-- The result of `getmouse` on a mouse event: an error or another button is `no_wheel`.
pub data Wheel : Type 0 where
  wheel_up wheel_down no_wheel : Wheel

-- What `wgetch` returns: ERR after the timeout, a byte below 256, a key of ncurses, or another code.
pub data Key : Type 0 where
  timeout : Key
  byte : ℕ → Key
  f2 up down left right home end backspace delete enter : Key
  mouse : Wheel → Key
  other : Key

-- What a round meets: the size of the terminal (it has `text_rows + 2` rows), the key, whether the
-- backup file can be opened, how many bytes can be written to it, and whether `realloc` succeeds.
pub record Input : Type 0 where
  pub text_rows : ℕ
  pub cols : ℕ
  pub key : Key
  pub opens : Bool
  pub written : ℕ
  pub realloc_ok : Bool

-- `status_msg`.
pub data Status : Type 0 where
  blank no_changes saved save_failed unsaved : Status

pub record Editor : Type 0 where
  pub entry_id : ℤ
  pub buf : Text
  pub buf_sz : ℕ
  pub cursor : ℕ
  pub view_top : ℕ
  pub dirty : ℤ
  pub status : Status

abbrev pub scroll_lines : ℕ
scroll_lines = 3

abbrev pub is_zero : ℤ → Bool
is_zero z = eq_ℤ z (pos 0)

-- while (buf_len + 1 >= buf_sz) buf_sz *= 2;
unfoldable pub grow : ℕ → ℕ → ℕ → ℕ
grow zero len sz = sz
grow (suc fuel) len sz = let rest = grow fuel len (sz * 2) in if leb sz (len + 1) then rest else sz

unfoldable pub open_editor : ℤ → Option Text → Editor
unfolding grow
open_editor entry_id none = record {
  entry_id = entry_id;
  buf = [];
  buf_sz = 4096;
  cursor = 0;
  view_top = 0;
  dirty = pos 0;
  status = blank;
}
open_editor entry_id (some text) = record {
  entry_id = entry_id;
  buf = text;
  buf_sz = grow (length text) (length text) 4096;
  cursor = length text;
  view_top = 0;
  dirty = pos 0;
  status = blank;
}

-- The first row shown, so that the row of the cursor is shown.
unfoldable pub scroll_to : ℕ → ℕ → ℕ → ℕ
scroll_to text_rows cur_vrow view_top =
    let top = if ltb cur_vrow view_top then cur_vrow else view_top in
    if leb (top + text_rows) cur_vrow then cur_vrow + 1 - text_rows else top

-- isprint(ch), of a byte.
unfoldable pub is_print : ℕ → Bool
is_print c = leb 32 c && leb c 126

unfoldable pub insert_byte : ℕ → Editor → Editor
insert_byte b e = record e {
  buf = take e.cursor e.buf ++ (b ∷ drop e.cursor e.buf);
  cursor = e.cursor + 1;
  dirty = pos 1;
}

-- The bytes from `start` up to `stop` are taken out.
unfoldable pub remove_bytes : ℕ → ℕ → Text → Text
remove_bytes start stop buf = take start buf ++ drop stop buf

unfoldable pub erase_back : Editor → Editor
unfolding remove_bytes
erase_back e =
    let start = char_start e.buf (e.cursor - 1) in
    if ltb 0 e.cursor
    then record e { buf = remove_bytes start e.cursor e.buf; cursor = start; dirty = pos 1 }
    else e

unfoldable pub erase_forward : Editor → Editor
unfolding remove_bytes
erase_forward e =
    if ltb e.cursor (length e.buf)
    then record e {
      buf = remove_bytes e.cursor (e.cursor + u8_char_len e.buf e.cursor) e.buf;
      dirty = pos 1;
    }
    else e

-- The moves of the cursor and of the view; `(r, c)` is the position of the cursor.
unfoldable pub navigate : Key → ℕ → ℕ × ℕ → Editor → Editor
navigate up cols (r, c) e =
    if ltb 0 r then record e { cursor = vpos_to_idx e.buf cols (r - 1) c } else e
navigate down cols (r, c) e = record e { cursor = vpos_to_idx e.buf cols (r + 1) c }
navigate left cols (r, c) e =
    if ltb 0 e.cursor then record e { cursor = char_start e.buf (e.cursor - 1) } else e
navigate right cols (r, c) e =
    if ltb e.cursor (length e.buf)
    then record e { cursor = e.cursor + u8_char_len e.buf e.cursor }
    else e
navigate home cols (r, c) e = record e { cursor = vpos_to_idx e.buf cols r 0 }
navigate end cols (r, c) e = record e { cursor = vpos_to_idx e.buf cols r cols }
navigate (mouse wheel_up) cols (r, c) e = record e { view_top = e.view_top - scroll_lines }
navigate (mouse wheel_down) cols (r, c) e = record e { view_top = e.view_top + scroll_lines }
navigate _ cols (r, c) e = e

module _ (sv : Service) where
  -- The editor with the connection and the directory, and whether its loop goes on.
  pub record Session : Type 0 where
    pub editor : Editor
    pub conn : sv.Conn
    pub files : Files
    pub running : Bool

  -- A change of the text, after the buffer has grown if it has to; the loop ends if it cannot.
  unfoldable pub with_room : Input → (Editor → Editor) → Session → Session
  with_room i edit s =
      if leb s.editor.buf_sz (length s.editor.buf + 1)
      then if i.realloc_ok
        then record s { editor = edit (record s.editor { buf_sz = s.editor.buf_sz * 2 }) }
        else record s { running = false }
      else record s { editor = edit s.editor }

  -- The call that saves: an UPDATE of an entry that has an identifier, else a POST.
  unfoldable pub send_entry : ℤ → Editor → sv.Conn → ℤ × sv.Conn
  send_entry g_entry_at e conn =
      if is_positive e.entry_id
      then sv.net_update_entry e.entry_id e.buf conn
      else sv.net_post_entry e.buf g_entry_at conn

  unfoldable pub save : ℤ → Input → Session → Session
  unfolding send_entry
  save g_entry_at i s =
      let e = s.editor in
      let name = if is_positive e.entry_id then e.entry_id else pos 0 in
      let files1 = backup_write name e.buf i.opens i.written s.files in
      let (new_id, conn1) = send_entry g_entry_at e s.conn in
      if is_zero e.dirty && is_positive e.entry_id
      then record s { editor = record e { status = no_changes } }
      else if is_positive new_id
      then record s {
        editor = record e {
          entry_id = if is_positive e.entry_id then e.entry_id else new_id;
          dirty = pos 0;
          status = saved;
        };
        conn = conn1;
        files = backup_remove name files1;
      }
      else record s { editor = record e { status = save_failed }; conn = conn1; files = files1 }

  unfoldable pub escape : Session → Session
  escape s =
      if not (is_zero s.editor.dirty)
      then record s { editor = record s.editor { status = unsaved; dirty = neg 1 } }
      else if eq_ℤ s.editor.dirty (neg 1)
      then record s { running = false }
      else record s { running = false }

  unfoldable pub on_byte : ℤ → Input → ℕ → Session → Session
  unfolding save escape with_room
  on_byte g_entry_at i ch s =
      if ch == 19 || ch == 23
      then save g_entry_at i s
      else if ch == 27
      then escape s
      else if ch == 127 || ch == 8
      then record s { editor = erase_back s.editor }
      else if ch == b'\n' || ch == b'\r'
      then with_room i (insert_byte newline) s
      else if is_print ch || (leb 0x80 ch && leb ch 0xFF)
      then with_room i (insert_byte ch) s
      else s

  unfoldable pub on_key : ℤ → Input → Key → Session → Session
  unfolding on_byte
  on_key g_entry_at i timeout s = if is_zero s.editor.dirty then s else save g_entry_at i s
  on_key g_entry_at i f2 s = save g_entry_at i s
  on_key g_entry_at i (byte ch) s = on_byte g_entry_at i ch s
  on_key g_entry_at i backspace s = record s { editor = erase_back s.editor }
  on_key g_entry_at i delete s = record s { editor = erase_forward s.editor }
  on_key g_entry_at i enter s = with_room i (insert_byte newline) s
  on_key g_entry_at i key s = record s {
    editor = navigate key i.cols (get_vpos s.editor.buf s.editor.cursor i.cols) s.editor;
  }

  -- What a round does before it reads a key: the view follows the cursor, the message is cleared.
  unfoldable pub refresh : Input → Session → Session
  refresh i s =
      let (r, c) = get_vpos s.editor.buf s.editor.cursor i.cols in
      record s {
        editor = record s.editor {
          view_top = scroll_to i.text_rows r s.editor.view_top;
          status = blank;
        };
      }

  -- One round of the loop.
  unfoldable pub editor_step : ℤ → Input → Session → Session
  unfolding refresh
  editor_step g_entry_at i s = on_key g_entry_at i i.key (refresh i s)

  -- The loop: it reads no more keys once it has ended.
  unfoldable pub screen_editor : ℤ → List Input → Session → Session
  screen_editor g_entry_at [] s = s
  screen_editor g_entry_at (i ∷ is) s =
      let rest = screen_editor g_entry_at is (editor_step g_entry_at i s) in
      if s.running then rest else s
