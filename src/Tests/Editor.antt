-- ===== src/Tests/Editor.antt =====
-- The editor's theorems at concrete inputs, on a server that answers or refuses, and runs of it.
use diary.Prelude.{◌+◌, ◌≤◌, ◌≡◌, refl, Bool, true, false, List, [], ◌∷◌, Option, none, some}
use diary.Prelude.{arith, Text, codes, if◌then◌else◌}
use diary.Prelude.Int.{ℤ, pos, neg, is_positive}
use diary.Client.Service.{Service}
use diary.Client.Ui.Utf8.{cont_at, u8_is_cont, char_start}
use diary.Client.Ui.Layout.{newline, get_vpos, vpos_to_idx}
use diary.Client.Ui.Layout.RoundTrip.{vpos_to_idx-get_vpos}
use diary.Client.Ui.Layout.Rows.{vpos_to_idx_wrapped}
use diary.Client.Ui.Backup.{Files, backup_path}
use diary.Client.Ui.Editor.{
  Key, byte, f2, left, backspace, enter, Input, Status, save_failed, Session, open_editor, save,
  is_zero, editor_step, screen_editor, insert_byte, with_room, on_byte, on_key, refresh, escape,
  is_print, erase_back, navigate, remove_bytes, send_entry,
}
use diary.Client.Ui.Editor.Valid.{IsValid, open_editor-IsValid}
use diary.Client.Ui.Editor.Invariant.{AllTyped, screen_editor-IsValid}
use diary.Client.Ui.Editor.Saving.{screen_editor_escape, save_backup}
use diary.Client.Ui.Editor.Posts.{counted, screen_editor_posts}

-- A server that gives the identifier 5 to what is posted, or refuses everything.
abbrev server : Bool → Service
server answers = record {
  Conn = Unit {0};
  net_post_entry = λ text at conn. (if answers then pos 5 else neg 1, conn);
  net_update_entry = λ id text conn. (if answers then id else neg 1, conn);
  net_delete_entry = λ id conn. (if answers then pos 0 else neg 1, conn);
}

abbrev press : Key → Input
press key = record {
  text_rows = 10;
  cols = 20;
  key = key;
  opens = true;
  written = 4096;
  realloc_ok = true;
}

abbrev no_files : Files
no_files name = none

abbrev opened : (sv : Service) → sv.Conn → ℤ → Option Text → Session sv
opened sv conn id text = record {
  editor = open_editor id text;
  conn = conn;
  files = no_files;
  running = true;
}

-- "h", the two bytes of a Greek lambda, a newline, a step to the left, backspace, save, escape.
abbrev typing : List Input
typing =
    press (byte b'h')
    ∷ press (byte 0xCE)
    ∷ press (byte 0xBB)
    ∷ press enter
    ∷ press left
    ∷ press backspace
    ∷ press f2
    ∷ press (byte 27)
    ∷ press (byte b'x')
    ∷ []

typed_session : Session (server true)
typed_session = screen_editor (server true) (pos 0) typing (opened (server true) tt (pos 0) none)

typed_session_lem :
    (typed_session.editor.buf ≡ b'h' ∷ newline ∷ [])
    × (typed_session.editor.entry_id ≡ pos 5)
    × (typed_session.running ≡ false)
unfolding typed_session screen_editor editor_step on_key on_byte refresh with_room insert_byte
    erase_back navigate save escape send_entry open_editor is_print char_start cont_at u8_is_cont
    get_vpos remove_bytes
typed_session_lem = (refl, refl, refl)

-- Home on the second row of a soft-wrapped line goes to the end of the row.
home_runs : vpos_to_idx (codes "abcdefghij") 5 1 0 ≡ 8
unfolding vpos_to_idx u8_is_cont
home_runs = refl

abbrev word : Text
word = codes "ab"

typed_keys : AllTyped (server true) (pos 0) typing (opened (server true) tt (pos 0) none)
unfolding u8_is_cont editor_step on_key on_byte refresh with_room insert_byte erase_back navigate
    save escape open_editor is_print char_start cont_at get_vpos send_entry
typed_keys = (
  (λ h. cc),
  ((λ h. cc), ((λ h. omega arith), (tt, (tt, (tt, (tt, ((λ h. cc), ((λ h. cc), tt)))))))),
)

screen_editor-IsValid_example :
    IsValid
      (screen_editor (server true) (pos 0) typing (opened (server true) tt (pos 0) none)).editor
screen_editor-IsValid_example =
    screen_editor-IsValid (server true) (pos 0) typing (opened (server true) tt (pos 0) none)
      (open_editor-IsValid (pos 0) none tt) typed_keys

screen_editor_posts_example :
    (screen_editor
      (counted (server true))
      (pos 0)
      typing
      (opened (counted (server true)) (tt, 0) (pos 0) none)).conn.1
    ≤ 0 + (if is_positive (open_editor (pos 0) none).entry_id then 0 else 1)
screen_editor_posts_example =
    screen_editor_posts (server true) (pos 0) typing
      (opened (counted (server true)) (tt, 0) (pos 0) none)

abbrev changed : Session (server true)
changed = record {
  editor = record {
    entry_id = pos 3;
    buf = word;
    buf_sz = 4096;
    cursor = 2;
    view_top = 0;
    dirty = pos 1;
    status = Status.blank;
  };
  conn = tt;
  files = no_files;
  running = true;
}

screen_editor_escape_example :
    ((screen_editor (server true) (pos 0) (press (byte 27) ∷ press (byte 27) ∷ []) changed).running
      ≡ true)
    × ((screen_editor
          (server true)
          (pos 0)
          (press (byte 27) ∷ press (byte 27) ∷ [])
          changed).editor.buf
        ≡ word)
    × (is_zero
          (screen_editor
            (server true)
            (pos 0)
            (press (byte 27) ∷ press (byte 27) ∷ [])
            changed).editor.dirty
        ≡ false)
screen_editor_escape_example =
    screen_editor_escape (server true) (pos 0) (press (byte 27) ∷ press (byte 27) ∷ []) changed
      (refl, (refl, tt)) refl refl

abbrev offline : Session (server false)
offline = record { editor = changed.editor; conn = tt; files = no_files; running = true }

refused : (save (server false) (pos 0) (press f2) offline).editor.status ≡ save_failed
unfolding save send_entry
refused = refl

save_backup_example :
    (save (server false) (pos 0) (press f2) offline).files
      (backup_path (if is_positive offline.editor.entry_id then offline.editor.entry_id else pos 0))
    ≡ some word
save_backup_example =
    save_backup (server false) (pos 0) (press f2) offline refl (omega arith) refused

vpos_to_idx-get_vpos_example :
    vpos_to_idx
      (codes "abcdefghij")
      5
      (get_vpos (codes "abcdefghij") 7 5).0
      (get_vpos (codes "abcdefghij") 7 5).1
    ≡ 7
vpos_to_idx-get_vpos_example =
    vpos_to_idx-get_vpos (codes "abcdefghij") 7 5 (omega arith) (unfold cont_at u8_is_cont in refl)

vpos_to_idx_wrapped_example :
    vpos_to_idx (codes "abcdef") 5 1 0 ≡ vpos_to_idx (codes "abcdef") 5 1 5
vpos_to_idx_wrapped_example =
    vpos_to_idx_wrapped (codes "abcdef") 5 1
      (
        (λ e. omega arith),
        (
          (λ e. omega arith),
          (
            (λ e. omega arith),
            ((λ e. omega arith), ((λ e. omega arith), ((λ e. omega arith), tt))),
          ),
        ),
      )
      (omega arith) (omega arith)
