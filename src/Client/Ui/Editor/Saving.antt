-- ===== src/Client/Ui/Editor/Saving.antt =====
-- Saving and leaving in the editor of client/ui.c.
use diary.Prelude.{ℕ, ◌≡◌, refl, ◌∙◌, ◌⊎◌, true, false, List, [], ◌∷◌}
use diary.Prelude.{arith, All, if◌then◌else◌, some, length, take-eq_of_le, ◌≤◌}
use diary.Prelude.Int.{ℤ, pos, is_positive}
use diary.Client.Service.{Service}
use diary.Client.Ui.Backup.{backup_path, backup_write_lem}
use diary.Client.Ui.Editor.{
  save_failed, Input, Key, timeout, byte, f2, enter, Session, is_zero, save, on_byte, on_key,
  editor_step, screen_editor,
}

module _ (sv : Service) (g_entry_at : ℤ) where
  escape_step :
      (i : Input) (s : Session sv)
      → i.key ≡ byte 27
      → is_zero s.editor.dirty ≡ false
      → ((editor_step sv g_entry_at i s).running ≡ s.running)
        × ((editor_step sv g_entry_at i s).editor.buf ≡ s.editor.buf)
        × (is_zero (editor_step sv g_entry_at i s).editor.dirty ≡ false)
  unfolding editor_step on_key
  escape_step i s key changed = simp key (ground arith)

  -- With unsaved changes no number of presses of ESC leaves the editor: the text, the loop and the
  -- unsaved changes all stay.
  pub screen_editor_escape :
      (is : List Input) (s : Session sv)
      → All (λ i. i.key ≡ byte 27) is
      → s.running ≡ true
      → is_zero s.editor.dirty ≡ false
      → ((screen_editor sv g_entry_at is s).running ≡ true)
        × ((screen_editor sv g_entry_at is s).editor.buf ≡ s.editor.buf)
        × (is_zero (screen_editor sv g_entry_at is s).editor.dirty ≡ false)
  unfolding screen_editor
  screen_editor_escape [] s keys going changed = (going, refl, changed)
  screen_editor_escape (i ∷ is) s keys going changed =
      let (going', same, changed') = escape_step i s keys.0 changed in
      let (a, b, c) =
        screen_editor_escape is (editor_step sv g_entry_at i s) keys.1 (going' ∙ going) changed' in
      (simp going a, simp going (b ∙ same), simp going c)

  -- A save that fails leaves the whole text in the backup file, if the file can be opened and takes
  -- that many bytes.
  pub save_backup :
      (i : Input) (s : Session sv)
      → i.opens ≡ true
      → length s.editor.buf ≤ i.written
      → (save sv g_entry_at i s).editor.status ≡ save_failed
      → (save sv g_entry_at i s).files
          (backup_path (if is_positive s.editor.entry_id then s.editor.entry_id else pos 0))
        ≡ some s.editor.buf
  unfolding save
  save_backup i s opens fits failure =
      let name = if is_positive s.editor.entry_id then s.editor.entry_id else pos 0 in
      ground (
        arith,
        backup_write_lem name s.editor.buf i.written s.files,
        take-eq_of_le i.written s.editor.buf fits,
      )

  stop_byte :
      (i : Input) (b : ℕ) (s : Session sv)
      → s.running ≡ true
      → (on_byte sv g_entry_at i b s).running ≡ false
      → (is_zero (on_byte sv g_entry_at i b s).editor.dirty ≡ true) ⊎ (i.realloc_ok ≡ false)
  unfolding on_byte
  stop_byte i b s going stop = ground arith

  -- The loop ends with no unsaved changes, or because memory ran out.
  pub stop_key :
      (i : Input) (k : Key) (s : Session sv)
      → s.running ≡ true
      → (on_key sv g_entry_at i k s).running ≡ false
      → (is_zero (on_key sv g_entry_at i k s).editor.dirty ≡ true) ⊎ (i.realloc_ok ≡ false)
  unfolding on_key
  stop_key i (byte b) s going stop = stop_byte i b s going stop
  stop_key i timeout s going stop = ground arith
  stop_key i f2 s going stop = ground arith
  stop_key i enter s going stop = ground arith
  stop_key i k s going stop = cc
