-- ===== src/Client/Ui/Editor/Posts.antt =====
-- The editor of client/ui.c posts until a POST is answered with an identifier; from then on it
-- updates. What a POST without such an answer did at the server is not counted.
use diary.Prelude.{ℕ, ◌+◌, ◌≤◌, ◌≡◌, refl, List, [], ◌∷◌, ◌&&◌, ◌||◌, arith}
use diary.Prelude.{◌==◌, leb, if◌then◌else◌, if_cases}
use diary.Prelude.Int.{ℤ, is_positive}
use diary.Client.Service.{Service}
use diary.Client.Ui.Layout.{newline, get_vpos}
use diary.Client.Ui.Editor.{
  Editor, Input, Key, timeout, byte, f2, up, down, left, right, home, end, backspace, delete, enter,
  mouse, Session, is_zero, is_print, insert_byte, erase_back, erase_forward, navigate, with_room,
  save, escape, on_byte, on_key, refresh, editor_step, screen_editor,
}

-- The same connection, with the number of POSTs that it has answered with an identifier.
abbrev pub counted : Service → Service
counted sv = record {
  Conn = sv.Conn × ℕ;
  net_post_entry = λ text at conn.
      let (id, c) = sv.net_post_entry text at conn.0 in
      (id, (c, if is_positive id then conn.1 + 1 else conn.1));
  net_update_entry =
      λ id text conn. let (rc, c) = sv.net_update_entry id text conn.0 in (rc, (c, conn.1));
  net_delete_entry = λ id conn. let (rc, c) = sv.net_delete_entry id conn.0 in (rc, (c, conn.1));
}

-- How many POSTs there may still be: none once the entry has an identifier.
abbrev budget : Editor → ℕ
budget e = if is_positive e.entry_id then 0 else 1

pub navigate-entry_id :
    (k : Key) (cols r c : ℕ) (e : Editor) → (navigate k cols (r, c) e).entry_id ≡ e.entry_id
unfolding navigate
navigate-entry_id up cols r c e = ground arith
navigate-entry_id down cols r c e = ground arith
navigate-entry_id left cols r c e = ground arith
navigate-entry_id right cols r c e = ground arith
navigate-entry_id home cols r c e = ground arith
navigate-entry_id end cols r c e = ground arith
navigate-entry_id (mouse w) cols r c e = ground arith
navigate-entry_id k cols r c e = ground arith

module _ (sv : Service) (g_entry_at : ℤ) where
  abbrev posts : Session (counted sv) → ℕ
  posts s = s.conn.1

  -- The POSTs made and those that may still be.
  abbrev total : Session (counted sv) → ℕ
  total s = posts s + budget s.editor

  total-save :
      (i : Input) (s : Session (counted sv)) → total (save (counted sv) g_entry_at i s) ≤ total s
  unfolding save
  total-save i s = ground arith

  total-insert :
      (i : Input) (b : ℕ) (s : Session (counted sv))
      → total (with_room (counted sv) i (insert_byte b) s) ≤ total s
  unfolding with_room insert_byte
  total-insert i b s = ground arith

  total-escape : (s : Session (counted sv)) → total (escape (counted sv) s) ≤ total s
  unfolding escape
  total-escape s = ground arith

  total-erase_back : (e : Editor) → (erase_back e).entry_id ≡ e.entry_id
  unfolding erase_back
  total-erase_back e = ground arith

  total-erase_forward : (e : Editor) → (erase_forward e).entry_id ≡ e.entry_id
  unfolding erase_forward
  total-erase_forward e = ground arith

  total-on_byte :
      (i : Input) (b : ℕ) (s : Session (counted sv))
      → total (on_byte (counted sv) g_entry_at i b s) ≤ total s
  unfolding on_byte
  total-on_byte i b s =
      let P = λ (s' : Session (counted sv)). total s' ≤ total s in
      if_cases P (b == 19 || b == 23) _ _ (λ _. total-save i s)
        λ _.
          if_cases P (b == 27) _ _ (λ _. total-escape s)
            λ _.
              if_cases P (b == 127 || b == 8) _ _ (λ _. ground (arith, total-erase_back s.editor))
                λ _.
                  if_cases P (b == b'\n' || b == b'\r') _ _ (λ _. total-insert i newline s)
                    λ _.
                      if_cases P (is_print b || (leb 0x80 b && leb b 0xFF)) _ _
                        (λ _. total-insert i b s) (λ _. omega arith)

  total-on_key :
      (i : Input) (k : Key) (s : Session (counted sv))
      → total (on_key (counted sv) g_entry_at i k s) ≤ total s
  unfolding on_key
  total-on_key i timeout s =
      if_cases (λ s'. total s' ≤ total s) (is_zero s.editor.dirty) s _ (λ _. omega arith)
        (λ _. total-save i s)
  total-on_key i f2 s = total-save i s
  total-on_key i (byte b) s = total-on_byte i b s
  total-on_key i backspace s = ground (arith, total-erase_back s.editor)
  total-on_key i delete s = ground (arith, total-erase_forward s.editor)
  total-on_key i enter s = total-insert i newline s
  total-on_key i up s = ground (
    arith,
    navigate-entry_id up i.cols (get_vpos s.editor.buf s.editor.cursor i.cols).0
        (get_vpos s.editor.buf s.editor.cursor i.cols).1 s.editor,
  )
  total-on_key i k s = ground (
    arith,
    navigate-entry_id k i.cols (get_vpos s.editor.buf s.editor.cursor i.cols).0
        (get_vpos s.editor.buf s.editor.cursor i.cols).1 s.editor,
  )

  total-refresh :
      (i : Input) (s : Session (counted sv)) → total (refresh (counted sv) i s) ≡ total s
  unfolding refresh
  total-refresh i s = refl

  total-editor_step :
      (i : Input) (s : Session (counted sv))
      → total (editor_step (counted sv) g_entry_at i s) ≤ total s
  unfolding editor_step
  total-editor_step i s =
      omega (arith, total-on_key i i.key (refresh (counted sv) i s), total-refresh i s)

  total-screen_editor :
      (is : List Input) (s : Session (counted sv))
      → total (screen_editor (counted sv) g_entry_at is s) ≤ total s
  unfolding screen_editor
  total-screen_editor [] s = omega arith
  total-screen_editor (i ∷ is) s =
      if_cases (λ s'. total s' ≤ total s) s.running _ s
        (λ _. omega (
          arith,
          total-screen_editor is (editor_step (counted sv) g_entry_at i s),
          total-editor_step i s,
        ))
        (λ _. omega arith)

  -- However many saves a run makes, the server answers at most one POST with an identifier, and
  -- none if the editor was opened on an entry that has one.
  pub screen_editor_posts :
      (is : List Input) (s : Session (counted sv))
      → (screen_editor (counted sv) g_entry_at is s).conn.1
        ≤ s.conn.1 + (if is_positive s.editor.entry_id then 0 else 1)
  screen_editor_posts is s = omega (arith, total-screen_editor is s)
