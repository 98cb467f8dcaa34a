-- ===== src/Client/Ui/Editor/Delivered.antt =====
-- A whole run of the editor of client/ui.c over a server.
use diary.Prelude.{ℕ, ◌≡◌, Bool-cases, true, false, inl, inr, ◌&&◌, ◌||◌, List, [], ◌∷◌, All, Text}
use diary.Prelude.{◌+◌, not, length, ltb, arith, if_cases, ◌==◌, leb}
use diary.Prelude.Int.{ℤ, neg, eq_ℤ, is_positive}
use diary.Server.Sqlite.{Sqlite, IsSqlite, Works}
use diary.Client.Net.{Wire, net}
use diary.Client.Net.Link.{Link}
use diary.Client.Net.Journal.Requests.{journal, Sound}
use diary.Client.Net.Journal.{Journal}
use diary.Client.Ui.Layout.{newline}
use diary.Client.Ui.Editor.{
  Input, Key, timeout, byte, f2, up, backspace, delete, enter, Session, is_zero, is_print,
  insert_byte, erase_back, erase_forward, navigate, with_room, escape, on_byte, on_key, refresh,
  editor_step, screen_editor,
}
use diary.Client.Ui.Editor.Runs.{navigate_same, stop_step, stopped, run_step}
use diary.Client.Ui.Editor.Posts.{navigate-entry_id}
use diary.Client.Ui.Editor.Stored.{SavesInRange, HasText, AtServer, CanSave, Holds, Holds-save}

module _ (w : Wire) (sq : Sqlite) (user : Text) (link : Link w sq user) (laws : IsSqlite sq)
    (works : Works sq) (g_entry_at : ℤ) (j0 : Journal) (Quiet : Type 0) where
  abbrev Keeps : Session (net w) → Type 0
  Keeps = Holds w sq user link laws works g_entry_at j0 Quiet

  abbrev Range : Session (net w) → Type 0
  Range = CanSave w sq user link g_entry_at

  Keeps-insert :
      (i : Input) (b : ℕ) (s : Session (net w))
      → Keeps s
      → Keeps (with_room (net w) i (insert_byte b) s)
  unfolding with_room insert_byte
  Keeps-insert i b s (ready, at, grows) =
      if_cases Keeps (leb s.editor.buf_sz (length s.editor.buf + 1)) _ _
        (λ _.
          if_cases Keeps i.realloc_ok _ _ (λ _. (ready, (λ clean _. absurd (ground arith)), grows))
            (λ _. (ready, at, grows)))
        (λ _. (ready, (λ clean _. absurd (ground arith)), grows))

  Keeps-escape : (s : Session (net w)) → Keeps s → Keeps (escape (net w) s)
  unfolding escape
  Keeps-escape s (ready, at, grows) =
      if_cases Keeps (not (is_zero s.editor.dirty)) _ _
        (λ _. (ready, (λ clean _. absurd (ground arith)), grows))
        λ _.
          if_cases Keeps (eq_ℤ s.editor.dirty (neg 1)) _ _ (λ _. (ready, at, grows))
            (λ _. (ready, at, grows))

  Keeps-erase_back :
      (s : Session (net w)) → Keeps s → Keeps (record s { editor = erase_back s.editor })
  unfolding erase_back
  Keeps-erase_back s (ready, at, grows) =
      if_cases (λ e. Keeps (record s { editor = e })) (ltb 0 s.editor.cursor) _ _
        (λ _. (ready, (λ clean _. absurd (ground arith)), grows)) (λ _. (ready, at, grows))

  Keeps-erase_forward :
      (s : Session (net w)) → Keeps s → Keeps (record s { editor = erase_forward s.editor })
  unfolding erase_forward
  Keeps-erase_forward s (ready, at, grows) =
      if_cases (λ e. Keeps (record s { editor = e })) (ltb s.editor.cursor (length s.editor.buf)) _
        _ (λ _. (ready, (λ clean _. absurd (ground arith)), grows)) (λ _. (ready, at, grows))

  Keeps-navigate :
      (k : Key) (cols r c : ℕ) (s : Session (net w))
      → Keeps s
      → Keeps (record s { editor = navigate k cols (r, c) s.editor })
  Keeps-navigate k cols r c s (ready, at, grows) =
      let (buf, dirty, _) = navigate_same k cols r c s.editor in
      let id = navigate-entry_id k cols r c s.editor in
      (ready, (λ clean some_id. rw (buf, id) (at (rw dirty at clean) (rw id at some_id))), grows)

  Keeps-on_byte :
      (i : Input) (b : ℕ) (s : Session (net w))
      → Keeps s
      → Range s
      → Keeps (on_byte (net w) g_entry_at i b s)
  unfolding on_byte
  Keeps-on_byte i b s h range =
      if_cases Keeps (b == 19 || b == 23) _ _
        (λ _. Holds-save w sq user link laws works g_entry_at j0 Quiet i s h range)
        λ _.
          if_cases Keeps (b == 27) _ _ (λ _. Keeps-escape s h)
            λ _.
              if_cases Keeps (b == 127 || b == 8) _ _ (λ _. Keeps-erase_back s h)
                λ _.
                  if_cases Keeps (b == b'\n' || b == b'\r') _ _ (λ _. Keeps-insert i newline s h)
                    λ _.
                      if_cases Keeps (is_print b || (leb 0x80 b && leb b 0xFF)) _ _
                        (λ _. Keeps-insert i b s h) (λ _. h)

  Keeps-on_key :
      (i : Input) (k : Key) (s : Session (net w))
      → Keeps s
      → Range s
      → Keeps (on_key (net w) g_entry_at i k s)
  unfolding on_key
  Keeps-on_key i timeout s h range =
      if_cases Keeps (is_zero s.editor.dirty) s _ (λ _. h)
        (λ _. Holds-save w sq user link laws works g_entry_at j0 Quiet i s h range)
  Keeps-on_key i f2 s h range = Holds-save w sq user link laws works g_entry_at j0 Quiet i s h range
  Keeps-on_key i (byte b) s h range = Keeps-on_byte i b s h range
  Keeps-on_key i backspace s h range = Keeps-erase_back s h
  Keeps-on_key i delete s h range = Keeps-erase_forward s h
  Keeps-on_key i enter s h range = Keeps-insert i newline s h
  Keeps-on_key i up s h range = Keeps-navigate up i.cols _ _ s h
  Keeps-on_key i k s h range = Keeps-navigate k i.cols _ _ s h

  Keeps-editor_step :
      (i : Input) (s : Session (net w))
      → Keeps s
      → Range s
      → Keeps (editor_step (net w) g_entry_at i s)
  unfolding editor_step
  Keeps-editor_step i s h range =
      Keeps-on_key i i.key (refresh (net w) i s) (unfold refresh in h) (unfold refresh in range)

  pub screen_editor-Keeps :
      (is : List Input) (s : Session (net w))
      → Keeps s
      → SavesInRange w sq user link g_entry_at is s
      → Keeps (screen_editor (net w) g_entry_at is s)
  unfolding screen_editor
  screen_editor-Keeps [] s h range = h
  screen_editor-Keeps (i ∷ is) s h range =
      if_cases Keeps s.running _ s
        (λ on.
          let (now, later) = range on in
          screen_editor-Keeps is (editor_step (net w) g_entry_at i s) (Keeps-editor_step i s h now)
            later)
        (λ _. h)

module _ (w : Wire) (g_entry_at : ℤ) where
  -- The editor is left without unsaved changes, unless memory runs out.
  pub left_clean :
      (is : List Input) (s : Session (net w))
      → s.running ≡ true
      → All (λ i. i.realloc_ok ≡ true) is
      → (screen_editor (net w) g_entry_at is s).running ≡ false
      → is_zero (screen_editor (net w) g_entry_at is s).editor.dirty ≡ true
  left_clean [] s going memory stop = unfold screen_editor in cc
  left_clean (i ∷ is) s going memory stop =
      let next = editor_step (net w) g_entry_at i s in
      let e = run_step (net w) g_entry_at is i s going in
      rw e (elim (Bool-cases next.running) [
        | inl on ↦ left_clean is next on memory.1 (rw e at stop)
        | inr off ↦
            rw (stopped (net w) g_entry_at is next off)
              (stop_step (net w) g_entry_at i s going memory.0 off)
      ])

module _ (w : Wire) (sq : Sqlite) (user : Text) (link : Link w sq user) (laws : IsSqlite sq)
    (works : Works sq) (g_entry_at : ℤ) where
  -- What was typed is at the server when the editor is left: the entry that has the editor's
  -- identifier holds there, sealed, the text that was in the buffer at the end. This is so for any
  -- keys, with an entry that the server had or a new one, if the memory of the client does not
  -- run out, the connection is up with no line on the way, the database works, the rows of the
  -- user are sealed text with different identifiers that fit an `int` and timestamps that fit a
  -- `long`, the requests that a save would make are in these ranges, and the editor starts with
  -- unsaved changes or with a text that the server has.
  pub screen_editor_delivers :
      (is : List Input) (s : Session (net w))
      → Sound w sq user link s.conn
      → AtServer w sq user link s
      → SavesInRange w sq user link g_entry_at is s
      → s.running ≡ true
      → All (λ i. i.realloc_ok ≡ true) is
      → (screen_editor (net w) g_entry_at is s).running ≡ false
      → is_positive (screen_editor (net w) g_entry_at is s).editor.entry_id ≡ true
      → HasText
          (screen_editor (net w) g_entry_at is s).editor.entry_id
          (screen_editor (net w) g_entry_at is s).editor.buf
          (journal w sq user link (screen_editor (net w) g_entry_at is s).conn)
  screen_editor_delivers is s ready at range going memory stop =
      (screen_editor-Keeps w sq user link laws works g_entry_at [] ⊥ is s
          (ready, at, λ impossible. absurd impossible) range).1
        (left_clean w g_entry_at is s going memory stop)
