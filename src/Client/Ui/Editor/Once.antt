-- ===== src/Client/Ui/Editor/Once.antt =====
-- The editor of client/ui.c over a server: how many entries a run adds to those of the user.
use diary.Prelude.{ℕ, zero, suc, ◌+◌, ◌≤◌, ◌≡◌, true, List, [], ◌∷◌, ◌&&◌, ◌||◌, not}
use diary.Prelude.{
  arith, Text, ◌==◌, leb, ltb, length, if◌then◌else◌, if_cases, length-append, length-map,
}
use diary.Prelude.Int.{ℤ, pos, neg, negsuc, eq_ℤ, is_positive}
use diary.Server.Sqlite.{Sqlite, IsSqlite, Works}
use diary.Client.Net.{Wire, net, net_post_entry, net_update_entry}
use diary.Client.Net.Link.{Link}
use diary.Client.Net.Journal.{
  Journal, Moment, Step, post, update, number, refused, posted, updated, new_entry, with_text,
}
use diary.Client.Net.Journal.Requests.{journal, Sound, InRange, perform-Sound}
use diary.Client.Ui.Layout.{newline}
use diary.Client.Ui.Editor.{
  Input, Key, timeout, byte, f2, up, backspace, delete, enter, Session, is_zero, is_print,
  insert_byte, erase_back, erase_forward, navigate, with_room, send_entry, save, escape, on_byte,
  on_key, refresh, editor_step, screen_editor,
}
use diary.Client.Ui.Editor.Posts.{navigate-entry_id}
use diary.Client.Ui.Editor.Stored.{saving, CanSave, SavesInRange}

-- How many entries the editor may still add: none once its entry has an identifier.
abbrev budget : ℤ → ℕ
budget id = if is_positive id then 0 else 1

posted_length :
    {m : Moment} {j j' : Journal} {text : Text} {timestamp id : ℤ}
    → Step m j (post text timestamp) (number id) j'
    → length j' + budget id ≤ length j + 1
posted_length (refused j a text carries fails) = ground arith
posted_length {m = m} (posted j id timestamp text b64 seal first fresh) =
    ground (arith, length-append j (new_entry id m.now timestamp text ∷ []))

updated_length :
    {m : Moment} {j j' : Journal} {text : Text} {n : ℕ} {rc : ℤ}
    → Step m j (update n text) (number rc) j'
    → length j' ≤ length j
updated_length (refused j a text carries fails) = omega arith
updated_length (updated j n text b64 seal) = omega (arith, length-map (with_text n text) j)

module _ (w : Wire) (sq : Sqlite) (user : Text) (link : Link w sq user) (laws : IsSqlite sq)
    (works : Works sq) (g_entry_at : ℤ) (most : ℕ) where
  -- The entries of the user.
  abbrev count : w.Conn → ℕ
  count c = length (journal w sq user link c)

  -- The connection is ready, and the entries and those that the editor may still add are `most` at
  -- most.
  abbrev Bounded : Session (net w) → Type 0
  Bounded s = Sound w sq user link s.conn × (count s.conn + budget s.editor.entry_id ≤ most)

  -- What a request of a save leaves of the budget.
  abbrev Spends : ℤ → w.Conn → ℤ × w.Conn → Type 0
  Spends id c r =
      Sound w sq user link r.1
      × (count r.1 + budget (if is_positive id then id else r.0) ≤ count c + budget id)

  post_Spends :
      (text : Text) (c : w.Conn)
      → Sound w sq user link c
      → InRange w sq user link (post text g_entry_at) c
      → Sound w sq user link (net_post_entry w text g_entry_at c).1
        × (count (net_post_entry w text g_entry_at c).1
              + budget (net_post_entry w text g_entry_at c).0
            ≤ count c + 1)
  post_Spends text c sound range =
      let (step, sound1) =
        perform-Sound w sq user link laws works (post text g_entry_at) c sound range in
      (sound1, posted_length step)

  send_Spends :
      (id : ℤ) (text : Text) (c : w.Conn)
      → Sound w sq user link c
      → InRange w sq user link (saving g_entry_at id text) c
      → Spends id c (
          if is_positive id
          then net_update_entry w id text c
          else net_post_entry w text g_entry_at c)
  send_Spends (pos zero) text c sound range = post_Spends text c sound range
  send_Spends (negsuc n) text c sound range = post_Spends text c sound range
  send_Spends (pos (suc n)) text c sound range =
      let positive : is_positive (pos (suc n)) ≡ true = ground arith in
      let (step, sound1) =
        perform-Sound w sq user link laws works (update (suc n) text) c sound range in
      rw positive (sound1, grind (arith, updated_length step))

  Bounded-save :
      (i : Input) (s : Session (net w))
      → Bounded s
      → CanSave w sq user link g_entry_at s
      → Bounded (save (net w) g_entry_at i s)
  unfolding save send_entry
  Bounded-save i s (sound, h) range =
      let (sound1, spent) = send_Spends s.editor.entry_id s.editor.buf s.conn sound range in
      if_cases Bounded (is_zero s.editor.dirty && is_positive s.editor.entry_id) _ _
        (λ _. (sound, h))
        λ _.
          if_cases Bounded (is_positive (send_entry (net w) g_entry_at s.editor s.conn).0) _ _
            (λ ok. (sound1, omega arith)) (λ failure. (sound1, ground arith))

  Bounded-insert :
      (i : Input) (b : ℕ) (s : Session (net w))
      → Bounded s
      → Bounded (with_room (net w) i (insert_byte b) s)
  unfolding with_room insert_byte
  Bounded-insert i b s h =
      if_cases Bounded (leb s.editor.buf_sz (length s.editor.buf + 1)) _ _
        (λ _. if_cases Bounded i.realloc_ok _ _ (λ _. h) (λ _. h)) (λ _. h)

  Bounded-escape : (s : Session (net w)) → Bounded s → Bounded (escape (net w) s)
  unfolding escape
  Bounded-escape s h =
      if_cases Bounded (not (is_zero s.editor.dirty)) _ _ (λ _. h)
        (λ _. if_cases Bounded (eq_ℤ s.editor.dirty (neg 1)) _ _ (λ _. h) (λ _. h))

  Bounded-erase_back :
      (s : Session (net w)) → Bounded s → Bounded (record s { editor = erase_back s.editor })
  unfolding erase_back
  Bounded-erase_back s h =
      if_cases (λ e. Bounded (record s { editor = e })) (ltb 0 s.editor.cursor) _ _ (λ _. h)
        (λ _. h)

  Bounded-erase_forward :
      (s : Session (net w)) → Bounded s → Bounded (record s { editor = erase_forward s.editor })
  unfolding erase_forward
  Bounded-erase_forward s h =
      if_cases (λ e. Bounded (record s { editor = e })) (ltb s.editor.cursor (length s.editor.buf))
        _ _ (λ _. h) (λ _. h)

  Bounded-navigate :
      (k : Key) (cols r c : ℕ) (s : Session (net w))
      → Bounded s
      → Bounded (record s { editor = navigate k cols (r, c) s.editor })
  Bounded-navigate k cols r c s (sound, h) = (sound, rw (navigate-entry_id k cols r c s.editor) h)

  Bounded-on_byte :
      (i : Input) (b : ℕ) (s : Session (net w))
      → Bounded s
      → CanSave w sq user link g_entry_at s
      → Bounded (on_byte (net w) g_entry_at i b s)
  unfolding on_byte
  Bounded-on_byte i b s h range =
      if_cases Bounded (b == 19 || b == 23) _ _ (λ _. Bounded-save i s h range)
        λ _.
          if_cases Bounded (b == 27) _ _ (λ _. Bounded-escape s h)
            λ _.
              if_cases Bounded (b == 127 || b == 8) _ _ (λ _. Bounded-erase_back s h)
                λ _.
                  if_cases Bounded (b == b'\n' || b == b'\r') _ _
                    (λ _. Bounded-insert i newline s h)
                    λ _.
                      if_cases Bounded (is_print b || (leb 0x80 b && leb b 0xFF)) _ _
                        (λ _. Bounded-insert i b s h) (λ _. h)

  Bounded-on_key :
      (i : Input) (k : Key) (s : Session (net w))
      → Bounded s
      → CanSave w sq user link g_entry_at s
      → Bounded (on_key (net w) g_entry_at i k s)
  unfolding on_key
  Bounded-on_key i timeout s h range =
      if_cases Bounded (is_zero s.editor.dirty) s _ (λ _. h) (λ _. Bounded-save i s h range)
  Bounded-on_key i f2 s h range = Bounded-save i s h range
  Bounded-on_key i (byte b) s h range = Bounded-on_byte i b s h range
  Bounded-on_key i backspace s h range = Bounded-erase_back s h
  Bounded-on_key i delete s h range = Bounded-erase_forward s h
  Bounded-on_key i enter s h range = Bounded-insert i newline s h
  Bounded-on_key i up s h range = Bounded-navigate up i.cols _ _ s h
  Bounded-on_key i k s h range = Bounded-navigate k i.cols _ _ s h

  Bounded-screen_editor :
      (is : List Input) (s : Session (net w))
      → Bounded s
      → SavesInRange w sq user link g_entry_at is s
      → Bounded (screen_editor (net w) g_entry_at is s)
  unfolding screen_editor editor_step
  Bounded-screen_editor [] s h range = h
  Bounded-screen_editor (i ∷ is) s h range =
      if_cases Bounded s.running _ s
        (λ on.
          let (now, later) = range on in
          Bounded-screen_editor is (editor_step (net w) g_entry_at i s)
            (Bounded-on_key i i.key (refresh (net w) i s) (unfold refresh in h)
              (unfold refresh in now))
            later)
        (λ _. h)

-- However many saves a run of the editor makes, it adds at most one entry to those that the user
-- has at the server, and none if it was opened on an entry that has an identifier. This is so on a
-- connection that is up with no line on the way, with a database that works, if the rows of the
-- user are sealed text with different identifiers that fit an `int` and timestamps that fit a
-- `long`, and the requests that a save would make are in these ranges.
pub screen_editor_adds :
    (w : Wire) (sq : Sqlite) (user : Text) (link : Link w sq user) (laws : IsSqlite sq)
    (works : Works sq) (g_entry_at : ℤ) (is : List Input) (s : Session (net w))
    → Sound w sq user link s.conn
    → SavesInRange w sq user link g_entry_at is s
    → length (journal w sq user link (screen_editor (net w) g_entry_at is s).conn)
      ≤ length (journal w sq user link s.conn) + (if is_positive s.editor.entry_id then 0 else 1)
screen_editor_adds w sq user link laws works g_entry_at is s sound range =
    let (_, bound) =
      Bounded-screen_editor w sq user link laws works g_entry_at
        (length (journal w sq user link s.conn) + budget s.editor.entry_id) is s
        (sound, omega arith) range in
    omega arith
