-- ===== src/Client/Ui/Editor/Stored.antt =====
-- The editor of client/ui.c over the requests of client/net.c and a server: one save.
use diary.Prelude.{List, ℕ, zero, suc, ◌≡◌, refl, true, false, Bool-cases, inl, inr, ◌&&◌}
use diary.Prelude.{[], ◌∷◌, ◌++◌, some, All, Text, arith, if◌then◌else◌, if_cases, ◌==◌}
use diary.Prelude.Int.{ℤ, pos, negsuc, is_positive, eq_ℤ, ltb_ℤ}
use diary.Server.Sqlite.{Sqlite, IsSqlite, Works}
use diary.Client.Net.{Wire, DiaryEntry, net, net_post_entry, net_update_entry}
use diary.Client.Net.Link.{Link}
use diary.Client.Net.Journal.{
  Journal, Action, post, update, number, Moment, Step, refused, posted, updated, has_entry,
  new_entry,
}
use diary.Client.Net.Journal.Grows.{Grows, Grows-Step}
use diary.Client.Net.Journal.Kept.{entry_at, entry_at-with_text}
use diary.Client.Net.Journal.Requests.{journal, Sound, InRange, perform-Sound}
use diary.Client.Ui.Editor.{Session, Input, is_zero, send_entry, save, editor_step}

-- An entry of a journal has the text.
abbrev pub HasText : ℤ → Text → Journal → Type 0
HasText (pos n) text j = (e : DiaryEntry) × (entry_at n j ≡ some e) × (e.text ≡ text)
HasText (negsuc n) text j = Unit {0}

below_ne : (z : ℤ) (n : ℕ) → ltb_ℤ z (pos n) ≡ true → eq_ℤ z (pos n) ≡ false
below_ne (pos m) n h = ground arith
below_ne (negsuc m) n h = refl

entry_at-new :
    (id : ℕ) (j : Journal) (e : DiaryEntry)
    → All (λ x. ltb_ℤ x.id (pos id) ≡ true) j
    → e.id ≡ pos id
    → entry_at id (j ++ e ∷ []) ≡ some e
entry_at-new id [] e below same = ground arith
entry_at-new id (x ∷ j) e below same =
    rw (below_ne x.id id below.0) (entry_at-new id j e below.1 same)

-- A request that was answered by an identifier has stored its text.
posted_text :
    {m : Moment} {j j' : Journal} {text : Text} {timestamp id : ℤ}
    → Step m j (post text timestamp) (number id) j'
    → is_positive id ≡ true
    → HasText id text j'
posted_text (refused j a text carries fails) ok = absurd (ground arith)
posted_text {m = m} (posted j id timestamp text b64 seal first fresh) ok =
    (new_entry id m.now timestamp text, entry_at-new id j _ fresh refl, refl)

entry_at-has_entry :
    (id : ℕ) (j : Journal) → has_entry id j ≡ true → (e : DiaryEntry) × (entry_at id j ≡ some e)
entry_at-has_entry id [] h = absurd (ground arith)
entry_at-has_entry id (x ∷ j) h = elim (Bool-cases (eq_ℤ x.id (pos id))) [
  | inl e ↦ (x, rw e refl)
  | inr e ↦ let (y, at) = entry_at-has_entry id j (rw e at h) in (y, rw e at)
]

updated_text :
    {m : Moment} {j j' : Journal} {text : Text} {n : ℕ} {rc : ℤ}
    → Step m j (update n text) (number rc) j'
    → is_positive rc ≡ true
    → HasText (pos n) text j'
updated_text (refused j a text carries fails) ok = absurd (ground arith)
updated_text (updated j n text b64 seal) ok = elim (Bool-cases (has_entry n j)) [
  | inl e ↦
      let (x, at) = entry_at-has_entry n j e in
      (
        record x { text = if n == n then text else x.text },
        entry_at-with_text n n text j x at,
        ground arith,
      )
  | inr e ↦ absurd (ground arith)
]

-- The request of a save.
abbrev pub saving : ℤ → ℤ → Text → Action
saving g_entry_at (pos zero) text = post text g_entry_at
saving g_entry_at (pos (suc n)) text = update (suc n) text
saving g_entry_at (negsuc n) text = post text g_entry_at

module _ (w : Wire) (sq : Sqlite) (user : Text) (link : Link w sq user) where
  -- The identifier that the editor has after an answer, and the text under it at the server, which
  -- has lost no entry of `j0`.
  abbrev Sent : Journal → ℤ → Text → w.Conn → ℤ × w.Conn → Type 0
  Sent j0 id text c r =
      Sound w sq user link r.1
      × (is_positive r.0 ≡ true
          → HasText (if is_positive id then id else r.0) text (journal w sq user link r.1))
      × (Grows j0 (journal w sq user link c) → Grows j0 (journal w sq user link r.1))

  -- Without unsaved changes the entry of the editor, if it has one, is at the server with the text
  -- in the buffer.
  abbrev pub AtServer : Session (net w) → Type 0
  AtServer s =
      is_zero s.editor.dirty ≡ true
      → is_positive s.editor.entry_id ≡ true
      → HasText s.editor.entry_id s.editor.buf (journal w sq user link s.conn)

  -- The request of a save would be in range.
  abbrev pub CanSave : ℤ → Session (net w) → Type 0
  CanSave g_entry_at s =
      InRange w sq user link (saving g_entry_at s.editor.entry_id s.editor.buf) s.conn

  -- While the editor runs, the request that a save would make is in range before each key.
  abbrev pub SavesInRange : ℤ → List Input → Session (net w) → Type 0
  SavesInRange g_entry_at [] s = Unit
  SavesInRange g_entry_at (i ∷ is) s =
      s.running ≡ true
      → CanSave g_entry_at s × SavesInRange g_entry_at is (editor_step (net w) g_entry_at i s)

  module _ (laws : IsSqlite sq) (works : Works sq) (g_entry_at : ℤ) (j0 : Journal)
      (Quiet : Type 0) where
    send_lem :
        (id : ℤ) (text : Text) (c : w.Conn)
        → Sound w sq user link c
        → InRange w sq user link (saving g_entry_at id text) c
        → Sent j0 id text c (
            if is_positive id
            then net_update_entry w id text c
            else net_post_entry w text g_entry_at c)
    send_lem (pos zero) text c ready range =
        let (step, ready1) =
          perform-Sound w sq user link laws works (post text g_entry_at) c ready range in
        (ready1, posted_text step, Grows-Step j0 step (λ id. refl))
    send_lem (negsuc n) text c ready range =
        let (step, ready1) =
          perform-Sound w sq user link laws works (post text g_entry_at) c ready range in
        (ready1, posted_text step, Grows-Step j0 step (λ id. refl))
    send_lem (pos (suc n)) text c ready range =
        let positive : is_positive (pos (suc n)) ≡ true = ground arith in
        let (step, ready1) =
          perform-Sound w sq user link laws works (update (suc n) text) c ready range in
        rw positive (ready1, updated_text step, Grows-Step j0 step (λ id. refl))

    -- The session is ready for the next request, what counts as saved is at the server, and the
    -- server has lost no entry of `j0` (if `Quiet` holds).
    abbrev pub Holds : Session (net w) → Type 0
    Holds s =
        Sound w sq user link s.conn
        × AtServer s
        × (Quiet → Grows j0 (journal w sq user link s.conn))

    pub Holds-save :
        (i : Input) (s : Session (net w))
        → Holds s
        → CanSave g_entry_at s
        → Holds (save (net w) g_entry_at i s)
    unfolding save send_entry
    Holds-save i s (ready, at, grows) range =
        let (ready1, sent, grown) = send_lem s.editor.entry_id s.editor.buf s.conn ready range in
        if_cases Holds (is_zero s.editor.dirty && is_positive s.editor.entry_id) _ _
          (λ _. (ready, at, grows))
          λ unsent.
            if_cases Holds (is_positive (send_entry (net w) g_entry_at s.editor s.conn).0) _ _
              (λ ok. (ready1, (λ _ _. sent ok), λ q. grown (grows q)))
              (λ _. (ready1, (λ clean some_id. absurd (ground arith)), λ q. grown (grows q)))
