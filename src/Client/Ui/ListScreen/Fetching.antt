-- ===== src/Client/Ui/ListScreen/Fetching.antt =====
-- The list of client/ui.c over a server: what a listing, an editing and a deletion do.
use mathlib.Core.List.{Permᴰ}
use mathlib.Core.List.Permᴰ
use mathlib.Core.Path.{subst}
use diary.Prelude.{◌≡◌, refl, sym, true, List, Option, none, some}
use diary.Prelude.{Text, All, All-get_elem?, take, get_elem?, arith}
use diary.Prelude.Int.{ℤ, pos, negsuc}
use diary.Server.Sqlite.{Sqlite, IsSqlite, Works}
use diary.Server.Storage.Entries.{rows_of}
use diary.Client.Net.Read.{entry_of}
use diary.Client.Net.Fetched.{take-map}
use diary.Server.Handler.{max_entries}
use diary.Client.Net.{Wire, DiaryEntry, net, net_get_entries}
use diary.Client.Net.Link.{Link}
use diary.Client.Net.Order.{NewestFirst, IsId}
use diary.Client.Net.Order.Unique.{All-Permᴰ}
use diary.Client.Net.Journal.{Journal, delete, entries, listed, Moment, Step, fetched}
use diary.Client.Net.Journal.Grows.{Grows}
use diary.Client.Net.Journal.Rows.{IsId-journal_of}
use diary.Client.Net.Journal.Apart.{entry_at-Mem, Mem-get_elem?, Mem-take}
use diary.Client.Net.Journal.Requests.{journal, Sound, perform-Sound}
use diary.Client.Ui.Editor.{Input, Session, open_editor}
use diary.Client.Ui.Editor.Stored.{HasText, AtServer, SavesInRange}
use diary.Client.Ui.Editor.Delivered.{screen_editor-Keeps}
use diary.Client.Ui.ListScreen.{
  Command, new_entry, edit_entry, ListInput, Screen, reload_entries, edit, request_delete,
}

-- What a listing answers.
fetched_lem :
    {m : Moment} {j j' : Journal} {got : Option (List DiaryEntry)}
    → Step m j entries (listed got) j'
    → (es : List DiaryEntry) × (got ≡ some es)
      × Permᴰ (take max_entries j) es
      × NewestFirst es
      × (j' ≡ j)
fetched_lem (fetched j es perm order) = (es, refl, perm, order, refl)

module _ (w : Wire) (sq : Sqlite) (user : Text) (link : Link w sq user) where
  -- The array holds the first 1024 of the user's entries at the server, each once, the newest first.
  abbrev pub Shows : Screen w → Type 0
  Shows s =
      Permᴰ (take max_entries (journal w sq user link s.conn)) s.entries × NewestFirst s.entries

  -- The editor as the list opens it.
  abbrev pub opened : ℤ → Option Text → Screen w → Session (net w)
  opened id text s = record {
    editor = open_editor id text;
    conn = s.conn;
    files = s.files;
    running = true;
  }

  -- The requests of an editing that a key starts are in range.
  abbrev pub Allows : ℤ → Command → ListInput → Screen w → Type 0
  Allows g new_entry i s = SavesInRange w sq user link g i.edits (opened (pos 0) none s)
  Allows g edit_entry i s =
      (e : DiaryEntry)
      → get_elem? s.entries s.selected ≡ some e
      → SavesInRange w sq user link g i.edits (opened e.id (some e.text) s)
  Allows g _ i s = Unit

  module _ (laws : IsSqlite sq) (works : Works sq) (g : ℤ) (j0 : Journal) (Quiet : Type 0) where
    -- The connection is ready for the next request, and the server has lost no entry of `j0` (if
    -- `Quiet` holds).
    abbrev pub Fine : w.Conn → Type 0
    Fine c = Sound w sq user link c × (Quiet → Grows j0 (journal w sq user link c))

    abbrev pub Good : Screen w → Type 0
    Good s = Fine s.conn × Shows s

    reload_some :
        (s : Screen w) (es : List DiaryEntry)
        → (net_get_entries w true s.conn).0 ≡ some es
        → reload_entries w true s
          ≡ record s { conn = (net_get_entries w true s.conn).1; entries = es }
    unfolding reload_entries
    reload_some s es got = rw (reload_entries, got) refl

    pub Good-reload_entries : (s : Screen w) → Fine s.conn → Good (reload_entries w true s)
    Good-reload_entries s (sound, grows) =
        let (step, sound1) = perform-Sound w sq user link laws works entries s.conn sound tt in
        let (es, got, perm, order, same) = fetched_lem step in
        rw (reload_some s es got) (
          (sound1, λ q. subst (Grows j0) (sym same) (grows q)),
          (subst (λ j. Permᴰ (take max_entries j) es) (sym same) perm, order),
        )

    pub Fine-edit :
        (keys : List Input) (id : ℤ) (text : Option Text) (s : Screen w)
        → Fine s.conn
        → AtServer w sq user link (opened id text s)
        → SavesInRange w sq user link g keys (opened id text s)
        → Fine (edit w g keys id text s).conn
    unfolding edit
    Fine-edit keys id text s (sound, grows) at range =
        let (sound1, _, grown) =
          screen_editor-Keeps w sq user link laws works g j0 Quiet keys (opened id text s)
            (sound, at, grows) range in
        (sound1, grown)

    -- The entry shown has its text at the server.
    shown-HasText :
        (s : Screen w) (e : DiaryEntry)
        → Good s
        → get_elem? s.entries s.selected ≡ some e
        → (z : ℤ) → e.id ≡ z
        → HasText z e.text (journal w sq user link s.conn)
    shown-HasText s e (((ready, apart), grows), (perm, order)) at (negsuc n) same = tt
    shown-HasText s e (((ready, apart), grows), (perm, order)) at (pos n) same =
        let j = journal w sq user link s.conn in
        let shown = Mem-get_elem? s.entries s.selected e at in
        let there = Mem-take max_entries j e (Permᴰ.mem (Permᴰ.symm perm) shown) in
        (e, entry_at-Mem j apart e there n same, refl)

    pub AtServer-shown :
        (s : Screen w) (e : DiaryEntry)
        → Good s
        → get_elem? s.entries s.selected ≡ some e
        → AtServer w sq user link (opened e.id (some e.text) s)
    unfolding open_editor
    AtServer-shown s e good at = λ _ _. shown-HasText s e good at e.id refl

    pub AtServer-none : (s : Screen w) → AtServer w sq user link (opened (pos 0) none s)
    unfolding open_editor
    AtServer-none s = λ _ some_id. absurd (ground arith)

    pub shown-IsId :
        (s : Screen w) (e : DiaryEntry) → Good s → get_elem? s.entries s.selected ≡ some e → IsId e
    shown-IsId s e (((ready, apart), grows), (perm, order)) at =
        let rows = rows_of sq user (link.storage s.conn) in
        let ids : All IsId (take max_entries (journal w sq user link s.conn)) =
          rw (take-map (entry_of w) max_entries rows)
            (IsId-journal_of w max_entries rows ready.1) in
        All-get_elem? IsId s.entries s.selected e (All-Permᴰ perm ids) at

    pub Fine-request_delete :
        (s : Screen w) (e : DiaryEntry)
        → IsId e
        → Fine s.conn
        → (Quiet → ⊥)
        → Fine (request_delete w e s).conn
    unfolding request_delete
    Fine-request_delete s e (n, same, small) (sound, grows) loud = rw same (
      (perform-Sound w sq user link laws works (delete n) s.conn sound small).1,
      λ q. absurd (loud q),
    )
