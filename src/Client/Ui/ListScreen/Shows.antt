-- ===== src/Client/Ui/ListScreen/Shows.antt =====
-- The list of client/ui.c over a server: what it shows, and what it deletes.
use diary.Prelude.{ℕ, ◌+◌, ◌≡◌, true, false, inl, inr, List, [], ◌∷◌, none, some}
use diary.Prelude.{Text, All, All-imp, Option-cases, get_elem?, length, ltb, leb, arith, if_cases}
use diary.Prelude.Int.{ℤ, pos}
use diary.Server.Sqlite.{Sqlite, IsSqlite, Works}
use diary.Client.Net.{Wire, DiaryEntry}
use diary.Client.Net.Link.{Link}
use diary.Client.Net.Journal.Requests.{journal, Sound}
use diary.Client.Net.Journal.{Journal}
use diary.Client.Net.Journal.Grows.{Grows, Grows-refl}
use diary.Client.Ui.Backup.{Files}
use diary.Client.Ui.ListScreen.{
  Command, ListStatus, silent, quit, go_up, go_down, read_entry, new_entry, edit_entry,
  delete_entry, reload, nothing, command_of, confirms, ListInput, Screen, reload_entries, clamp,
  edit, with_selected, request_delete, delete_selected, select_last, announce, on_command,
  list_step, list_loop, screen_list,
}
use diary.Client.Ui.ListScreen.Fetching.{
  Fine, Shows, Good, Allows, Good-reload_entries, Fine-edit, AtServer-shown, AtServer-none,
  shown-IsId, Fine-request_delete,
}

-- The list before the first listing.
abbrev pub opening : (w : Wire) → w.Conn → Files → Screen w
opening w conn files = record {
  conn = conn;
  files = files;
  entries = [];
  selected = 0;
  scroll = 0;
  status = silent;
  running = true;
  fault = false;
}

module _ (w : Wire) (sq : Sqlite) (user : Text) (link : Link w sq user) (g : ℤ) where
  abbrev Can : Command → ListInput → Screen w → Type 0
  Can = Allows w sq user link g

  -- While the list runs, the requests of the editings are in range.
  abbrev pub AllAllowed : List ListInput → Screen w → Type 0
  AllAllowed [] s = Unit
  AllAllowed (i ∷ is) s =
      s.running ≡ true → Can (command_of i.key) i s × AllAllowed is (list_step w g i s)

  -- The message and the scrolling do not matter.
  Allows-view :
      (command : Command) (i : ListInput) (s : Screen w) (scroll : ℕ) (status : ListStatus)
      → Can command i s
      → Can command i (record s { scroll = scroll; status = status })
  Allows-view new_entry i s scroll status h = h
  Allows-view edit_entry i s scroll status h = h
  Allows-view command i s scroll status h = tt

module _ (w : Wire) (sq : Sqlite) (user : Text) (link : Link w sq user) (laws : IsSqlite sq)
    (works : Works sq) (g : ℤ) (j0 : Journal) (Quiet : Type 0) where
  abbrev Kept : Screen w → Type 0
  Kept = Good w sq user link laws works g j0 Quiet

  -- There is memory for a listing, and (if `Quiet` holds) no deletion is confirmed.
  abbrev Suits : ListInput → Type 0
  Suits i = (i.calloc_ok ≡ true) × (Quiet → confirms i.conf ≡ false)

  Kept-with_selected :
      (f : DiaryEntry → Screen w) (s : Screen w)
      → Kept s
      → ((e : DiaryEntry) → get_elem? s.entries s.selected ≡ some e → Kept (f e))
      → Kept (with_selected w f s)
  unfolding with_selected
  Kept-with_selected f s good each =
      if_cases Kept (ltb 0 (length s.entries)) _ s
        (λ _. elim (Option-cases (get_elem? s.entries s.selected)) [
          | inl none_there ↦ rw none_there good
          | inr (e, at) ↦ rw at (each e at)
        ])
        (λ _. good)

  Kept-clamp : (s : Screen w) → Kept s → Kept (clamp w s)
  unfolding clamp
  Kept-clamp s good = if_cases Kept (leb (length s.entries) s.selected) _ s (λ _. good) (λ _. good)

  announce_same :
      (s : Screen w) → ((announce w s).conn ≡ s.conn) × ((announce w s).entries ≡ s.entries)
  unfolding announce
  announce_same s = ground arith

  Kept-announce : (s : Screen w) → Kept s → Kept (announce w s)
  Kept-announce s good = let (conn, shown) = announce_same s in rw (conn, shown) good

  Kept-on_command :
      (command : Command) (i : ListInput) (s : Screen w)
      → Suits i
      → Kept s
      → Allows w sq user link g command i s
      → Kept (on_command w g i command s)
  unfolding on_command
  Kept-on_command quit i s memory good range = good
  Kept-on_command go_up i s memory good range =
      if_cases Kept (ltb 0 s.selected) _ s (λ _. good) (λ _. good)
  Kept-on_command go_down i s memory good range =
      if_cases Kept (ltb (s.selected + 1) (length s.entries)) _ s (λ _. good) (λ _. good)
  Kept-on_command read_entry i s memory good range =
      Kept-with_selected (λ e. s) s good (λ e at. good)
  Kept-on_command new_entry i s memory good range = rw memory.0 (
      unfold select_last in
      Good-reload_entries w sq user link laws works g j0 Quiet (edit w g i.edits (pos 0) none s) (
        Fine-edit w sq user link laws works g j0 Quiet i.edits (pos 0) none s good.0
          (AtServer-none w sq user link laws works g j0 Quiet s) range))
  Kept-on_command edit_entry i s memory good range = Kept-with_selected _ s good λ e at.
      rw memory.0 (
        Good-reload_entries w sq user link laws works g j0 Quiet
          (edit w g i.edits e.id (some e.text) s)
          (Fine-edit w sq user link laws works g j0 Quiet i.edits e.id (some e.text) s good.0
            (AtServer-shown w sq user link laws works g j0 Quiet s e good at) (range e at)))
  Kept-on_command delete_entry i s memory good range = Kept-with_selected _ s good λ e at.
      unfold delete_selected in
      if_cases Kept (confirms i.conf) _ s
        (λ yes. rw memory.0 (
          Kept-clamp _ (
            Good-reload_entries w sq user link laws works g j0 Quiet (request_delete w e s) (
              Fine-request_delete w sq user link laws works g j0 Quiet s e
                (shown-IsId w sq user link laws works g j0 Quiet s e good at) good.0
                (λ q. let no = memory.1 q in cc)))))
        (λ _. good)
  Kept-on_command reload i s memory good range = rw memory.0 (
      Kept-announce _
        (Kept-clamp _ (Good-reload_entries w sq user link laws works g j0 Quiet s good.0)))
  Kept-on_command nothing i s memory good range = good

  Kept-list_step :
      (i : ListInput) (s : Screen w)
      → Suits i
      → Kept s
      → Allows w sq user link g (command_of i.key) i s
      → Kept (list_step w g i s)
  unfolding list_step
  Kept-list_step i s memory good range =
      Kept-on_command (command_of i.key) i _ memory good
        (Allows-view w sq user link g (command_of i.key) i s _ _ range)

  Kept-list_loop :
      (is : List ListInput) (s : Screen w)
      → All Suits is
      → Kept s
      → AllAllowed w sq user link g is s
      → Kept (list_loop w g is s)
  unfolding list_loop
  Kept-list_loop [] s memory good range = good
  Kept-list_loop (i ∷ is) s memory good range =
      if_cases Kept s.running _ s
        (λ on.
          let (now, later) = range on in
          Kept-list_loop is (list_step w g i s) memory.1 (Kept-list_step i s memory.0 good now)
            later)
        (λ _. good)

  Kept-screen_list :
      (is : List ListInput) (c : w.Conn) (files : Files)
      → Fine w sq user link laws works g j0 Quiet c
      → All Suits is
      → AllAllowed w sq user link g is (reload_entries w true (opening w c files))
      → Kept (screen_list w g true is c files)
  unfolding screen_list
  Kept-screen_list is c files fine suits range =
      let s = opening w c files in
      Kept-list_loop is (reload_entries w true s) suits
        (Good-reload_entries w sq user link laws works g j0 Quiet s fine) range

module _ (w : Wire) (sq : Sqlite) (user : Text) (link : Link w sq user) (laws : IsSqlite sq)
    (works : Works sq) (g : ℤ) where
  -- Whatever keys are pressed, what the list shows is what the server has: the first 1024 of the
  -- user's entries at the server, each once, the newest first, with their texts as they are after
  -- every editing and deletion. This is so on a connection that is up with no line on the way, with
  -- a database that works and memory for the listings, if the rows of the user are sealed text
  -- with different identifiers that fit an `int` and timestamps that fit a `long`, and the
  -- requests that the editor would make are in these ranges. Meanwhile other users may work on the
  -- database and no other client of this user does.
  pub screen_list-Shows :
      (is : List ListInput) (c : w.Conn) (files : Files)
      → Sound w sq user link c
      → All (λ i. i.calloc_ok ≡ true) is
      → AllAllowed w sq user link g is (reload_entries w true (opening w c files))
      → Shows w sq user link (screen_list w g true is c files)
  screen_list-Shows is c files sound memory range =
      (Kept-screen_list w sq user link laws works g [] ⊥ is c files
        (sound, λ impossible. absurd impossible)
        (All-imp is (λ i ok. (ok, λ impossible. absurd impossible)) memory) range).1

  -- The list deletes nothing that is not confirmed: in a run in which no question is answered by a
  -- yes, every entry that the user had stays at the server under its identifier and its timestamp,
  -- whatever is edited. This is so on a connection that is up with no line on the way, with a
  -- database that works and memory for the listings, if the rows of the user are sealed text with
  -- different identifiers that fit an `int` and timestamps that fit a `long`, and the requests that
  -- the editor would make are in these ranges. Meanwhile other users may work on the database and
  -- no other client of this user does.
  pub screen_list-Grows :
      (is : List ListInput) (c : w.Conn) (files : Files)
      → Sound w sq user link c
      → All (λ i. (i.calloc_ok ≡ true) × (confirms i.conf ≡ false)) is
      → AllAllowed w sq user link g is (reload_entries w true (opening w c files))
      → Grows
          (journal w sq user link c)
          (journal w sq user link (screen_list w g true is c files).conn)
  screen_list-Grows is c files sound memory range =
      let j0 = journal w sq user link c in
      let ((_, grows), _) =
        Kept-screen_list w sq user link laws works g j0 Unit is c files (sound, λ _. Grows-refl j0)
          (All-imp is (λ i ok. (ok.0, λ _. ok.1)) memory) range in
      grows tt
