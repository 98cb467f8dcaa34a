-- ===== src/Client/Ui/ListScreen/InRange.antt =====
-- The selection in the list of client/ui.c and the array of entries.
use diary.Prelude.{
  ℕ, zero, suc, ◌≤◌, ◌<◌, ◌≡◌, refl, ◌∙◌, ◌⊎◌, inl, inr, Bool, Bool-cases, true, false, List, [],
  ◌∷◌, Option, none, some,
}
use diary.Prelude.{arith, Text, length, get_elem?, ltb, if_cases}
use diary.Prelude.Int.{ℤ, pos}
use diary.Client.Net.{Wire, DiaryEntry}
use diary.Client.Ui.Backup.{Files}
use diary.Client.Ui.Editor.{scroll_to}
use diary.Client.Ui.ListScreen.{
  Screen, silent, Command, quit, go_up, go_down, read_entry, new_entry, edit_entry, delete_entry,
  reload, nothing, command_of, confirms, ListInput, reload_entries, clamp, edit, with_selected,
  request_delete, select_last, announce, delete_selected, on_command, list_step, list_loop,
  screen_list,
}

-- The selection is an entry, or there is none; no entry outside the array was read.
pub record InRange {w : Wire} (s : Screen w) : Type 0 where
  pub selection : (s.selected < length s.entries) ⊎ (length s.entries ≡ 0)
  pub sound : s.fault ≡ false

get_elem?-lt :
    {A : Type 0} (xs : List A) (i : ℕ) → i < length xs → (a : A) × (get_elem? xs i ≡ some a)
get_elem?-lt [] i h = absurd (omega arith)
get_elem?-lt (x ∷ xs) zero h = (x, refl)
get_elem?-lt (x ∷ xs) (suc i) h = get_elem?-lt xs i (omega arith)

module _ (w : Wire) where
  reload-fault : (calloc_ok : Bool) (s : Screen w) → (reload_entries w calloc_ok s).fault ≡ s.fault
  unfolding reload_entries
  reload-fault calloc_ok s = ground arith

  reload-selected :
      (calloc_ok : Bool) (s : Screen w) → (reload_entries w calloc_ok s).selected ≡ s.selected
  unfolding reload_entries
  reload-selected calloc_ok s = ground arith

  edit-fault :
      (g : ℤ) (i : ListInput) (id : ℤ) (t : Option Text) (s : Screen w)
      → (edit w g i.edits id t s).fault ≡ s.fault
  unfolding edit
  edit-fault g i id t s = refl

  clamp-InRange : (s : Screen w) → s.fault ≡ false → InRange (clamp w s)
  unfolding clamp
  clamp-InRange s h = record { selection = ground arith; sound = ground arith }

  select_last-InRange : (s : Screen w) → s.fault ≡ false → InRange (select_last w s)
  unfolding select_last
  select_last-InRange s h = record { selection = ground arith; sound = h }

  announce-InRange : (s : Screen w) → InRange s → InRange (announce w s)
  unfolding announce
  announce-InRange s h = record {
    selection = ground (arith, h.selection);
    sound = ground (arith, h.sound);
  }

  -- What happens to the selected entry, which is in the array.
  with_selected-cases :
      (P : Screen w → Type 0) (f : DiaryEntry → Screen w) (s : Screen w)
      → InRange s
      → (s.selected < length s.entries → (e : DiaryEntry) → P (f e))
      → P s
      → P (with_selected w f s)
  unfolding with_selected
  with_selected-cases P f s range entry same = elim (Bool-cases (ltb 0 (length s.entries))) [
    | inl some_entry ↦
        let inside : s.selected < length s.entries = ground (arith, range.selection) in
        let (e, at) = get_elem?-lt s.entries s.selected inside in
        rw (some_entry, at) (entry inside e)
    | inr empty ↦ rw empty same
  ]

  delete-InRange :
      (i : ListInput) (e : DiaryEntry) (s : Screen w)
      → InRange s
      → InRange (delete_selected w i e s)
  unfolding delete_selected
  delete-InRange i e s range =
      let asked = request_delete w e s in
      let kept : asked.fault ≡ s.fault = unfold request_delete in refl in
      if_cases (λ (t : Screen w). InRange t) (confirms i.conf)
        (clamp w (reload_entries w i.calloc_ok asked)) s
        (λ _.
          clamp-InRange (reload_entries w i.calloc_ok asked)
            (reload-fault i.calloc_ok asked ∙ kept ∙ range.sound))
        (λ _. range)

  moved-InRange :
      (n : ℕ) (s : Screen w)
      → InRange s
      → n < length s.entries
      → InRange (record s { selected = n })
  moved-InRange n s range h = record { selection = inl h; sound = range.sound }

  -- An edit after which there are as many entries as before or more, or none.
  abbrev pub Keeps : Screen w → Screen w → Type 0
  Keeps s s' = (length s.entries ≤ length s'.entries) ⊎ (length s'.entries ≡ 0)

  -- The edit, and the entries after it.
  edited-InRange :
      (g : ℤ) (i : ListInput) (e : DiaryEntry) (s : Screen w)
      → InRange s
      → s.selected < length s.entries
      → (let s' = reload_entries w i.calloc_ok (edit w g i.edits e.id (some e.text) s) in
          Keeps s s' → InRange s')
  edited-InRange g i e s range inside keeps =
      let done = edit w g i.edits e.id (some e.text) s in
      let same : done.selected ≡ s.selected = unfold edit in refl in
      let place = reload-selected i.calloc_ok done ∙ same in
      record {
        selection = rw place (ground (arith, keeps, inside));
        sound = reload-fault i.calloc_ok done ∙ edit-fault g i e.id (some e.text) s ∙ range.sound;
      }

  -- The commands.
  on_command-InRange :
      (g : ℤ) (i : ListInput) (k : Command) (s : Screen w)
      → InRange s
      → (k ≡ edit_entry → Keeps s (on_command w g i k s))
      → InRange (on_command w g i k s)
  unfolding on_command
  on_command-InRange g i quit s range keeps = record {
    selection = range.selection;
    sound = range.sound;
  }
  on_command-InRange g i go_up s range keeps = record {
    selection = ground (arith, range.selection);
    sound = ground (arith, range.sound);
  }
  on_command-InRange g i go_down s range keeps = record {
    selection = ground (arith, range.selection);
    sound = ground (arith, range.sound);
  }
  on_command-InRange g i read_entry s range keeps =
      with_selected-cases (λ (t : Screen w). InRange t) (λ _. s) s range (λ _ _. range) range
  on_command-InRange g i new_entry s range keeps =
      let done = edit w g i.edits (pos 0) none s in
      select_last-InRange (reload_entries w i.calloc_ok done)
        (reload-fault i.calloc_ok done ∙ edit-fault g i (pos 0) none s ∙ range.sound)
  on_command-InRange g i edit_entry s range keeps =
      let P = λ (t : Screen w). Keeps s t → InRange t in
      let edited =
        λ (e : DiaryEntry). reload_entries w i.calloc_ok (edit w g i.edits e.id (some e.text) s) in
      with_selected-cases P edited s range (λ inside e. edited-InRange g i e s range inside)
        (λ _. range) (keeps refl)
  on_command-InRange g i delete_entry s range keeps =
      with_selected-cases (λ (t : Screen w). InRange t) (λ e. delete_selected w i e s) s range
        (λ _ e. delete-InRange i e s range) range
  on_command-InRange g i reload s range keeps =
      announce-InRange (clamp w (reload_entries w i.calloc_ok s))
        (clamp-InRange (reload_entries w i.calloc_ok s) (reload-fault i.calloc_ok s ∙ range.sound))
  on_command-InRange g i nothing s range keeps = range

  -- The state in which a round reads its key.
  abbrev shown : ListInput → Screen w → Screen w
  shown i s = record s { scroll = scroll_to i.list_rows s.selected s.scroll; status = silent }

  list_step-InRange :
      (g : ℤ) (i : ListInput) (s : Screen w)
      → InRange s
      → (command_of i.key ≡ edit_entry → Keeps s (list_step w g i s))
      → InRange (list_step w g i s)
  unfolding list_step
  list_step-InRange g i s range keeps =
      on_command-InRange g i (command_of i.key) (shown i s)
        (record { selection = range.selection; sound = range.sound }) keeps

  -- In every round of a run that edits an entry, no entry has been lost when the list is read again.
  abbrev pub NoneLost : ℤ → List ListInput → Screen w → Type 0
  NoneLost g [] s = Unit {0}
  NoneLost g (i ∷ is) s =
      (command_of i.key ≡ edit_entry → Keeps s (list_step w g i s))
      × NoneLost g is (list_step w g i s)

  list_loop-InRange :
      (g : ℤ) (is : List ListInput) (s : Screen w)
      → InRange s
      → NoneLost g is s
      → InRange (list_loop w g is s)
  unfolding list_loop
  list_loop-InRange g [] s range kept = range
  list_loop-InRange g (i ∷ is) s range kept =
      if_cases (λ (t : Screen w). InRange t) s.running (list_loop w g is (list_step w g i s)) s
        (λ _.
          list_loop-InRange g is (list_step w g i s) (list_step-InRange g i s range kept.0) kept.1)
        (λ _. range)

  -- The list with the entries that the first request gets.
  abbrev pub opened : Bool → w.Conn → Files → Screen w
  opened calloc_ok conn files = reload_entries w calloc_ok (record {
    conn = conn;
    files = files;
    entries = [];
    selected = 0;
    scroll = 0;
    status = silent;
    running = true;
    fault = false;
  })

  opened-InRange :
      (calloc_ok : Bool) (conn : w.Conn) (files : Files) → InRange (opened calloc_ok conn files)
  unfolding reload_entries
  opened-InRange calloc_ok conn files = record { selection = ground arith; sound = ground arith }

  -- However the list is used, the selection is an entry of the array or the array is empty, and no
  -- entry outside the array is read, if after every edit of an entry there are as many entries as
  -- before or more, or none: another client of the user may have deleted some.
  pub screen_list-InRange :
      (g : ℤ) (calloc_ok : Bool) (is : List ListInput) (conn : w.Conn) (files : Files)
      → NoneLost g is (opened calloc_ok conn files)
      → InRange (screen_list w g calloc_ok is conn files)
  unfolding screen_list
  screen_list-InRange g calloc_ok is conn files kept =
      list_loop-InRange g is (opened calloc_ok conn files) (opened-InRange calloc_ok conn files)
        kept
