-- ===== src/Client/Ui/Editor/Runs.antt =====
-- How a run of the editor of client/ui.c goes on and stops.
use diary.Prelude.{ℕ, ◌≡◌, refl, true, false, List, [], ◌∷◌}
use diary.Prelude.{arith}
use diary.Prelude.Int.{ℤ}
use diary.Client.Service.{Service}
use diary.Client.Ui.Editor.Saving.{stop_key}
use diary.Client.Ui.Editor.{
  Editor, Input, Key, up, down, left, right, home, end, mouse, Session, is_zero, navigate, refresh,
  editor_step, screen_editor,
}

pub navigate_same :
    (k : Key) (cols r c : ℕ) (e : Editor)
    → ((navigate k cols (r, c) e).buf ≡ e.buf)
      × ((navigate k cols (r, c) e).dirty ≡ e.dirty)
      × ((navigate k cols (r, c) e).status ≡ e.status)
unfolding navigate
navigate_same up cols r c e = ground arith
navigate_same down cols r c e = ground arith
navigate_same left cols r c e = ground arith
navigate_same right cols r c e = ground arith
navigate_same home cols r c e = ground arith
navigate_same end cols r c e = ground arith
navigate_same (mouse w) cols r c e = ground arith
navigate_same k cols r c e = ground arith

module _ (sv : Service) (g_entry_at : ℤ) where
  pub stop_step :
      (i : Input) (s : Session sv)
      → s.running ≡ true
      → i.realloc_ok ≡ true
      → (editor_step sv g_entry_at i s).running ≡ false
      → is_zero (editor_step sv g_entry_at i s).editor.dirty ≡ true
  unfolding editor_step
  stop_step i s going memory stop =
      ground (arith, stop_key sv g_entry_at i i.key (refresh sv i s) (unfold refresh in going) stop)

  pub stopped :
      (is : List Input) (s : Session sv) → s.running ≡ false → screen_editor sv g_entry_at is s ≡ s
  unfolding screen_editor
  stopped [] s stop = refl
  stopped (i ∷ is) s stop = simp stop

  -- A session that goes on has what remains of its run.
  pub run_step :
      (is : List Input) (i : Input) (s : Session sv)
      → s.running ≡ true
      → screen_editor sv g_entry_at (i ∷ is) s
        ≡ screen_editor sv g_entry_at is (editor_step sv g_entry_at i s)
  unfolding screen_editor
  run_step is i s going = simp going
