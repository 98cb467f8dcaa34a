-- ===== src/Client/Ui/Editor/View.antt =====
-- The view of the editor of client/ui.c follows the cursor.
use diary.Prelude.{ℕ, ◌+◌, ◌≤◌, ◌<◌, arith}
use diary.Client.Ui.Editor.{scroll_to}

-- The row of the cursor is among the rows shown, wherever the view was before, if the view has a
-- row.
pub scroll_to_shows :
    (text_rows cur_vrow view_top : ℕ)
    → 0 < text_rows
    → (scroll_to text_rows cur_vrow view_top ≤ cur_vrow)
      × (cur_vrow < scroll_to text_rows cur_vrow view_top + text_rows)
unfolding scroll_to
scroll_to_shows text_rows cur_vrow view_top h = ground arith
