-- ===== src/Client/Ui/Draw/Cursor.antt =====
-- The cursor on the window of the editor in client/ui.c.
use diary.Prelude.{
  ℕ, zero, suc, ◌+◌, ◌-◌, ◌<◌, ◌≤◌, ◌≡◌, ◌≢◌, sym, false, [], ◌∷◌, Text, take, drop, arith,
}
use mathlib.Core.Path.{subst}
use mathlib.Core.List.{Memᴰ}
use diary.Client.Ui.Utf8.{u8_is_cont, conts}
use diary.Client.Ui.Layout.{newline, advance, vpos_from, get_vpos}
use diary.Client.Ui.Editor.{scroll_to}
use diary.Client.Ui.Editor.View.{scroll_to_shows}
use diary.Client.Ui.Draw.{wrapped, draw_text, cursor_place}
use diary.Client.Ui.Draw.Places.{IsLed, draw_text-get_vpos}

vpos_from_col :
    (s : Text) (k cols : ℕ) (p : ℕ × ℕ) → 1 < cols → p.1 < cols → (vpos_from s k cols p).1 < cols
unfolding vpos_from advance
vpos_from_col [] k cols p wide h = h
vpos_from_col (b ∷ s) zero cols p wide h = h
vpos_from_col (b ∷ s) (suc k) cols (r, c) wide h =
    vpos_from_col s k cols (advance cols b (r, c)) wide (ground arith)

-- The view that the editor chooses before it draws.
abbrev pub follow : Text → ℕ → ℕ → ℕ → ℕ → ℕ
follow buf cursor rows cols view_top = scroll_to (rows - 2) (get_vpos buf cursor cols).0 view_top

-- Wherever the view was, on a terminal of at least three rows and two columns, of any size now, the
-- editor leaves the cursor in the window, between the header and the status line.
pub cursor_place_bounds :
    (buf : Text) (cursor rows cols view_top : ℕ)
    → 2 < rows
    → 1 < cols
    → let place = cursor_place buf cursor cols (follow buf cursor rows cols view_top) in
      (1 ≤ place.0) × (place.0 + 1 < rows) × (place.1 < cols)
unfolding cursor_place get_vpos
cursor_place_bounds buf cursor rows cols view_top tall wide =
    let (above, below) =
      scroll_to_shows (rows - 2) (get_vpos buf cursor cols).0 view_top (omega arith) in
    (omega arith, omega arith, vpos_from_col buf cursor cols (0, 0) wide (omega arith))

-- The editor leaves the cursor where it draws the character under it, if that is no newline and its
-- place is not the last column of a row; wherever the view was and whatever the size of the terminal,
-- if it has three rows, and for a text whose continuation bytes follow the bytes of a character.
pub cursor_place-draw_text :
    (buf : Text) (cursor b : ℕ) (rest : Text) (rows cols view_top : ℕ)
    → IsLed false buf
    → drop cursor buf ≡ b ∷ rest
    → u8_is_cont b ≡ false
    → b ≢ newline
    → (get_vpos buf cursor cols).1 + 1 < cols
    → 2 < rows
    → let top = follow buf cursor rows cols view_top in
      let place = cursor_place buf cursor cols top in
      Memᴰ
        (record { row = place.0; col = place.1; bytes = b ∷ take (conts rest) rest })
        (draw_text buf rows cols top)
unfolding cursor_place
cursor_place-draw_text buf cursor b rest rows cols view_top led at first plain inside tall =
    let p = get_vpos buf cursor cols in
    let top = follow buf cursor rows cols view_top in
    let (above, below) = scroll_to_shows (rows - 2) p.0 view_top (omega arith) in
    let same : wrapped cols p ≡ p = ground arith in
    subst
      (λ (q : ℕ × ℕ).
        Memᴰ (record { row = q.0 - top + 1; col = q.1; bytes = b ∷ take (conts rest) rest })
          (draw_text buf rows cols top))
      same
      (draw_text-get_vpos buf cursor b rest rows cols top led at first plain
        (subst (λ (q : ℕ × ℕ). top ≤ q.0) (sym same) above)
        (subst (λ (q : ℕ × ℕ). q.0 - top + 1 < rows - 1) (sym same) (omega arith)))
