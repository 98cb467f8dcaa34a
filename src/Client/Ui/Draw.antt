-- ===== src/Client/Ui/Draw.antt =====
-- The loop that draws a text in client/ui.c, which `screen_editor` and `screen_view` both have: what it
-- writes on the window, and the place where the editor leaves the cursor. A terminal has at least one
-- row. Colours, the header and the status line are left out, and so is what the terminal makes of a
-- character: the loop counts one column for each, whichever number of cells the character takes there
-- (a wide character two, a tab up to eight).
pub mod Bounds
pub mod Places
pub mod Cursor
use diary.Prelude.{
  ℕ, zero, suc, ◌+◌, ◌-◌, Bool, ◌&&◌, List, [], ◌∷◌, Text, length, take, drop, ltb, leb, ◌==◌,
  if◌then◌else◌,
}
use diary.Client.Ui.Utf8.{u8_char_len}
use diary.Client.Ui.Layout.{newline, get_vpos}

-- A call of mvwaddnstr: the bytes of a character, and the place at which it starts.
pub record Drawn : Type 0 where
  pub row : ℕ
  pub col : ℕ
  pub bytes : Text

-- vcol >= cols - 1
abbrev pub wrapped : ℕ → ℕ × ℕ → ℕ × ℕ
wrapped cols (r, c) = if leb (cols - 1) c then (r + 1, 0) else (r, c)

-- wr >= 1 && wr < rows - 1, for the visual row `r`.
abbrev pub in_view : ℕ → ℕ → ℕ → Bool
in_view rows view_top r = leb view_top r && ltb (r - view_top + 1) (rows - 1)

-- The loop on the rest of the text, with its position. `vcol++` is one column for any character, as in
-- the source; the cells that ncurses then fills are not a part of this.
unfoldable pub draw_from : ℕ → Text → ℕ → ℕ → ℕ → ℕ × ℕ → List Drawn
draw_from zero s rows cols view_top p = []
draw_from (suc fuel) [] rows cols view_top p = []
draw_from (suc fuel) (b ∷ s) rows cols view_top p =
    let clen = u8_char_len (b ∷ s) 0 in
    let (r, c) = wrapped cols p in
    let down = draw_from fuel s rows cols view_top (p.0 + 1, 0) in
    let rest = draw_from fuel (drop clen (b ∷ s)) rows cols view_top (r, c + 1) in
    let here : Drawn = record { row = r - view_top + 1; col = c; bytes = take clen (b ∷ s) } in
    if b == newline then down else if in_view rows view_top r then here ∷ rest else rest

unfoldable pub draw_text : Text → ℕ → ℕ → ℕ → List Drawn
unfolding draw_from
draw_text text rows cols view_top = draw_from (length text) text rows cols view_top (0, 0)

-- wmove(win, cur_vrow - view_top + 1, cur_vcol)
unfoldable pub cursor_place : Text → ℕ → ℕ → ℕ → ℕ × ℕ
cursor_place buf cursor cols view_top =
    let (r, c) = get_vpos buf cursor cols in (r - view_top + 1, c)
