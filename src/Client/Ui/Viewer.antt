-- ===== src/Client/Ui/Viewer.antt =====
-- The viewer of client/ui.c, `screen_view`: how many rows the text takes, and which are shown. The
-- text is wrapped for the width that the terminal has at the start.
use diary.Prelude.{ℕ, ◌+◌, ◌-◌, ◌≤◌, ◌≡◌, refl, Bool, true, false, ◌||◌, List, [], ◌∷◌}
use diary.Prelude.{arith, Text, length, All, ltb, leb, ◌==◌, if◌then◌else◌, if_cases}
use diary.Client.Ui.Utf8.{u8_is_cont}
use diary.Client.Ui.Layout.{newline, vpos_from, get_vpos}
use diary.Client.Ui.Editor.{Key, byte, up, down, mouse, wheel_up, wheel_down, scroll_lines}

-- The loop that counts: rows so far and the column behind a text.
unfoldable pub count_rows : Text → ℕ → ℕ → ℕ → ℕ
count_rows [] cols total_vrows vcol = total_vrows
count_rows (b ∷ s) cols total_vrows vcol =
    let skip = count_rows s cols total_vrows vcol in
    let down = count_rows s cols (total_vrows + 1) 0 in
    let wrap = count_rows s cols (total_vrows + 1) (0 + 1) in
    let along = count_rows s cols total_vrows (vcol + 1) in
    if u8_is_cont b
    then skip
    else if b == newline || leb (cols - 1) vcol
    then if b == newline then down else wrap
    else along

-- What a key does in the viewer.
pub data ViewCommand : Type 0 where
  back line_down line_up scroll_down scroll_up stay : ViewCommand

abbrev is_back : ViewCommand → Bool
is_back back = true
is_back _ = false

unfoldable pub view_command : Key → ViewCommand
view_command (byte b) =
    if b == b'q' || (b == b'Q' || b == 27)
    then back
    else if b == b'j'
    then line_down
    else if b == b'k'
    then line_up
    else stay
view_command down = line_down
view_command up = line_up
view_command (mouse wheel_up) = scroll_up
view_command (mouse wheel_down) = scroll_down
view_command _ = stay

-- The first row shown after a key that stays in the viewer.
unfoldable pub view_move : ViewCommand → ℕ → ℕ → ℕ → ℕ
view_move line_down text_rows total_vrows view_top =
    if ltb (view_top + text_rows) total_vrows then view_top + 1 else view_top
view_move line_up text_rows total_vrows view_top = if ltb 0 view_top then view_top - 1 else view_top
view_move scroll_up text_rows total_vrows view_top = view_top - scroll_lines
view_move scroll_down text_rows total_vrows view_top =
    if ltb total_vrows (view_top + scroll_lines + text_rows)
    then total_vrows - text_rows
    else view_top + scroll_lines
view_move _ text_rows total_vrows view_top = view_top

-- The loop of the viewer on a terminal of one size, until it is left: the first row shown.
unfoldable pub screen_view : List Key → ℕ → ℕ → ℕ → ℕ
unfolding view_move view_command
screen_view [] text_rows total_vrows view_top = view_top
screen_view (k ∷ ks) text_rows total_vrows view_top =
    let rest =
      screen_view ks text_rows total_vrows
        (view_move (view_command k) text_rows total_vrows view_top) in
    if is_back (view_command k) then view_top else rest

count_rows-vpos_from :
    (s : Text) (cols r c : ℕ)
    → count_rows s cols (r + 1) c ≡ (vpos_from s (length s) cols (r, c)).0 + 1
unfolding count_rows vpos_from
count_rows-vpos_from [] cols r c = refl
count_rows-vpos_from (b ∷ s) cols r c = ground (
  arith,
  count_rows-vpos_from s cols r c,
  count_rows-vpos_from s cols (r + 1) 0,
  count_rows-vpos_from s cols (r + 1) (0 + 1),
  count_rows-vpos_from s cols r (c + 1),
)

-- The viewer counts as many rows as the editor does: one more than the row of the end of the text.
pub count_rows-get_vpos :
    (text : Text) (cols : ℕ) → count_rows text cols 1 0 ≡ (get_vpos text (length text) cols).0 + 1
unfolding get_vpos
count_rows-get_vpos text cols = count_rows-vpos_from text cols 0 0

view_move_bounds :
    (k : ViewCommand) (text_rows total_vrows view_top : ℕ)
    → view_top ≤ total_vrows - text_rows
    → view_move k text_rows total_vrows view_top ≤ total_vrows - text_rows
unfolding view_move
view_move_bounds back text_rows total_vrows view_top h = h
view_move_bounds line_down text_rows total_vrows view_top h = ground arith
view_move_bounds line_up text_rows total_vrows view_top h = ground arith
view_move_bounds scroll_down text_rows total_vrows view_top h = ground arith
view_move_bounds scroll_up text_rows total_vrows view_top h = ground arith
view_move_bounds stay text_rows total_vrows view_top h = h

-- However the keys scroll, on a terminal of one size and from such a place, the viewer never
-- shows less than a full screen of a text that fills one, and starts at the top of a text that
-- does not.
pub screen_view_bounds :
    (ks : List Key) (text_rows total_vrows view_top : ℕ)
    → view_top ≤ total_vrows - text_rows
    → screen_view ks text_rows total_vrows view_top ≤ total_vrows - text_rows
unfolding screen_view
screen_view_bounds [] text_rows total_vrows view_top h = h
screen_view_bounds (k ∷ ks) text_rows total_vrows view_top h =
    if_cases (λ top. top ≤ total_vrows - text_rows) (is_back (view_command k)) view_top _ (λ _. h)
      (λ _.
        screen_view_bounds ks text_rows total_vrows
          (view_move (view_command k) text_rows total_vrows view_top)
          (view_move_bounds (view_command k) text_rows total_vrows view_top h))

line_down_lem :
    (text_rows total_vrows view_top : ℕ)
    → view_top ≤ total_vrows - text_rows
    → (view_move line_down text_rows total_vrows view_top ≤ total_vrows - text_rows)
      × (total_vrows - text_rows - view_move line_down text_rows total_vrows view_top
          ≡ total_vrows - text_rows - view_top - 1)
unfolding view_move
line_down_lem text_rows total_vrows view_top h = ground arith

-- From any place that is not past the last screen, on a terminal of one size, as many presses of
-- the down key as there are rows below the screen, or more, lead to the last screen of the text.
pub screen_view_end :
    (ks : List Key) (text_rows total_vrows view_top : ℕ)
    → All (λ k. k ≡ down) ks
    → view_top ≤ total_vrows - text_rows
    → total_vrows - text_rows ≤ view_top + length ks
    → screen_view ks text_rows total_vrows view_top ≡ total_vrows - text_rows
unfolding screen_view
screen_view_end [] text_rows total_vrows view_top downs h enough = omega arith
screen_view_end (k ∷ ks) text_rows total_vrows view_top downs h enough =
    let (bound, left) = line_down_lem text_rows total_vrows view_top h in
    let next = view_move line_down text_rows total_vrows view_top in
    let key : view_command k ≡ line_down = simp downs.0 (unfold view_command in refl) in
    simp key (screen_view_end ks text_rows total_vrows next downs.1 bound (omega arith))
