-- ===== src/Client/Ui/Layout.antt =====
-- Visual positions in client/ui.c: a line wraps at `cols - 1`, and a newline starts a row.
-- A terminal has at least one column.
pub mod RoundTrip
pub mod Rows
use diary.Prelude.{
  ℕ, zero, suc, ◌+◌, ◌-◌, Bool, true, false, ◌&&◌, ◌||◌, List, [], ◌∷◌, Text, leb, ◌==◌,
  if◌then◌else◌,
}
use diary.Client.Ui.Utf8.{u8_is_cont}

abbrev pub newline : ℕ
newline = 10

-- One round of the loop of `get_vpos`: row and column behind the byte `b`.
unfoldable pub advance : ℕ → ℕ → ℕ × ℕ → ℕ × ℕ
advance cols b (r, c) =
    if u8_is_cont b
    then (r, c)
    else if b == newline || leb (cols - 1) c
    then if b == newline then (r + 1, 0) else (r + 1, 0 + 1)
    else (r, c + 1)

-- The rest of the loop, with the bytes left and the bytes left before the cursor.
unfoldable pub vpos_from : Text → ℕ → ℕ → ℕ × ℕ → ℕ × ℕ
unfolding advance
vpos_from [] k cols p = p
vpos_from (b ∷ s) zero cols p = p
vpos_from (b ∷ s) (suc k) cols p = vpos_from s k cols (advance cols b p)

-- The visual row and column of the cursor.
unfoldable pub get_vpos : Text → ℕ → ℕ → ℕ × ℕ
unfolding vpos_from
get_vpos buf cursor cols = vpos_from buf cursor cols (0, 0)

-- The loop of `vpos_to_idx` from the byte `i` on, which has the position (r, c).
unfoldable pub idx_from : Text → ℕ → ℕ → ℕ → ℕ → ℕ → ℕ → ℕ
idx_from [] cols tvr tvc i r c = i
idx_from (b ∷ s) cols tvr tvc i r c =
    let skip = idx_from s cols tvr tvc (i + 1) r c in
    let down = idx_from s cols tvr tvc (i + 1) (r + 1) 0 in
    let wrap = idx_from s cols tvr tvc (i + 1) (r + 1) (0 + 1) in
    let along = idx_from s cols tvr tvc (i + 1) r (c + 1) in
    if u8_is_cont b
    then skip
    else if r == tvr && c == tvc
    then i
    else if b == newline || leb (cols - 1) c
    then if r == tvr then i else if b == newline then down else wrap
    else along

-- The index of a visual position; of the end of its row, or of the text, where the row is shorter.
unfoldable pub vpos_to_idx : Text → ℕ → ℕ → ℕ → ℕ
unfolding idx_from
vpos_to_idx buf cols tvr tvc = idx_from buf cols tvr tvc 0 0 0
