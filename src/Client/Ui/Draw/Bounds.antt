-- ===== src/Client/Ui/Draw/Bounds.antt =====
-- Where the drawing of client/ui.c writes.
use diary.Prelude.{
  ℕ, zero, suc, ◌+◌, ◌-◌, ◌<◌, ◌≤◌, ◌≡◌, ◌⊎◌, inl, inr, refl, true, List, [], ◌∷◌, Text, length,
  take, drop, ◌==◌, if_cases, arith, All,
}
use diary.Client.Ui.Utf8.{u8_char_len}
use diary.Client.Ui.Layout.{newline}
use diary.Client.Ui.Draw.{Drawn, wrapped, in_view, draw_from, draw_text}

-- The first cell is one of the text: below the header, above the status line and left of the edge.
abbrev pub InWindow : ℕ → ℕ → Drawn → Type 0
InWindow rows cols d = (1 ≤ d.row) × (d.row + 1 < rows) × (d.col + 1 < cols)

-- The place `(r, c)`, of a window that shows the rows from `view_top` on, is before the cell.
abbrev Before : ℕ → ℕ × ℕ → Drawn → Type 0
Before view_top (r, c) d = (r + 1 < d.row + view_top) ⊎ ((r + 1 ≡ d.row + view_top) × (c ≤ d.col))

-- Each cell is before the next: right of it in a row, or in a later row.
abbrev InOrder : List Drawn → Type 0
InOrder [] = true ≡ true
InOrder (d ∷ ds) = All (λ e. (d.row < e.row) ⊎ ((d.row ≡ e.row) × (d.col < e.col))) ds × InOrder ds

draw_from-InWindow :
    (fuel : ℕ) (s : Text) (rows cols view_top : ℕ) (p : ℕ × ℕ)
    → 1 < cols
    → All (InWindow rows cols) (draw_from fuel s rows cols view_top p)
unfolding draw_from
draw_from-InWindow zero s rows cols view_top p h = ground arith
draw_from-InWindow (suc fuel) [] rows cols view_top p h = ground arith
draw_from-InWindow (suc fuel) (b ∷ s) rows cols view_top (r, c) h = ground (
  arith,
  draw_from-InWindow fuel s rows cols view_top (r + 1, 0) h,
  draw_from-InWindow fuel (drop (u8_char_len (b ∷ s) 0) (b ∷ s)) rows cols view_top (r, c + 1) h,
  draw_from-InWindow fuel (drop (u8_char_len (b ∷ s) 0) (b ∷ s)) rows cols view_top (r + 1, 0 + 1)
      h,
)

All-weaken :
    {P Q : Drawn → Type 0} → ((d : Drawn) → P d → Q d) → (ds : List Drawn) → All P ds → All Q ds
All-weaken f [] h = h
All-weaken f (d ∷ ds) h = (f d h.0, All-weaken f ds h.1)

-- `q` is the place `p` or after it.
abbrev Later : ℕ × ℕ → ℕ × ℕ → Type 0
Later p q = (p.0 < q.0) ⊎ ((p.0 ≡ q.0) × (p.1 ≤ q.1))

Before-Later :
    (view_top : ℕ) (p q : ℕ × ℕ) (ds : List Drawn)
    → Later p q
    → All (Before view_top q) ds
    → All (Before view_top p) ds
Before-Later view_top (r, c) (r', c') ds later = All-weaken (λ d h. ground arith) ds

draw_from-Before :
    (fuel : ℕ) (s : Text) (rows cols view_top : ℕ) (p : ℕ × ℕ)
    → All (Before view_top p) (draw_from fuel s rows cols view_top p)
unfolding draw_from
draw_from-Before zero s rows cols view_top p = ground arith
draw_from-Before (suc fuel) [] rows cols view_top p = ground arith
draw_from-Before (suc fuel) (b ∷ s) rows cols view_top (r, c) =
    let rest = drop (u8_char_len (b ∷ s) 0) (b ∷ s) in
    let down =
      Before-Later view_top (r, c) (r + 1, 0) _ (inl (omega arith))
        (draw_from-Before fuel s rows cols view_top (r + 1, 0)) in
    let along =
      Before-Later view_top (r, c) (r, c + 1) _ (inr (refl, omega arith))
        (draw_from-Before fuel rest rows cols view_top (r, c + 1)) in
    let wrap =
      Before-Later view_top (r, c) (r + 1, 0 + 1) _ (inl (omega arith))
        (draw_from-Before fuel rest rows cols view_top (r + 1, 0 + 1)) in
    ground arith

-- A cell at the visual place `(r, c)` comes before all that is drawn from the next place on.
InOrder-cons :
    (view_top r c : ℕ) (d : Drawn) (ds : List Drawn)
    → d.row + view_top ≡ r + 1
    → d.col ≡ c
    → All (Before view_top (r, c + 1)) ds
    → InOrder ds
    → InOrder (d ∷ ds)
InOrder-cons view_top r c d ds row col h rest = (All-weaken (λ e before. ground arith) ds h, rest)

draw_from-InOrder :
    (fuel : ℕ) (s : Text) (rows cols view_top : ℕ) (p : ℕ × ℕ)
    → InOrder (draw_from fuel s rows cols view_top p)
unfolding draw_from
draw_from-InOrder zero s rows cols view_top p = ground arith
draw_from-InOrder (suc fuel) [] rows cols view_top p = ground arith
draw_from-InOrder (suc fuel) (b ∷ s) rows cols view_top p =
    let clen = u8_char_len (b ∷ s) 0 in
    let r = (wrapped cols p).0 in
    let c = (wrapped cols p).1 in
    let rest = draw_from-InOrder fuel (drop clen (b ∷ s)) rows cols view_top (r, c + 1) in
    let here : Drawn = record { row = r - view_top + 1; col = c; bytes = take clen (b ∷ s) } in
    let after = draw_from-Before fuel (drop clen (b ∷ s)) rows cols view_top (r, c + 1) in
    if_cases InOrder (b == newline) _ _
      (λ _. draw_from-InOrder fuel s rows cols view_top (p.0 + 1, 0))
      λ _.
        if_cases InOrder (in_view rows view_top r) _ _
          (λ seen. InOrder-cons view_top r c here _ (ground arith) refl after rest) (λ _. rest)

-- Each character ends before the next starts, or in an earlier row; `cells` is the number of cells
-- that the terminal takes for a character.
abbrev pub Clear : (Text → ℕ) → List Drawn → Type 0
Clear cells [] = true ≡ true
Clear cells (d ∷ ds) =
    All (λ e. (d.row < e.row) ⊎ ((d.row ≡ e.row) × (d.col + cells d.bytes ≤ e.col))) ds
    × Clear cells ds

InOrder-Clear :
    (cells : Text → ℕ) (ds : List Drawn)
    → All (λ d. cells d.bytes ≤ 1) ds
    → InOrder ds
    → Clear cells ds
InOrder-Clear cells [] narrow h = refl
InOrder-Clear cells (d ∷ ds) narrow h =
    let one = narrow.0 in
    (All-weaken (λ e after. ground arith) ds h.0, InOrder-Clear cells ds narrow.1 h.1)

-- What is drawn of a text starts on the window between the header and the status line and left of
-- the right edge, and no character covers another, if the terminal takes at most one cell for each
-- character drawn; on a terminal of at least two columns, whatever its size and whichever rows of
-- the text it shows.
pub draw_text-InWindow :
    (cells : Text → ℕ) (text : Text) (rows cols view_top : ℕ)
    → 1 < cols
    → All (λ d. cells d.bytes ≤ 1) (draw_text text rows cols view_top)
    → All (InWindow rows cols) (draw_text text rows cols view_top)
      × Clear cells (draw_text text rows cols view_top)
unfolding draw_text
draw_text-InWindow cells text rows cols view_top h narrow = (
  draw_from-InWindow (length text) text rows cols view_top (0, 0) h,
  InOrder-Clear cells _ narrow (draw_from-InOrder (length text) text rows cols view_top (0, 0)),
)
