-- ===== src/Client/Ui/Layout/Rows.antt =====
-- Rows that a soft wrap starts, in client/ui.c: no byte has the position of their first column.
use diary.Prelude.{ℕ, ◌+◌, ◌<◌, ◌≡◌, ◌≢◌, refl, ◌⊎◌, inl, [], ◌∷◌}
use diary.Prelude.{arith, Text, All}
use diary.Client.Ui.Layout.{newline, idx_from, vpos_to_idx}

-- From a place that is not the start of a later row, the searches for the first column of the row
-- `tvr` and for a column past its end stop at the same byte.
idx_from_wrapped :
    (s : Text) (cols tvr i r c : ℕ)
    → All (λ b. b ≢ newline) s
    → (r < tvr) ⊎ (0 < c)
    → c < cols
    → 1 < cols
    → idx_from s cols tvr 0 i r c ≡ idx_from s cols tvr cols i r c
unfolding idx_from
idx_from_wrapped [] cols tvr i r c lines place fits wide = refl
idx_from_wrapped (b ∷ s) cols tvr i r c lines place fits wide = ground (
  arith,
  idx_from_wrapped s cols tvr (i + 1) r c lines.1,
  idx_from_wrapped s cols tvr (i + 1) (r + 1) (0 + 1) lines.1,
  idx_from_wrapped s cols tvr (i + 1) r (c + 1) lines.1,
)

-- On every row but the first of a text without newlines, on a terminal of two columns or more,
-- the index of the first column, where the Home key goes, is the index of the end of the row,
-- where the End key goes.
pub vpos_to_idx_wrapped :
    (buf : Text) (cols tvr : ℕ)
    → All (λ b. b ≢ newline) buf
    → 0 < tvr
    → 1 < cols
    → vpos_to_idx buf cols tvr 0 ≡ vpos_to_idx buf cols tvr cols
unfolding vpos_to_idx
vpos_to_idx_wrapped buf cols tvr lines later wide =
    idx_from_wrapped buf cols tvr 0 0 0 lines (inl later) (omega arith) wide
