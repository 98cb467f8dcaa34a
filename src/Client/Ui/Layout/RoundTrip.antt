-- ===== src/Client/Ui/Layout/RoundTrip.antt =====
-- `vpos_to_idx` of client/ui.c undoes `get_vpos`, and always leads to a place between characters.
use diary.Prelude.{ℕ, zero, suc, ◌+◌, ◌-◌, ◌≤◌, ◌<◌, ◌≡◌, refl, ◌⊎◌, false, ◌&&◌, ◌||◌, [], ◌∷◌}
use diary.Prelude.{arith, Text, length, leb, ◌==◌, if_cases}
use diary.Client.Ui.Utf8.{u8_is_cont, cont_at}
use diary.Client.Ui.Layout.{newline, vpos_from, get_vpos, idx_from, vpos_to_idx}

-- `q` is the position `(r, c)` or comes later.
abbrev Later : ℕ → ℕ → ℕ × ℕ → Type 0
Later r c q = (r < q.0) ⊎ ((r ≡ q.0) × (c ≤ q.1))

Later-vpos_from : (s : Text) (k cols r c : ℕ) → Later r c (vpos_from s k cols (r, c))
unfolding vpos_from
Later-vpos_from [] k cols r c = ground arith
Later-vpos_from (b ∷ s) zero cols r c = ground arith
Later-vpos_from (b ∷ s) (suc k) cols r c = ground (
  arith,
  Later-vpos_from s k cols r c,
  Later-vpos_from s k cols (r + 1) 0,
  Later-vpos_from s k cols (r + 1) (0 + 1),
  Later-vpos_from s k cols r (c + 1),
)

idx_from-vpos_from :
    (s : Text) (k cols i r c : ℕ)
    → k ≤ length s
    → cont_at s k ≡ false
    → idx_from s cols (vpos_from s k cols (r, c)).0 (vpos_from s k cols (r, c)).1 i r c ≡ i + k
unfolding idx_from vpos_from cont_at
idx_from-vpos_from [] zero cols i r c h e = omega arith
idx_from-vpos_from [] (suc k) cols i r c h e = absurd (omega arith)
idx_from-vpos_from (b ∷ s) zero cols i r c h e = ground arith
idx_from-vpos_from (b ∷ s) (suc k) cols i r c h e = ground (
  arith,
  idx_from-vpos_from s k cols (i + 1) r c,
  idx_from-vpos_from s k cols (i + 1) (r + 1) 0,
  idx_from-vpos_from s k cols (i + 1) (r + 1) (0 + 1),
  idx_from-vpos_from s k cols (i + 1) r (c + 1),
  Later-vpos_from s k cols (r + 1) 0,
  Later-vpos_from s k cols (r + 1) (0 + 1),
  Later-vpos_from s k cols r (c + 1),
)

-- The index at the position of a cursor is the cursor, at the end of the text and before every
-- byte of it that starts a character, whatever the width.
pub vpos_to_idx-get_vpos :
    (buf : Text) (cursor cols : ℕ)
    → cursor ≤ length buf
    → cont_at buf cursor ≡ false
    → vpos_to_idx buf cols (get_vpos buf cursor cols).0 (get_vpos buf cursor cols).1 ≡ cursor
unfolding vpos_to_idx get_vpos
vpos_to_idx-get_vpos buf cursor cols h e =
    omega (arith, idx_from-vpos_from buf cursor cols 0 0 0 h e)

-- An index of the text whose first byte has the index `i`: the end, or the start of a character.
abbrev IsStop : Text → ℕ → ℕ → Type 0
IsStop s i x = (k : ℕ) × (x ≡ i + k) × (k ≤ length s) × (cont_at s k ≡ false)

IsStop-here : (b : ℕ) (s : Text) (i : ℕ) → u8_is_cont b ≡ false → IsStop (b ∷ s) i i
unfolding cont_at
IsStop-here b s i h = (0, omega arith, omega arith, h)

IsStop-later : (b : ℕ) (s : Text) (i x : ℕ) → IsStop s (i + 1) x → IsStop (b ∷ s) i x
unfolding cont_at
IsStop-later b s i x (k, at, bound, boundary) = (suc k, omega arith, omega arith, boundary)

-- What the loop returns lies within the text, and is the end or starts a character.
idx_from-IsStop : (s : Text) (cols tvr tvc i r c : ℕ) → IsStop s i (idx_from s cols tvr tvc i r c)
unfolding idx_from
idx_from-IsStop [] cols tvr tvc i r c = (0, omega arith, omega arith, unfold cont_at in refl)
idx_from-IsStop (b ∷ s) cols tvr tvc i r c =
    let later =
      λ (r' c' : ℕ). IsStop-later b s i _ (idx_from-IsStop s cols tvr tvc (i + 1) r' c') in
    let P = λ (x : ℕ). IsStop (b ∷ s) i x in
    if_cases P (u8_is_cont b) _ _ (λ _. later r c)
      λ plain.
        let here = IsStop-here b s i plain in
        if_cases P (r == tvr && c == tvc) _ _ (λ _. here)
          λ _.
            if_cases P (b == newline || leb (cols - 1) c) _ _
              (λ _.
                if_cases P (r == tvr) _ _ (λ _. here)
                  λ _.
                    if_cases P (b == newline) _ _ (λ _. later (r + 1) 0)
                      (λ _. later (r + 1) (0 + 1)))
              (λ _. later r (c + 1))

-- A move to any visual position leaves the cursor within the text and between characters.
pub vpos_to_idx_bounds :
    (buf : Text) (cols tvr tvc : ℕ)
    → (vpos_to_idx buf cols tvr tvc ≤ length buf)
      × (cont_at buf (vpos_to_idx buf cols tvr tvc) ≡ false)
unfolding vpos_to_idx
vpos_to_idx_bounds buf cols tvr tvc =
    let (k, at, bound, boundary) = idx_from-IsStop buf cols tvr tvc 0 0 0 in
    let e : 0 + k ≡ k = omega arith in (omega arith, rw (at, e) boundary)
