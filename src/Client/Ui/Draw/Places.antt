-- ===== src/Client/Ui/Draw/Places.antt =====
-- Where a character of the text is drawn in client/ui.c.
use diary.Prelude.{
  ℕ, zero, suc, ◌+◌, ◌-◌, ◌<◌, ◌≤◌, ◌≡◌, ap, ◌≢◌, sym, ◌∙◌, refl, Bool, Bool-cases, inl, inr, true,
  false, not, List, [], ◌∷◌, Text, length, length-drop, take, drop, ◌==◌, if_cases, arith,
}
use mathlib.Core.Path.{subst}
use mathlib.Core.List.{Memᴰ}
use mathlib.Core.List.Memᴰ.{head, tail}
use diary.Client.Ui.Utf8.{u8_is_cont, conts, u8_char_len}
use diary.Client.Ui.Layout.{newline, advance, vpos_from, get_vpos}
use diary.Client.Ui.Draw.{Drawn, wrapped, in_view, draw_from, draw_text}

-- Continuation bytes follow a byte of a character, as in UTF-8: not a newline and not the start.
abbrev pub IsLed : Bool → Text → Type 0
IsLed led [] = true ≡ true
IsLed led (b ∷ s) = (u8_is_cont b ≡ true → led ≡ true) × IsLed (not (b == newline)) s

IsLed-drop : (led : Bool) (s : Text) → IsLed led s → IsLed false (drop (conts s) s)
unfolding conts
IsLed-drop led [] h = refl
IsLed-drop led (b ∷ s) h = elim (Bool-cases (u8_is_cont b)) [
  | inl e ↦ rw e (IsLed-drop (not (b == newline)) s h.1)
  | inr e ↦ rw e (λ c. sym e ∙ c, h.1)
]

-- Bytes that go on with a character do not move the place.
vpos_from-conts :
    (s : Text) (k cols : ℕ) (p : ℕ × ℕ)
    → vpos_from s (conts s + k) cols p ≡ vpos_from (drop (conts s) s) k cols p
unfolding vpos_from conts advance
vpos_from-conts [] k cols p = refl
vpos_from-conts (b ∷ s) k cols p = elim (Bool-cases (u8_is_cont b)) [
  | inl e ↦
      let next : suc (conts s) + k ≡ suc (conts s + k) = omega arith in
      rw (e, next) (rw e (vpos_from-conts s k cols p))
  | inr e ↦ let none_led : 0 + k ≡ k = omega arith in rw (e, none_led) refl
]

-- A character of the text stands behind the bytes that go on with the one before.
conts_before :
    (s : Text) (k b : ℕ) (rest : Text)
    → drop k s ≡ b ∷ rest
    → u8_is_cont b ≡ false
    → (j : ℕ) × (k ≡ conts s + j) × (drop j (drop (conts s) s) ≡ b ∷ rest)
unfolding conts
conts_before [] k b rest at first = (k, omega arith, at)
conts_before (x ∷ s) zero b rest at first =
    let plain : u8_is_cont x ≡ false = ground (arith) in (0, rw plain (omega arith), rw plain at)
conts_before (x ∷ s) (suc k) b rest at first = elim (Bool-cases (u8_is_cont x)) [
  | inl e ↦
      let (j, place, there) = conts_before s k b rest at first in
      (j, rw e (omega arith), rw e there)
  | inr e ↦ (suc k, rw e (omega arith), rw e at)
]

-- The place of a character that the cursor's place is `p` before.
abbrev pub cell : ℕ → ℕ → ℕ × ℕ → Text → Drawn
cell cols view_top p bytes = record {
  row = (wrapped cols p).0 - view_top + 1;
  col = (wrapped cols p).1;
  bytes = bytes;
}

abbrev Among : Drawn → List Drawn → Type 0
Among d ds = Memᴰ d ds

-- The character at the start of a text is drawn first.
first_drawn :
    (fuel b : ℕ) (s : Text) (rows cols view_top : ℕ) (p : ℕ × ℕ)
    → b ≢ newline
    → in_view rows view_top (wrapped cols p).0 ≡ true
    → Among
        (cell cols view_top p (b ∷ take (conts s) s))
        (draw_from (suc fuel) (b ∷ s) rows cols view_top p)
unfolding draw_from u8_char_len
first_drawn fuel b s rows cols view_top p plain seen =
    let P = Among (cell cols view_top p (b ∷ take (conts s) s)) in
    if_cases P (b == newline) _ _ (λ e. absurd (ground arith))
      λ _.
        if_cases P (in_view rows view_top (wrapped cols p).0) _ _ (λ _. head refl)
          (λ no. absurd (ground arith))

-- What is drawn behind the first character is drawn, from the place behind it on.
rest_drawn :
    (fuel b : ℕ) (s : Text) (rows cols view_top : ℕ) (p : ℕ × ℕ) (d : Drawn)
    → b ≢ newline
    → u8_is_cont b ≡ false
    → Among d (draw_from fuel (drop (conts s) s) rows cols view_top (advance cols b p))
    → Among d (draw_from (suc fuel) (b ∷ s) rows cols view_top p)
unfolding draw_from advance u8_char_len
rest_drawn fuel b s rows cols view_top (r, c) d plain first h =
    let next : advance cols b (r, c) ≡ ((wrapped cols (r, c)).0, (wrapped cols (r, c)).1 + 1) =
      ground arith in
    let there =
      subst (λ (q : ℕ × ℕ). Among d (draw_from fuel (drop (conts s) s) rows cols view_top q)) next
        h in
    if_cases (Among d) (b == newline) _ _ (λ e. absurd (ground arith))
      λ _.
        if_cases (Among d) (in_view rows view_top (wrapped cols (r, c)).0) _ _ (λ _. tail there)
          (λ _. there)

next_row_drawn :
    (fuel b : ℕ) (s : Text) (rows cols view_top : ℕ) (p : ℕ × ℕ) (d : Drawn)
    → b ≡ newline
    → Among d (draw_from fuel s rows cols view_top (advance cols b p))
    → Among d (draw_from (suc fuel) (b ∷ s) rows cols view_top p)
unfolding draw_from advance u8_is_cont
next_row_drawn fuel b s rows cols view_top (r, c) d e h =
    let next : advance cols b (r, c) ≡ (r + 1, 0) = rw e refl in
    let there = subst (λ (q : ℕ × ℕ). Among d (draw_from fuel s rows cols view_top q)) next h in
    if_cases (Among d) (b == newline) _ _ (λ _. there) (λ no. absurd (ground arith))

nothing_at : (k b : ℕ) (rest : Text) → drop k [] ≢ b ∷ rest
nothing_at zero b rest = ground arith
nothing_at (suc k) b rest = ground arith

-- Wherever the drawing starts, a character is drawn at its place from there.
draw_from_lem :
    (fuel : ℕ) (s : Text) (k b : ℕ) (rest : Text) (rows cols view_top : ℕ) (p : ℕ × ℕ)
    → length s ≤ fuel
    → IsLed false s
    → drop k s ≡ b ∷ rest
    → u8_is_cont b ≡ false
    → b ≢ newline
    → in_view rows view_top (wrapped cols (vpos_from s k cols p)).0 ≡ true
    → Among
        (cell cols view_top (vpos_from s k cols p) (b ∷ take (conts rest) rest))
        (draw_from fuel s rows cols view_top p)
unfolding vpos_from
draw_from_lem fuel [] k b rest rows cols view_top p enough led at first plain seen =
    absurd (nothing_at k b rest at)
draw_from_lem zero (x ∷ s) k b rest rows cols view_top p enough led at first plain seen =
    absurd (omega arith)
draw_from_lem (suc fuel) (x ∷ s) zero b rest rows cols view_top p enough led at first plain seen =
    subst
      (λ (t : Text).
        Among (cell cols view_top p (b ∷ take (conts rest) rest))
          (draw_from (suc fuel) t rows cols view_top p))
      (sym at) (first_drawn fuel b rest rows cols view_top p plain seen)
draw_from_lem (suc fuel) (x ∷ s) (suc k) b rest rows cols view_top p enough led at first plain
      seen =
    let starts : u8_is_cont x ≡ false = ground (arith, led.0) in
    elim (Bool-cases (x == newline)) [
      | inl e ↦ next_row_drawn fuel x s rows cols view_top p _ (ground arith) (
          draw_from_lem fuel s k b rest rows cols view_top (advance cols x p) (omega arith)
            (subst (λ (t : Bool). IsLed (not t) s) e led.1) at first plain seen)
      | inr e ↦
          let (j, place, there) = conts_before s k b rest at first in
          let moved : vpos_from s k cols (advance cols x p)
              ≡ vpos_from (drop (conts s) s) j cols (advance cols x p) =
            ap (λ n. vpos_from s n cols (advance cols x p)) place
            ∙ vpos_from-conts s j cols (advance cols x p) in
          rest_drawn fuel x s rows cols view_top p _ (ground arith) starts (
            subst
              (λ (q : ℕ × ℕ).
                Among (cell cols view_top q (b ∷ take (conts rest) rest))
                  (draw_from fuel (drop (conts s) s) rows cols view_top (advance cols x p)))
              (sym moved)
              (draw_from_lem fuel (drop (conts s) s) j b rest rows cols view_top (advance cols x p)
                (omega (arith, length-drop (conts s) s)) (IsLed-drop _ s led.1) there first plain
                (subst (λ (q : ℕ × ℕ). in_view rows view_top (wrapped cols q).0 ≡ true) moved
                  seen)))
    ]

-- Every character of a text, but a newline, is drawn whole with the bytes that go on with it, where
-- the row that it stands in is in view: at the place that `get_vpos` gives the cursor on it or, if that
-- is the last column, at the start of the next row; for a text whose continuation bytes follow the
-- bytes of a character, as in UTF-8, and whatever the size of the terminal.
pub draw_text-get_vpos :
    (text : Text) (k b : ℕ) (rest : Text) (rows cols view_top : ℕ)
    → IsLed false text
    → drop k text ≡ b ∷ rest
    → u8_is_cont b ≡ false
    → b ≢ newline
    → let p = wrapped cols (get_vpos text k cols) in
      view_top ≤ p.0
      → p.0 - view_top + 1 < rows - 1
      → Memᴰ
          (record { row = p.0 - view_top + 1; col = p.1; bytes = b ∷ take (conts rest) rest })
          (draw_text text rows cols view_top)
unfolding draw_text get_vpos
draw_text-get_vpos text k b rest rows cols view_top led at first plain above below =
    draw_from_lem (length text) text k b rest rows cols view_top (0, 0) (omega arith) led at first
      plain (ground arith)
