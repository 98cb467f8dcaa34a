-- ===== src/Client/Ui/ListScreen/Draw.antt =====
-- The rows of the list in `screen_list` of client/ui.c: the first line of each entry behind its date.
-- localtime with strftime is a parameter. The header, the status line and the message for an empty
-- list are left out.
use mathlib.Core.Option.{none-ne-some, some-injective}
use diary.Prelude.{
  ℕ, zero, suc, ◌+◌, ◌-◌, ◌<◌, ◌≡◌, refl, ◌∙◌, Bool, true, false, List, [], ◌∷◌, ◌++◌, none, some,
}
use diary.Prelude.{
  arith, Text, codes, length, keep, take, drop, get_elem?, ltb, ◌==◌, if◌then◌else◌,
}
use diary.Prelude.Int.{ℤ}
use diary.Libc.Str.{strchr}
use diary.Client.Net.{DiaryEntry}
use diary.Client.Ui.Layout.{newline}
use diary.Client.Ui.Editor.{scroll_to}
use diary.Client.Ui.Editor.View.{scroll_to_shows}

-- strftime(format) of localtime(t).
abbrev pub LocalTime : Type 0
LocalTime = Text → ℤ → Text

unfoldable pub format_ts : LocalTime → ℤ → Text
format_ts local ts = local (codes "%Y-%m-%d %H:%M") ts

-- The first line of a text, of 60 bytes at most.
unfoldable pub preview : Text → Text
preview text = take 60 (elim (strchr text newline) [ none ↦ text | some (line, _) ↦ line ])

abbrev spaces : ℕ → Text
spaces zero = []
spaces (suc n) = 32 ∷ spaces n

-- "%-16s"
abbrev pad : Text → Text
pad s = s ++ spaces (16 - length s)

-- "  %-16s  %s"
unfoldable pub list_line : LocalTime → DiaryEntry → Text
list_line local e =
    codes "  " ++ (pad (format_ts local e.timestamp) ++ (codes "  " ++ preview e.text))

-- A line printed from column 1 on; the row of the selected entry is highlighted.
pub record ListRow : Type 0 where
  pub row : ℕ
  pub text : Text
  pub highlighted : Bool

-- The loop, on the entries from `entries[i + scroll]` on.
unfoldable pub draw_rows : LocalTime → ℕ → ℕ → ℕ → ℕ → List DiaryEntry → List ListRow
draw_rows local list_rows selected scroll i [] = []
draw_rows local list_rows selected scroll i (e ∷ es) =
    let rest = draw_rows local list_rows selected scroll (i + 1) es in
    let here : ListRow = record {
      row = 2 + i;
      text = list_line local e;
      highlighted = i + scroll == selected;
    } in
    if ltb i list_rows then here ∷ rest else []

unfoldable pub draw_list : LocalTime → ℕ → ℕ → ℕ → List DiaryEntry → List ListRow
unfolding draw_rows
draw_list local list_rows selected scroll entries =
    draw_rows local list_rows selected scroll 0 (drop scroll entries)

module _ (local : LocalTime) (list_rows selected scroll : ℕ) where
  -- Behind the selected entry no row is highlighted.
  draw_rows_past :
      (i : ℕ) (es : List DiaryEntry)
      → selected < i + scroll
      → keep (λ r. r.highlighted) (draw_rows local list_rows selected scroll i es) ≡ []
  unfolding draw_rows
  draw_rows_past i [] h = refl
  draw_rows_past i (e ∷ es) h = ground (arith, draw_rows_past (i + 1) es)

  draw_rows_at :
      (i k : ℕ) (e : DiaryEntry) (es : List DiaryEntry)
      → get_elem? es k ≡ some e
      → selected ≡ i + scroll + k
      → i + k < list_rows
      → keep (λ r. r.highlighted) (draw_rows local list_rows selected scroll i es)
        ≡ record { row = 2 + (i + k); text = list_line local e; highlighted = true } ∷ []
  unfolding draw_rows
  draw_rows_at i k e [] h at seen = absurd (none-ne-some e h)
  draw_rows_at i zero e (f ∷ es) h at seen =
      let in_view : ltb i list_rows ≡ true = ground arith in
      let chosen : (i + scroll == selected) ≡ true = ground arith in
      let place : i + 0 ≡ i = omega arith in
      let past = draw_rows_past (i + 1) es (omega arith) in
      rw (in_view, chosen, place, past, some-injective f e h) refl
  draw_rows_at i (suc k) e (f ∷ es) h at seen =
      let in_view : ltb i list_rows ≡ true = ground arith in
      let other : (i + scroll == selected) ≡ false = ground arith in
      let place : i + suc k ≡ i + 1 + k = omega arith in
      rw (in_view, other, place) (draw_rows_at (i + 1) k e es h (omega arith) (omega arith))

get_elem?-drop :
    {A : Type 0} (n i : ℕ) (xs : List A) → get_elem? (drop n xs) i ≡ get_elem? xs (n + i)
get_elem?-drop zero i xs = let e : 0 + i ≡ i = omega arith in rw e refl
get_elem?-drop (suc n) i [] = refl
get_elem?-drop (suc n) i (x ∷ xs) =
    let e : suc n + i ≡ suc (n + i) = omega arith in rw e (get_elem?-drop n i xs)

-- If the selection is an entry and the list has a row to show, exactly one row is highlighted, one of
-- the rows of the list: that of the selected entry, with its date and the start of its text, wherever
-- the list was scrolled to before.
pub draw_list-highlighted :
    (local : LocalTime) (list_rows selected scroll : ℕ) (entries : List DiaryEntry) (e : DiaryEntry)
    → 0 < list_rows
    → get_elem? entries selected ≡ some e
    → let top = scroll_to list_rows selected scroll in
      (keep (λ r. r.highlighted) (draw_list local list_rows selected top entries)
        ≡ record { row = 2 + (selected - top); text = list_line local e; highlighted = true } ∷ [])
      × (selected - top < list_rows)
unfolding draw_list
draw_list-highlighted local list_rows selected scroll entries e some_row at =
    let top = scroll_to list_rows selected scroll in
    let (above, below) = scroll_to_shows list_rows selected scroll some_row in
    let same : top + (selected - top) ≡ selected = omega arith in
    let there : get_elem? (drop top entries) (selected - top) ≡ some e =
      get_elem?-drop top (selected - top) entries ∙ rw same at in
    let place : 0 + (selected - top) ≡ selected - top = omega arith in
    (
      rw⁻¹ place (
          draw_rows_at local list_rows selected top 0 (selected - top) e (drop top entries) there
            (omega arith) (omega arith)),
      omega arith,
    )
