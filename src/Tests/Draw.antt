-- ===== src/Tests/Draw.antt =====
-- The drawing of the screens at concrete inputs.
use diary.Prelude.{
  if◌then◌else◌, ◌≤◌, ◌==◌, codes, ℕ, ◌<◌, true, keep, ◌≡◌, refl, false, [], ◌∷◌, Text, arith, All,
}
use mathlib.Core.List.{Memᴰ}
use diary.Client.Ui.Utf8.{u8_is_cont, u8_char_len, conts}
use diary.Client.Ui.Layout.{get_vpos, vpos_from, advance}
use diary.Client.Ui.Editor.{scroll_to}
use diary.Prelude.Int.{pos}
use diary.Libc.Str.{strchr}
use diary.Client.Net.{DiaryEntry}
use diary.Client.Ui.ListScreen.Draw.{
  LocalTime, format_ts, preview, list_line, draw_list, draw_list-highlighted,
}
use diary.Client.Ui.Draw.{Drawn, draw_from, draw_text, cursor_place}
use diary.Client.Ui.Draw.Bounds.{InWindow, Clear, draw_text-InWindow}
use diary.Client.Ui.Draw.Places.{IsLed, draw_text-get_vpos}
use diary.Client.Ui.Draw.Cursor.{cursor_place-draw_text}

-- "aé", a newline and "bcde".
abbrev text : Text
text = 97 ∷ 195 ∷ 169 ∷ 10 ∷ 98 ∷ 99 ∷ 100 ∷ 101 ∷ []

drawn :
    draw_text text 6 4 0
    ≡ record { row = 1; col = 0; bytes = 97 ∷ [] }
      ∷ record { row = 1; col = 1; bytes = 195 ∷ 169 ∷ [] }
      ∷ record { row = 2; col = 0; bytes = 98 ∷ [] }
      ∷ record { row = 2; col = 1; bytes = 99 ∷ [] }
      ∷ record { row = 2; col = 2; bytes = 100 ∷ [] }
      ∷ record { row = 3; col = 0; bytes = 101 ∷ [] }
      ∷ []
unfolding draw_text draw_from u8_char_len conts u8_is_cont
drawn = refl

-- The cells of a terminal: a tab takes eight, all else one.
abbrev cells : Text → ℕ
cells [] = 1
cells (b ∷ more) = if b == 9 then 8 else 1

narrow : All (λ (d : Drawn). cells d.bytes ≤ 1) (draw_text text 6 4 1)
unfolding draw_text draw_from u8_char_len conts u8_is_cont
narrow = ground arith

draw_text-InWindow_example :
    All (InWindow 6 4) (draw_text text 6 4 1) × Clear cells (draw_text text 6 4 1)
draw_text-InWindow_example = draw_text-InWindow cells text 6 4 1 (omega arith) narrow

led : IsLed false text
unfolding u8_is_cont
led = (
  (λ e. e),
  (
    (λ e. refl),
    ((λ e. refl), ((λ e. refl), ((λ e. e), ((λ e. refl), ((λ e. refl), ((λ e. refl), refl)))))),
  ),
)

draw_text-get_vpos_example :
    Memᴰ (record { row = 3; col = 0; bytes = 101 ∷ [] }) (draw_text text 6 4 0)
unfolding get_vpos vpos_from advance u8_is_cont conts
draw_text-get_vpos_example =
    draw_text-get_vpos text 7 101 [] 6 4 0 led refl refl (λ e. omega arith) (omega arith)
      (omega arith)

cursor_place-draw_text_example :
    Memᴰ (record { row = 1; col = 1; bytes = 99 ∷ [] }) (draw_text text 3 4 1)
unfolding get_vpos vpos_from advance u8_is_cont conts cursor_place scroll_to
cursor_place-draw_text_example =
    cursor_place-draw_text text 5 99 (100 ∷ 101 ∷ []) 3 4 0 led refl refl (λ e. omega arith)
      (omega arith) (omega arith)

-- Three entries, of which the third is selected, in a list of two rows.
abbrev entry : ℕ → DiaryEntry
entry n = record { id = pos n; timestamp = pos 0; text = codes "one line\nmore" }

abbrev local : LocalTime
local format t = codes "1970-01-01 00:00"

draw_list-highlighted_example :
    (keep (λ r. r.highlighted) (draw_list local 2 2 1 (entry 1 ∷ entry 2 ∷ entry 3 ∷ []))
      ≡ record { row = 3; text = codes "  1970-01-01 00:00  one line"; highlighted = true } ∷ [])
    × (1 < 2)
unfolding scroll_to list_line preview format_ts strchr
draw_list-highlighted_example =
    draw_list-highlighted local 2 2 0 (entry 1 ∷ entry 2 ∷ entry 3 ∷ []) (entry 3) (omega arith)
      refl
