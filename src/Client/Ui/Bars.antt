-- ===== src/Client/Ui/Bars.antt =====
-- The header and the status line of the screens in client/ui.c, as the texts printed.
use diary.Prelude.{
  ℕ, suc, ◌+◌, ◌-◌, ◌/◌, ◌≤◌, ◌<◌, ◌≡◌, ◌++◌, [], arith, Text, codes, length, length-append, ltb,
  if◌then◌else◌, if_cases,
}
use diary.Prelude.Int.{ℤ, pos, is_positive, IsLong}
use diary.Libc.Str.{snprintf, snprintf-fits}
use diary.Libc.Decimal.{print_int}
use diary.Libc.Decimal.RoundTrip.{length-print_int}
use diary.Client.Net.{DiaryEntry}
use diary.Client.Ui.Editor.{is_zero, Status, blank, no_changes, saved, save_failed, unsaved}
use diary.Client.Ui.ListScreen.{ListStatus, silent, fetch_error, deleted, delete_error, reloaded}
use diary.Client.Ui.ListScreen.Draw.{LocalTime, format_ts}

-- The text of `hdr` before it is cut.
abbrev header_text : LocalTime → ℤ → ℤ → ℤ → Text
header_text local entry_id timestamp dirty =
    let mark = if is_zero dirty then [] else codes " *" in
    if is_positive entry_id
    then codes " Entry #"
      ++ (print_int entry_id ++ (codes " - " ++ (format_ts local timestamp ++ (mark ++ codes " "))))
    else codes " New entry - " ++ (format_ts local timestamp ++ (mark ++ codes " "))

unfoldable pub editor_header : LocalTime → ℤ → ℤ → ℤ → Text
editor_header local entry_id timestamp dirty =
    snprintf 128 (header_text local entry_id timestamp dirty)

-- `status_msg`.
unfoldable pub status_msg : Status → ℤ → Text
status_msg blank entry_id = []
status_msg no_changes entry_id = codes "No changes."
status_msg saved entry_id = codes "Saved."
status_msg save_failed entry_id =
    codes "Save failed. Backup: "
    ++ (if is_positive entry_id then codes "diary_X.tmp" else codes "diary_new.tmp")
status_msg unsaved entry_id = codes "Unsaved changes. Press ESC again to discard, Ctrl+S to save."

unfoldable pub editor_bar : Status → ℤ → Text
editor_bar blank entry_id = codes "[Ctrl+S/F2] save  [ESC] exit"
editor_bar status entry_id =
    snprintf 256
      (snprintf 128 (status_msg status entry_id) ++ codes "  |  [Ctrl+S/F2] save  [ESC] exit")

unfoldable pub view_title : LocalTime → DiaryEntry → Text
view_title local e = snprintf 80 (
    codes " Entry #"
    ++ (print_int e.id ++ (codes " - " ++ (format_ts local e.timestamp ++ codes " "))))

-- The first and the last row that the viewer says it shows.
unfoldable pub rows_shown : ℕ → ℕ → ℕ → ℕ × ℕ
rows_shown view_top text_rows total_vrows = (
  view_top + 1,
  if ltb (view_top + text_rows) total_vrows then view_top + text_rows else total_vrows,
)

unfoldable pub view_bar : ℕ → ℕ → ℕ → Text
unfolding rows_shown
view_bar view_top text_rows total_vrows =
    let (first, last) = rows_shown view_top text_rows total_vrows in
    codes "[j/k or scroll] navigate  [Q/ESC] back  ("
    ++ (print_int (pos first)
        ++ (codes "-"
            ++ (print_int (pos last)
                ++ (codes " / " ++ (print_int (pos total_vrows) ++ codes ")")))))

-- The column of a title in the middle of the first row, or 0 if it is wider.
unfoldable pub header_col : ℕ → Text → ℕ
header_col cols title = (cols - length title) / 2

-- The status line of the list.
unfoldable pub list_bar : ListStatus → Text
list_bar silent = codes "[N]ew  [E]dit  [Enter]Read  [D]elete  [R]eload  [Q]uit"
list_bar fetch_error = codes "Error fetching entries."
list_bar deleted = codes "Entry deleted."
list_bar delete_error = codes "Error deleting entry."
list_bar reloaded = codes "Reloaded."

-- The header behind its words: a part, the date, the mark of unsaved changes and a space.
tail_fits :
    (a date mark : Text)
    → length a ≤ 31
    → length date < 32
    → length mark ≤ 2
    → length (a ++ (date ++ (mark ++ codes " "))) ≤ 65
tail_fits a date mark ha hd hm = omega (
  arith,
  length-append a (date ++ (mark ++ codes " ")),
  length-append date (mark ++ codes " "),
  length-append mark (codes " "),
)

-- The header is never cut, for a date that fits its buffer and an identifier in the range of `long`.
pub editor_header_fits :
    (local : LocalTime) (entry_id timestamp dirty : ℤ)
    → IsLong entry_id
    → length (format_ts local timestamp) < 32
    → editor_header local entry_id timestamp dirty ≡ header_text local entry_id timestamp dirty
unfolding editor_header
editor_header_fits local entry_id timestamp dirty long short =
    let date = format_ts local timestamp in
    let mark : Text = if is_zero dirty then [] else codes " *" in
    let marked : length mark ≤ 2 =
      if_cases (λ (t : Text). length t ≤ 2) (is_zero dirty) [] (codes " *") (λ _. omega arith)
        (λ _. omega arith) in
    let tail = tail_fits (codes " - ") date mark (omega arith) short marked in
    let new = tail_fits (codes " New entry - ") date mark (omega arith) short marked in
    let number = length-print_int entry_id long in
    let fits : suc (length (header_text local entry_id timestamp dirty)) ≤ 128 =
      if_cases (λ (t : Text). suc (length t) ≤ 128) (is_positive entry_id) _ _
        (λ _. omega (
          arith,
          tail,
          number,
          length-append (print_int entry_id) (codes " - " ++ (date ++ (mark ++ codes " "))),
        ))
        (λ _. omega (arith, new)) in
    snprintf-fits 128 (header_text local entry_id timestamp dirty) fits

-- The rows that the viewer says it shows are rows of the text, the first not behind the last, where
-- the first row in view is not past the last screen.
pub rows_shown_bounds :
    (view_top text_rows total_vrows : ℕ)
    → 0 < text_rows
    → 0 < total_vrows
    → view_top ≤ total_vrows - text_rows
    → let (first, last) = rows_shown view_top text_rows total_vrows in
      (1 ≤ first) × (first ≤ last) × (last ≤ total_vrows)
unfolding rows_shown
rows_shown_bounds view_top text_rows total_vrows tall some_row h = ground arith
