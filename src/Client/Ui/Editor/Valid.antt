-- ===== src/Client/Ui/Editor/Valid.antt =====
-- The well-formed editor of client/ui.c: every edit and every move keeps the cursor within the text
-- and between characters, and the terminating NUL within the buffer.
use diary.Prelude.{
  ℕ, zero, suc, ◌+◌, ◌-◌, ◌*◌, ◌≤◌, ◌<◌, ◌≡◌, refl, ◌∙◌, inl, inr, true, false, Option, none, some,
}
use diary.Prelude.{arith, Text, length, ltb, if_cases}
use diary.Prelude.Int.{ℤ, pos}
use diary.Client.Ui.Utf8.{
  u8_is_cont, cont_at, OnBoundary, char_start, char_start-OnBoundary, char_start-le, u8_char_len,
  step-OnBoundary, step-le,
}
use diary.Client.Ui.Layout.{vpos_to_idx}
use diary.Client.Ui.Layout.RoundTrip.{vpos_to_idx_bounds}
use diary.Client.Ui.Editor.{
  Editor, Key, up, down, left, right, home, end, mouse, wheel_up, wheel_down, grow, open_editor,
  insert_byte, erase_back, erase_forward, navigate, remove_bytes, scroll_lines,
}
use diary.Client.Ui.Editor.Bytes.{
  cont_at-length, cont_at-remove, cont_at-remove_start, length-remove, cont_at-insert,
  cont_at-insert_start, length-insert,
}

pub record IsValid (e : Editor) : Type 0 where
  pub within : e.cursor ≤ length e.buf
  pub room : length e.buf < e.buf_sz
  pub starts : cont_at e.buf 0 ≡ false
  pub between : cont_at e.buf e.cursor ≡ false

grow_lem : (fuel len sz : ℕ) → 1 ≤ sz → len + 1 < sz + fuel → len + 1 < grow fuel len sz
unfolding grow
grow_lem zero len sz some_room h = omega arith
grow_lem (suc fuel) len sz some_room h = ground (arith, grow_lem fuel len (sz * 2))

-- A text whose first byte starts a character: every text in UTF-8.
abbrev pub StartsWell : Option Text → Type 0
StartsWell none = Unit {0}
StartsWell (some text) = cont_at text 0 ≡ false

-- The editor opens well-formed, on a new entry and on every text whose first byte starts a
-- character.
pub open_editor-IsValid :
    (entry_id : ℤ) (t : Option Text) → StartsWell t → IsValid (open_editor entry_id t)
unfolding open_editor
open_editor-IsValid entry_id none h = record {
  within = omega arith;
  room = omega arith;
  starts = unfold cont_at in refl;
  between = unfold cont_at in refl;
}
open_editor-IsValid entry_id (some text) h = record {
  within = omega arith;
  room = omega (arith, grow_lem (length text) (length text) 4096);
  starts = h;
  between = cont_at-length text;
}

pub insert_byte-IsValid :
    (b : ℕ) (e : Editor)
    → IsValid e
    → length e.buf + 1 < e.buf_sz
    → (u8_is_cont b ≡ true → 0 < e.cursor)
    → IsValid (insert_byte b e)
unfolding insert_byte
insert_byte-IsValid b e v more lead = record {
  within = omega (arith, length-insert e.buf b e.cursor v.within, v.within);
  room = omega (arith, length-insert e.buf b e.cursor v.within);
  starts = cont_at-insert_start e.buf b e.cursor v.within v.starts lead;
  between = cont_at-insert e.buf b e.cursor v.within ∙ v.between;
}

-- A boundary in a text that starts well.
settled : (buf : Text) (i : ℕ) → cont_at buf 0 ≡ false → OnBoundary buf i → cont_at buf i ≡ false
settled buf i first (inl e) = rw e first
settled buf i first (inr e) = e

start-between :
    (buf : Text) (i : ℕ) → cont_at buf 0 ≡ false → cont_at buf (char_start buf i) ≡ false
start-between buf i first = settled buf (char_start buf i) first (char_start-OnBoundary buf i)

step-between :
    (buf : Text) (i : ℕ) → cont_at buf 0 ≡ false → cont_at buf (i + u8_char_len buf i) ≡ false
step-between buf i first = settled buf (i + u8_char_len buf i) first (step-OnBoundary buf i)

remove-IsValid :
    (start stop : ℕ) (e : Editor) (d : ℤ)
    → IsValid e
    → start ≤ stop
    → stop ≤ length e.buf
    → cont_at e.buf stop ≡ false
    → IsValid (record e { buf = remove_bytes start stop e.buf; cursor = start; dirty = d })
remove-IsValid start stop e d v le bound here = record {
  within = omega (arith, length-remove e.buf start stop le bound);
  room = omega (arith, length-remove e.buf start stop le bound, v.room);
  starts = cont_at-remove_start e.buf start stop v.starts here;
  between = cont_at-remove e.buf start stop (omega arith) ∙ here;
}

pub erase_back-IsValid : (e : Editor) → IsValid e → IsValid (erase_back e)
unfolding erase_back
erase_back-IsValid e v =
    if_cases IsValid (ltb 0 e.cursor) _ e
      (λ _.
        remove-IsValid (char_start e.buf (e.cursor - 1)) e.cursor e (pos 1) v
          (omega (arith, char_start-le e.buf (e.cursor - 1))) v.within v.between)
      (λ _. v)

pub erase_forward-IsValid : (e : Editor) → IsValid e → IsValid (erase_forward e)
unfolding erase_forward
erase_forward-IsValid e v =
    if_cases IsValid (ltb e.cursor (length e.buf)) _ e
      (λ inside.
        remove-IsValid e.cursor (e.cursor + u8_char_len e.buf e.cursor) e (pos 1) v (omega arith)
          (step-le e.buf e.cursor (ground arith)) (step-between e.buf e.cursor v.starts))
      (λ _. v)

-- The cursor moves, and the text stays.
move-IsValid :
    (e : Editor) (i : ℕ)
    → IsValid e
    → i ≤ length e.buf
    → cont_at e.buf i ≡ false
    → IsValid (record e { cursor = i })
move-IsValid e i v le here = record {
  within = le;
  room = v.room;
  starts = v.starts;
  between = here;
}

jump-IsValid :
    (e : Editor) (cols r c : ℕ)
    → IsValid e
    → IsValid (record e { cursor = vpos_to_idx e.buf cols r c })
jump-IsValid e cols r c v =
    let (le, here) = vpos_to_idx_bounds e.buf cols r c in
    move-IsValid e (vpos_to_idx e.buf cols r c) v le here

pub navigate-IsValid :
    (k : Key) (cols r c : ℕ) (e : Editor) → IsValid e → IsValid (navigate k cols (r, c) e)
unfolding navigate
navigate-IsValid up cols r c e v =
    if_cases IsValid (ltb 0 r) _ e (λ _. jump-IsValid e cols (r - 1) c v) (λ _. v)
navigate-IsValid down cols r c e v = jump-IsValid e cols (r + 1) c v
navigate-IsValid left cols r c e v =
    if_cases IsValid (ltb 0 e.cursor) _ e
      (λ _.
        move-IsValid e (char_start e.buf (e.cursor - 1)) v
          (omega (arith, char_start-le e.buf (e.cursor - 1), v.within))
          (start-between e.buf (e.cursor - 1) v.starts))
      (λ _. v)
navigate-IsValid right cols r c e v =
    if_cases IsValid (ltb e.cursor (length e.buf)) _ e
      (λ inside.
        move-IsValid e (e.cursor + u8_char_len e.buf e.cursor) v
          (step-le e.buf e.cursor (ground arith)) (step-between e.buf e.cursor v.starts))
      (λ _. v)
navigate-IsValid home cols r c e v = jump-IsValid e cols r 0 v
navigate-IsValid end cols r c e v = jump-IsValid e cols r cols v
navigate-IsValid (mouse wheel_up) cols r c e v = v'
  where
    v' : IsValid (record e { view_top = e.view_top - scroll_lines })
    v' = record { within = v.within; room = v.room; starts = v.starts; between = v.between }
navigate-IsValid (mouse wheel_down) cols r c e v = record {
  within = v.within;
  room = v.room;
  starts = v.starts;
  between = v.between;
}
navigate-IsValid _ cols r c e v = v

-- The message, the view and the flags are no part of the invariant.
pub transfer :
    (e e' : Editor)
    → e'.buf ≡ e.buf
    → e'.buf_sz ≡ e.buf_sz
    → e'.cursor ≡ e.cursor
    → IsValid e
    → IsValid e'
transfer e e' text size place v = record {
  within = rw (place, text) v.within;
  room = rw (text, size) v.room;
  starts = rw text v.starts;
  between = rw (text, place) v.between;
}
