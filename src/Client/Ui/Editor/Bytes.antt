-- ===== src/Client/Ui/Editor/Bytes.antt =====
-- The text edits of client/ui.c on bytes: lengths, and which bytes continue a character.
use diary.Prelude.{
  ℕ, zero, suc, ◌+◌, ◌-◌, ◌≤◌, ◌<◌, ◌≡◌, refl, ◌∙◌, ap, inl, inr, Bool-cases, true, false, [], ◌∷◌,
  ◌++◌,
}
use diary.Prelude.{arith, Text, length, take, drop, length-append, length-take, length-drop}
use diary.Client.Ui.Utf8.{u8_is_cont, cont_at, cont_at-drop}
use diary.Client.Ui.Editor.{remove_bytes}

cont_at-nil : (i : ℕ) → cont_at [] i ≡ false
unfolding cont_at
cont_at-nil i = refl

pub cont_at-length : (buf : Text) → cont_at buf (length buf) ≡ false
unfolding cont_at
cont_at-length [] = refl
cont_at-length (b ∷ s) = cont_at-length s

-- Behind the first `n` bytes of a text stands what is put there.
cont_at-take-append :
    (buf ys : Text) (n j : ℕ) → n ≤ length buf → cont_at (take n buf ++ ys) (n + j) ≡ cont_at ys j
unfolding cont_at
cont_at-take-append buf ys zero j h = let e : 0 + j ≡ j = omega arith in rw e
cont_at-take-append [] ys (suc n) j h = absurd (omega arith)
cont_at-take-append (b ∷ s) ys (suc n) j h =
    let e : suc n + j ≡ suc (n + j) = omega arith in
    rw e (cont_at-take-append s ys n j (omega arith))

pub cont_at-remove :
    (buf : Text) (start stop : ℕ)
    → start ≤ length buf
    → cont_at (remove_bytes start stop buf) start ≡ cont_at buf stop
unfolding remove_bytes
cont_at-remove buf start stop h =
    let e : start ≡ start + 0 = omega arith in
    let e' : stop + 0 ≡ stop = omega arith in
    ap (cont_at (take start buf ++ drop stop buf)) e
    ∙ cont_at-take-append buf (drop stop buf) start 0 h
    ∙ cont_at-drop buf stop 0
    ∙ ap (cont_at buf) e'

-- The first byte stays, unless it is removed.
pub cont_at-remove_start :
    (buf : Text) (start stop : ℕ)
    → cont_at buf 0 ≡ false
    → cont_at buf stop ≡ false
    → cont_at (remove_bytes start stop buf) 0 ≡ false
unfolding remove_bytes
cont_at-remove_start buf zero stop first here =
    let e : stop + 0 ≡ stop = omega arith in cont_at-drop buf stop 0 ∙ ap (cont_at buf) e ∙ here
cont_at-remove_start [] (suc n) stop first here = cont_at-drop [] stop 0 ∙ cont_at-nil (stop + 0)
cont_at-remove_start (b ∷ s) (suc n) stop first here = unfold cont_at in first

pub length-remove :
    (buf : Text) (start stop : ℕ)
    → start ≤ stop
    → stop ≤ length buf
    → length (remove_bytes start stop buf) + (stop - start) ≡ length buf
unfolding remove_bytes
length-remove buf start stop h k =
    rw (length-append (take start buf)) (omega (arith, length-take start buf, length-drop stop buf))

cont_at-second : (b : ℕ) (s : Text) → cont_at (b ∷ s) 1 ≡ cont_at s 0
unfolding cont_at
cont_at-second b s = refl

pub cont_at-insert :
    (buf : Text) (b cursor : ℕ)
    → cursor ≤ length buf
    → cont_at (take cursor buf ++ (b ∷ drop cursor buf)) (cursor + 1) ≡ cont_at buf cursor
cont_at-insert buf b cursor h =
    let e : cursor + 0 ≡ cursor = omega arith in
    cont_at-take-append buf (b ∷ drop cursor buf) cursor 1 h
    ∙ cont_at-second b (drop cursor buf)
    ∙ cont_at-drop buf cursor 0
    ∙ ap (cont_at buf) e

pub cont_at-insert_start :
    (buf : Text) (b cursor : ℕ)
    → cursor ≤ length buf
    → cont_at buf 0 ≡ false
    → (u8_is_cont b ≡ true → 0 < cursor)
    → cont_at (take cursor buf ++ (b ∷ drop cursor buf)) 0 ≡ false
unfolding cont_at
cont_at-insert_start buf b zero h first lead = elim (Bool-cases (u8_is_cont b)) [
  | inl e ↦ absurd (omega (arith, lead e))
  | inr e ↦ e
]
cont_at-insert_start [] b (suc n) h first lead = absurd (omega arith)
cont_at-insert_start (x ∷ s) b (suc n) h first lead = first

pub length-insert :
    (buf : Text) (b cursor : ℕ)
    → cursor ≤ length buf
    → length (take cursor buf ++ (b ∷ drop cursor buf)) ≡ length buf + 1
length-insert buf b cursor h =
    rw (length-append (take cursor buf))
      (omega (arith, length-take cursor buf, length-drop cursor buf))
