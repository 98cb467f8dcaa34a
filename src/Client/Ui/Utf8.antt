-- ===== src/Client/Ui/Utf8.antt =====
-- UTF-8 in client/ui.c: continuation bytes, and steps over whole characters.
use diary.Prelude.{
  ℕ, zero, suc, ◌+◌, ◌≤◌, ◌<◌, ◌≡◌, refl, ◌⊎◌, inl, inr, Bool, Bool-cases, false, [], ◌∷◌,
}
use diary.Prelude.{bit_and, arith, Text, length, drop, length-drop, ◌==◌, if◌then◌else◌}

-- Continuation bytes 10xxxxxx take no column.
unfoldable pub u8_is_cont : ℕ → Bool
u8_is_cont c = bit_and c 0xC0 == 0x80

-- The continuation bytes at the start of a text.
unfoldable pub conts : Text → ℕ
conts [] = 0
conts (b ∷ s) = let n = conts s in if u8_is_cont b then suc n else 0

-- The length in bytes of the character that starts at `buf[i]`.
unfoldable pub u8_char_len : Text → ℕ → ℕ
unfolding conts
u8_char_len buf i = suc (conts (drop (suc i) buf))

-- Whether `buf[i]` is a continuation byte; the end of the text is none.
unfoldable pub cont_at : Text → ℕ → Bool
cont_at [] i = false
cont_at (b ∷ s) zero = u8_is_cont b
cont_at (b ∷ s) (suc i) = cont_at s i

-- while (i > 0 && u8_is_cont(buf[i])) i--;
unfoldable pub char_start : Text → ℕ → ℕ
char_start buf zero = zero
char_start buf (suc i) =
    let before = char_start buf i in if cont_at buf (suc i) then before else suc i

-- A place between characters: the start, the end, or the first byte of a character.
abbrev pub OnBoundary : Text → ℕ → Type 0
OnBoundary buf i = (i ≡ 0) ⊎ (cont_at buf i ≡ false)

pub char_start-OnBoundary : (buf : Text) (i : ℕ) → OnBoundary buf (char_start buf i)
unfolding char_start
char_start-OnBoundary buf zero = inl refl
char_start-OnBoundary buf (suc i) = elim (Bool-cases (cont_at buf (suc i))) [
  | inl e ↦ rw e (char_start-OnBoundary buf i)
  | inr e ↦ rw e (inr e)
]

pub char_start-le : (buf : Text) (i : ℕ) → char_start buf i ≤ i
unfolding char_start
char_start-le buf zero = omega arith
char_start-le buf (suc i) = ground (arith, char_start-le buf i)

pub conts-le : (s : Text) → conts s ≤ length s
unfolding conts
conts-le [] = omega arith
conts-le (b ∷ s) = ground (arith, conts-le s)

cont_at-conts : (s : Text) → cont_at s (conts s) ≡ false
unfolding conts cont_at
cont_at-conts [] = refl
cont_at-conts (b ∷ s) = elim (Bool-cases (u8_is_cont b)) [
  | inl e ↦ rw e (cont_at-conts s)
  | inr e ↦ rw (e, cont_at) e
]

pub cont_at-drop : (s : Text) (i j : ℕ) → cont_at (drop i s) j ≡ cont_at s (i + j)
unfolding cont_at
cont_at-drop s zero j = let e : 0 + j ≡ j = omega arith in rw e
cont_at-drop [] (suc i) j = refl
cont_at-drop (b ∷ s) (suc i) j =
    let e : suc i + j ≡ suc (i + j) = omega arith in rw e (cont_at-drop s i j)

-- Stepping over a character leads to a boundary, within the text.
pub step-OnBoundary : (buf : Text) (i : ℕ) → OnBoundary buf (i + u8_char_len buf i)
unfolding u8_char_len
step-OnBoundary buf i =
    let e : i + suc (conts (drop (suc i) buf)) ≡ suc i + conts (drop (suc i) buf) = omega arith in
    inr (
      rw (e, ← cont_at-drop buf (suc i) (conts (drop (suc i) buf)))
        (cont_at-conts (drop (suc i) buf)))

pub step-le : (buf : Text) (i : ℕ) → i < length buf → i + u8_char_len buf i ≤ length buf
unfolding u8_char_len
step-le buf i h = omega (arith, conts-le (drop (suc i) buf), length-drop (suc i) buf)
