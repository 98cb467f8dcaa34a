-- ===== src/Libc/Decimal/RoundTrip.antt =====
-- What printf prints of a number, atol and atoi read back; how many bytes it takes.
use mathlib.Core.WellFounded.{Acc}
use native.Mathlib.Bridge.{le_prop}
use mathlib.Core.Logic.{dif_pos, dif_neg}
use native.Mathlib.Decide.{dec_lt}
use native.Mathlib.Nat.{pow-suc}
use diary.Prelude.{ℕ, zero, suc, ◌+◌, ◌/◌, ◌%◌, ◌^◌, ◌≤◌, ◌<◌, ◌≡◌, ◌≢◌, refl, ap, sym, ◌∙◌, false}
use diary.Prelude.{[], ◌∷◌, ◌++◌, append_assoc, append-nil, arith, Text}
use diary.Prelude.{length, length-append, All, All-append}
use diary.Prelude.Int.{ℤ, pos, negsuc, IsLong, IsInt, to_int-eq_of_IsInt}
use diary.Prelude.Order.{lt_wf}
use diary.Libc.Str.{Lacks}
use diary.Libc.Decimal.{print_acc, tenth_lt, print_nat, print_int, value, is_digit}
use diary.Libc.Decimal.{skip_space, signed_value, saturate, atol, atoi}

-- What follows a printed number: nothing, or a byte that is no digit.
abbrev pub Ends : Text → Type 0
Ends [] = Unit {0}
Ends (c ∷ s) = is_digit c ≡ false

value-Ends : (n : ℕ) (rest : Text) → Ends rest → value n rest ≡ n
unfolding value
value-Ends n [] h = refl
value-Ends n (c ∷ s) h = ground arith

value-print_acc :
    (n : ℕ) (w : Acc ◌<◌ n) (rest : Text) → value 0 (print_acc n w ++ rest) ≡ value n rest
unfolding print_acc
value-print_acc n (Acc.intro _ smaller) rest = elim (dec_lt n 10) [
  | yes p ↦ rw (dif_pos _ le_prop p _ _) (unfold value in ground arith)
  | no p ↦
      rw (dif_neg _ p _ _, append_assoc, value-print_acc (n / 10) (smaller (n / 10) (tenth_lt p)))
        (unfold value in ground arith)
]

-- The first byte is a digit.
print_acc_head :
    (n : ℕ) (w : Acc ◌<◌ n)
    → (d : ℕ) × (t : Text) × (print_acc n w ≡ d ∷ t) × (b'0' ≤ d) × (d ≤ b'9')
unfolding print_acc
print_acc_head n (Acc.intro _ smaller) = elim (dec_lt n 10) [
  | yes p ↦ (b'0' + n, [], rw (dif_pos _ le_prop p _ _), omega arith, omega arith)
  | no p ↦
      let (d, t, e, lo, hi) = print_acc_head (n / 10) (smaller (n / 10) (tenth_lt p)) in
      (d, t ++ (b'0' + n % 10) ∷ [], rw (dif_neg _ p _ _, e), lo, hi)
]

length-print_acc : (k n : ℕ) (w : Acc ◌<◌ n) → n < 10 ^ suc k → length (print_acc n w) ≤ suc k
unfolding print_acc
length-print_acc zero n (Acc.intro _ smaller) h = rw (dif_pos _ le_prop h _ _) (omega arith)
length-print_acc (suc k) n (Acc.intro _ smaller) h = elim (dec_lt n 10) [
  | yes p ↦ rw (dif_pos _ le_prop p _ _) (omega arith)
  | no p ↦
      rw (dif_neg _ p _ _, length-append)
        (omega (
          arith,
          length-print_acc k (n / 10) (smaller (n / 10) (tenth_lt p))
              (omega (arith, pow-suc 10 (suc k))),
        ))
]

print_acc-digits : (n : ℕ) (w : Acc ◌<◌ n) → All (λ d. (b'0' ≤ d) × (d ≤ b'9')) (print_acc n w)
unfolding print_acc
print_acc-digits n (Acc.intro _ smaller) = elim (dec_lt n 10) [
  | yes p ↦ rw (dif_pos _ le_prop p _ _) (omega arith)
  | no p ↦
      rw (dif_neg _ p _ _)
        (All-append _ _ _ (print_acc-digits (n / 10) (smaller (n / 10) (tenth_lt p))) (omega arith))
]

value-print_nat : (n : ℕ) (rest : Text) → value 0 (print_nat n ++ rest) ≡ value n rest
unfolding print_nat
value-print_nat n rest = value-print_acc n (lt_wf.apply n) rest

skip_space-digit : (d : ℕ) (s : Text) → b'0' ≤ d → d ≤ b'9' → skip_space (d ∷ s) ≡ d ∷ s
unfolding skip_space
skip_space-digit d s lo hi = ground arith

signed_value-digit :
    (d : ℕ) (s : Text) → b'0' ≤ d → d ≤ b'9' → signed_value (d ∷ s) ≡ pos (value 0 (d ∷ s))
unfolding signed_value
signed_value-digit d s lo hi = ground arith

signed_value-print_nat :
    (n : ℕ) (rest : Text) → Ends rest → signed_value (skip_space (print_nat n ++ rest)) ≡ pos n
unfolding print_nat
signed_value-print_nat n rest h =
    let (d, t, e, lo, hi) = print_acc_head n (lt_wf.apply n) in
    cc (
      skip_space-digit d (t ++ rest) lo hi,
      signed_value-digit d (t ++ rest) lo hi,
      value-print_nat n rest,
      value-Ends n rest h,
    )

signed_value-print_int :
    (z : ℤ) (rest : Text) → Ends rest → signed_value (skip_space (print_int z ++ rest)) ≡ z
unfolding print_int
signed_value-print_int (pos n) rest h = signed_value-print_nat n rest h
signed_value-print_int (negsuc n) rest h =
    unfold skip_space signed_value in rw (value-print_nat, value-Ends (suc n) rest h)

pub atol-print_int : (z : ℤ) (rest : Text) → IsLong z → Ends rest → atol (print_int z ++ rest) ≡ z
unfolding atol
atol-print_int z rest range h = rw (signed_value-print_int z rest h) (in_range z range)
  where
    in_range : (z : ℤ) → IsLong z → saturate z ≡ z
    in_range (pos n) h = ground arith
    in_range (negsuc n) h = ground arith

IsInt-IsLong : (z : ℤ) → IsInt z → IsLong z
IsInt-IsLong (pos n) h = omega arith
IsInt-IsLong (negsuc n) h = omega arith

pub atoi-print_int : (z : ℤ) (rest : Text) → IsInt z → Ends rest → atoi (print_int z ++ rest) ≡ z
unfolding atoi
atoi-print_int z rest range h =
    rw (atol-print_int z rest (IsInt-IsLong z range) h) (to_int-eq_of_IsInt z range)

-- A number that is not negative and ends the text.
pub atoi-print_int_pos : (n : ℕ) → n < 2 ^ 31 → atoi (print_int (pos n)) ≡ pos n
atoi-print_int_pos n small =
    ap atoi (sym (append-nil (print_int (pos n)))) ∙ atoi-print_int (pos n) [] small tt

-- An `int` that is not negative takes ten bytes at most, a `long` twenty.
pub length-print_nat : (k n : ℕ) → n < 10 ^ suc k → length (print_nat n) ≤ suc k
unfolding print_nat
length-print_nat k n h = length-print_acc k n (lt_wf.apply n) h

pub length-print_int : (z : ℤ) → IsLong z → length (print_int z) ≤ 20
unfolding print_int
length-print_int (pos n) h = omega (arith, length-print_nat 18 n (omega arith))
length-print_int (negsuc n) h = omega (arith, length-print_nat 18 (suc n) (omega arith))

pub length-print_int_pos : (n : ℕ) → n < 2 ^ 31 → length (print_int (pos n)) ≤ 10
unfolding print_int
length-print_int_pos n h = length-print_nat 9 n (omega arith)

-- A printed number holds no byte but digits and a minus sign.
Lacks-digits : (c : ℕ) (s : Text) → c < b'0' → All (λ d. (b'0' ≤ d) × (d ≤ b'9')) s → Lacks c s
Lacks-digits c [] lt h = tt
Lacks-digits c (d ∷ s) lt h = (λ e. omega arith, Lacks-digits c s lt h.1)

pub Lacks-print_int : (c : ℕ) (z : ℤ) → c < b'-' → Lacks c (print_int z)
unfolding print_int print_nat
Lacks-print_int c (pos n) h = Lacks-digits c _ (omega arith) (print_acc-digits n (lt_wf.apply n))
Lacks-print_int c (negsuc n) h = (
  λ e. omega arith,
  Lacks-digits c _ (omega arith) (print_acc-digits (suc n) (lt_wf.apply (suc n))),
)

pub print_int-ne-nil : (z : ℤ) → print_int z ≢ []
unfolding print_int print_nat
print_int-ne-nil (pos n) e = let (d, t, e', _, _) = print_acc_head n (lt_wf.apply n) in cc
print_int-ne-nil (negsuc n) e = cc
