-- ===== src/Libc/Decimal.antt =====
-- Decimal numbers: `%d` and `%ld` of printf, and `atol` and `atoi` of <stdlib.h>.
pub mod RoundTrip
use Prim.Native.Nat.{min}
use mathlib.Core.Logic.{dite}
use mathlib.Core.WellFounded.{Acc, WellFounded}
use native.Mathlib.Decide.{dec_lt}
use diary.Prelude.{ℕ, zero, suc, ◌+◌, ◌-◌, ◌*◌, ◌/◌, ◌%◌, ◌^◌, ◌<◌, ◌≡◌, refl, Bool, ◌&&◌, ◌||◌}
use diary.Prelude.{List, [], ◌∷◌, ◌++◌, arith, leb, ltb, ◌==◌, if◌then◌else◌, Text, codes}
use diary.Prelude.Int.{ℤ, pos, negsuc, neg, to_int}
use diary.Prelude.Order.{lt_wf}

pub tenth_lt : {n : ℕ} → ¬ (n < 10) → n / 10 < n
tenth_lt h = omega arith

print_acc : (n : ℕ) → Acc ◌<◌ n → Text
print_acc n (Acc.intro _ smaller) =
    dite (dec_lt n 10) (λ _. (b'0' + n) ∷ [])
      (λ h. print_acc (n / 10) (smaller (n / 10) (tenth_lt h)) ++ (b'0' + n % 10) ∷ [])

-- The decimal digits of a number.
unfoldable pub print_nat : ℕ → Text
unfolding print_acc lt_wf dec_lt
print_nat n = print_acc n (lt_wf.apply n)

-- `%d` and `%ld`.
unfoldable pub print_int : ℤ → Text
unfolding print_nat
print_int (pos n) = print_nat n
print_int (negsuc n) = b'-' ∷ print_nat (suc n)

is_space : ℕ → Bool
is_space c = c == 32 || (leb 9 c && leb c 13)

unfoldable pub is_digit : ℕ → Bool
is_digit c = leb b'0' c && leb c b'9'

skip_space : Text → Text
unfolding is_space
skip_space [] = []
skip_space (c ∷ s) = if is_space c then skip_space s else c ∷ s

-- The number that the leading digits spell behind `n`.
value : ℕ → Text → ℕ
unfolding is_digit
value n [] = n
value n (c ∷ s) = let rest = value (n * 10 + (c - b'0')) s in if is_digit c then rest else n

signed_value : Text → ℤ
unfolding value
signed_value [] = pos 0
signed_value (c ∷ s) =
    if c == b'-'
    then neg (value 0 s)
    else if c == b'+'
    then pos (value 0 s)
    else pos (value 0 (c ∷ s))

-- A number outside the range of `long` is replaced by the nearest end, as `strtol` does.
saturate : ℤ → ℤ
saturate (pos n) = pos (min n (2 ^ 63 - 1))
saturate (negsuc n) = negsuc (min n (2 ^ 63 - 1))

unfoldable pub atol : Text → ℤ
unfolding skip_space signed_value saturate
atol s = saturate (signed_value (skip_space s))

unfoldable pub atoi : Text → ℤ
unfolding atol to_int
atoi s = to_int (atol s)

atoi_runs : atoi (codes "  -42abc") ≡ neg 42
unfolding atoi
atoi_runs = refl

atoi_wraps : atoi (codes "4294967297") ≡ pos 1
unfolding atoi
atoi_wraps = refl

print_int_runs : print_int (neg 1024) ≡ codes "-1024"
unfolding print_int
print_int_runs = refl
