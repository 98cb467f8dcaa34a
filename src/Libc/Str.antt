-- ===== src/Libc/Str.antt =====
-- Comparisons and searches of <string.h>, on the bytes before the terminating NUL.
use diary.Prelude.{ℕ, suc, ◌-◌, ◌≤◌, ◌≡◌, ◌≢◌, refl, ◌↔◌, Bool, true, false, ◌&&◌, [], ◌∷◌, ◌++◌}
use diary.Prelude.{
  Option, none, some, arith, ◌==◌, if◌then◌else◌, Text, take, drop, take-eq_of_le, length, All,
}

-- strcmp(a, b) == 0
unfoldable pub strcmp_eq : Text → Text → Bool
strcmp_eq [] [] = true
strcmp_eq [] (y ∷ b) = false
strcmp_eq (x ∷ a) [] = false
strcmp_eq (x ∷ a) (y ∷ b) = x == y && strcmp_eq a b

-- strncmp(a, b, strlen(b)) == 0: `a` begins with `b`.
unfoldable pub strncmp_eq : Text → Text → Bool
strncmp_eq a [] = true
strncmp_eq [] (y ∷ b) = false
strncmp_eq (x ∷ a) (y ∷ b) = x == y && strncmp_eq a b

-- strchr(s, c): the bytes before the first `c` and those after it.
unfoldable pub strchr : Text → ℕ → Option (Text × Text)
strchr [] c = none
strchr (x ∷ s) c =
    let rest = strchr s c in
    if x == c then some ([], s) else elim rest [ none ↦ none | some (a, b) ↦ some (x ∷ a, b) ]

-- The bytes up to the first `d` or the end, and those after it.
token : ℕ → Text → Text × Text
token d [] = ([], [])
token d (x ∷ s) = let (t, rest) = token d s in if x == d then ([], s) else (x ∷ t, rest)

-- strtok_r(s, d, &rest) with one delimiter: the first token that is not empty, and what follows it.
unfoldable pub strtok_r : ℕ → Text → Option (Text × Text)
unfolding token
strtok_r d [] = none
strtok_r d (x ∷ s) = let skip = strtok_r d s in if x == d then skip else some (token d (x ∷ s))

-- A buffer as a string: the bytes before its first NUL.
unfoldable pub c_string : Text → Text
c_string [] = []
c_string (x ∷ s) = let rest = c_string s in if x == 0 then [] else x ∷ rest

-- snprintf(out, size, …) keeps at most `size - 1` bytes of what is printed.
unfoldable pub snprintf : ℕ → Text → Text
snprintf size s = take (size - 1) s

pub strcmp_eq_iff : (a b : Text) → (strcmp_eq a b ≡ true) ↔ (a ≡ b)
unfolding strcmp_eq
strcmp_eq_iff [] [] = (λ _. refl, λ _. refl)
strcmp_eq_iff [] (y ∷ b) = ground arith
strcmp_eq_iff (x ∷ a) [] = ground arith
strcmp_eq_iff (x ∷ a) (y ∷ b) = ground (arith, strcmp_eq_iff a b)

-- A text that begins with another.
pub strncmp_eq-append : (a b : Text) → strncmp_eq a b ≡ true → a ≡ b ++ drop (length b) a
unfolding strncmp_eq
strncmp_eq-append a [] h = refl
strncmp_eq-append [] (y ∷ b) h = ground arith
strncmp_eq-append (x ∷ a) (y ∷ b) h = ground (arith, strncmp_eq-append a b)

pub strcmp_eq_self : (a : Text) → strcmp_eq a a ≡ true
strcmp_eq_self a = (strcmp_eq_iff a a).1 refl

pub strcmp_eq-ne : (a b : Text) → a ≢ b → strcmp_eq a b ≡ false
strcmp_eq-ne a b h = ground (arith, strcmp_eq_iff a b)

-- No byte of the text is `c`.
abbrev pub Lacks : ℕ → Text → Type 0
Lacks c = All (λ x. x ≢ c)

pub strchr-Lacks : (s : Text) (c : ℕ) → Lacks c s → strchr s c ≡ none
unfolding strchr
strchr-Lacks [] c h = refl
strchr-Lacks (x ∷ s) c h = ground (arith, strchr-Lacks s c h.1)

-- The first `c` is found behind a text that has none.
pub strchr-append : (a b : Text) (c : ℕ) → Lacks c a → strchr (a ++ (c ∷ b)) c ≡ some (a, b)
unfolding strchr
strchr-append [] b c h = ground arith
strchr-append (x ∷ a) b c h = ground (arith, strchr-append a b c h.1)

pub c_string-Lacks : (s : Text) → Lacks 0 s → c_string s ≡ s
unfolding c_string
c_string-Lacks [] h = refl
c_string-Lacks (x ∷ s) h = ground (arith, c_string-Lacks s h.1)

pub snprintf-fits : (size : ℕ) (s : Text) → suc (length s) ≤ size → snprintf size s ≡ s
unfolding snprintf
snprintf-fits size s h = take-eq_of_le (size - 1) s (omega arith)

token-append : (a b : Text) (d : ℕ) → Lacks d a → token d (a ++ (d ∷ b)) ≡ (a, b)
unfolding token
token-append [] b d h = ground arith
token-append (x ∷ a) b d h = ground (arith, token-append a b d h.1)

token-Lacks : (a : Text) (d : ℕ) → Lacks d a → token d a ≡ (a, [])
unfolding token
token-Lacks [] d h = refl
token-Lacks (x ∷ a) d h = ground (arith, token-Lacks a d h.1)

-- A token that is not empty stands before its delimiter.
pub strtok_r-append :
    (a b : Text) (d : ℕ) → Lacks d a → a ≢ [] → strtok_r d (a ++ (d ∷ b)) ≡ some (a, b)
unfolding strtok_r
strtok_r-append [] b d h some_byte = absurd (some_byte refl)
strtok_r-append (x ∷ a) b d h some_byte = ground (arith, token-append (x ∷ a) b d h)

-- The last token is the rest.
pub strtok_r-Lacks : (a : Text) (d : ℕ) → Lacks d a → a ≢ [] → strtok_r d a ≡ some (a, [])
unfolding strtok_r
strtok_r-Lacks [] d h some_byte = absurd (some_byte refl)
strtok_r-Lacks (x ∷ a) d h some_byte = ground (arith, token-Lacks (x ∷ a) d h)
