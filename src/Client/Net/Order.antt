-- ===== src/Client/Net/Order.antt =====
-- The order in which client/net.c returns the entries.
pub mod Unique
use mathlib.Core.List.{Permᴰ}
use mathlib.Core.List.Permᴰ
use diary.Prelude.{
  ℕ, ◌<◌, ◌^◌, ◌≡◌, refl, Bool, true, false, not, ◌&&◌, ◌||◌, List, [], ◌∷◌, arith, ltb, All,
  if◌then◌else◌, if_cases,
}
use diary.Prelude.Int.{ℤ, pos, negsuc, neg, is_positive, eq_ℤ, ltb_ℤ, sub_ℤ, to_int}
use diary.Libc.Sort.{insert, qsort}
use diary.Client.Net.{DiaryEntry, entry_cmp_newest_first}

-- The first entry is newer, or as new with no lower identifier.
abbrev pub comes_first : DiaryEntry → DiaryEntry → Bool
comes_first a b =
    ltb_ℤ b.timestamp a.timestamp || (eq_ℤ a.timestamp b.timestamp && not (ltb_ℤ a.id b.id))

-- An identifier as SQLite gives it, that fits an `int`.
abbrev pub IsId : DiaryEntry → Type 0
IsId e = (n : ℕ) × (e.id ≡ pos n) × (n < 2 ^ 31)

-- Each entry comes before the next.
abbrev pub NewestFirst : List DiaryEntry → Type 0
NewestFirst [] = Unit {0}
NewestFirst (a ∷ []) = Unit {0}
NewestFirst (a ∷ b ∷ es) = (comes_first a b ≡ true) × NewestFirst (b ∷ es)

sub_id :
    (m n : ℕ) → m < 2 ^ 31 → n < 2 ^ 31 → is_positive (to_int (sub_ℤ (pos n) (pos m))) ≡ ltb m n
unfolding to_int
sub_id m n hm hn = ground arith

-- The comparison of the timestamps `s` and `t`, and then of the identifiers `m` and `n`.
cmp_values :
    (s t : ℤ) (m n : ℕ)
    → m < 2 ^ 31
    → n < 2 ^ 31
    → is_positive (
        if not (eq_ℤ s t)
        then if ltb_ℤ s t then pos 1 else neg 1
        else to_int (sub_ℤ (pos n) (pos m)))
      ≡ not (ltb_ℤ t s || (eq_ℤ s t && not (ltb m n)))
cmp_values (pos s) (pos t) m n hm hn = ground (arith, sub_id m n hm hn)
cmp_values (pos s) (negsuc t) m n hm hn = ground arith
cmp_values (negsuc s) (pos t) m n hm hn = ground arith
cmp_values (negsuc s) (negsuc t) m n hm hn = ground (arith, sub_id m n hm hn)

total_values :
    (s t : ℤ) (m n : ℕ)
    → (ltb_ℤ t s || (eq_ℤ s t && not (ltb m n))) ≡ false
    → (ltb_ℤ s t || (eq_ℤ t s && not (ltb n m))) ≡ true
total_values (pos s) (pos t) m n h = ground arith
total_values (pos s) (negsuc t) m n h = ground arith
total_values (negsuc s) (pos t) m n h = ground arith
total_values (negsuc s) (negsuc t) m n h = ground arith

-- The comparison is positive exactly if the first entry does not come first.
pub cmp_lem :
    (a b : DiaryEntry)
    → IsId a
    → IsId b
    → is_positive (entry_cmp_newest_first a b) ≡ not (comes_first a b)
unfolding entry_cmp_newest_first
cmp_lem a b (m, ea, ha) (n, eb, hb) = rw (ea, eb) (cmp_values a.timestamp b.timestamp m n ha hb)

comes_first_total :
    (a b : DiaryEntry) → IsId a → IsId b → comes_first a b ≡ false → comes_first b a ≡ true
comes_first_total a b (m, ea, ha) (n, eb, hb) h =
    rw (ea, eb) (total_values a.timestamp b.timestamp m n (rw (ea, eb) at h))

abbrev sorted : List DiaryEntry → List DiaryEntry
sorted = qsort entry_cmp_newest_first

abbrev put : DiaryEntry → List DiaryEntry → List DiaryEntry
put = insert entry_cmp_newest_first

-- What stands first behind an entry that comes before `x` and the list.
NewestFirst-put :
    (x : DiaryEntry) (es : List DiaryEntry)
    → IsId x
    → All IsId es
    → NewestFirst es
    → NewestFirst (put x es)
unfolding insert
NewestFirst-put x [] hx hs h = tt
NewestFirst-put x (y ∷ []) hx hs h =
    ground (arith, cmp_lem x y hx hs.0, comes_first_total x y hx hs.0)
NewestFirst-put x (y ∷ z ∷ es) hx hs h = ground (
  arith,
  cmp_lem x y hx hs.0,
  comes_first_total x y hx hs.0,
  cmp_lem x z hx hs.1.0,
  NewestFirst-put x (z ∷ es) hx hs.1 h.1,
)

IsId-put : (x : DiaryEntry) (es : List DiaryEntry) → IsId x → All IsId es → All IsId (put x es)
unfolding insert
IsId-put x [] hx hs = (hx, tt)
IsId-put x (y ∷ es) hx hs =
    if_cases (All IsId) (is_positive (entry_cmp_newest_first x y)) _ _
      (λ _. (hs.0, IsId-put x es hx hs.1)) (λ _. (hx, hs))

IsId-sorted : (es : List DiaryEntry) → All IsId es → All IsId (sorted es)
unfolding qsort
IsId-sorted [] hs = tt
IsId-sorted (e ∷ es) hs = IsId-put e (sorted es) hs.0 (IsId-sorted es hs.1)

-- The entries come out newest first, and those of one timestamp by falling identifier, if every
-- identifier fits an `int` and is not negative.
pub NewestFirst-qsort :
    (es : List DiaryEntry) → All IsId es → NewestFirst (qsort entry_cmp_newest_first es)
unfolding qsort
NewestFirst-qsort [] hs = tt
NewestFirst-qsort (e ∷ es) hs =
    NewestFirst-put e (sorted es) hs.0 (IsId-sorted es hs.1) (NewestFirst-qsort es hs.1)

Permᴰ-put : (x : DiaryEntry) (es : List DiaryEntry) → Permᴰ (x ∷ es) (put x es)
unfolding insert
Permᴰ-put x [] = Permᴰ.refl (x ∷ [])
Permᴰ-put x (y ∷ es) =
    if_cases (λ l. Permᴰ (x ∷ y ∷ es) l) (is_positive (entry_cmp_newest_first x y)) _ _
      (λ _. Permᴰ.trans (Permᴰ.swap refl refl) (Permᴰ.cons refl (Permᴰ-put x es)))
      (λ _. Permᴰ.refl (x ∷ y ∷ es))

-- No entry is lost or doubled by the sort.
pub Permᴰ-qsort : (es : List DiaryEntry) → Permᴰ es (qsort entry_cmp_newest_first es)
unfolding qsort
Permᴰ-qsort [] = Permᴰ.nil
Permᴰ-qsort (e ∷ es) = Permᴰ.trans (Permᴰ.cons refl (Permᴰ-qsort es)) (Permᴰ-put e (sorted es))
