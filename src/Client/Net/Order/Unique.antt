-- ===== src/Client/Net/Order/Unique.antt =====
-- The order of client/net.c and the algorithm of qsort.
use mathlib.Core.List.{Mem, Permᴰ, Pairwise, Pairwise-singleton, forall_mem-cons, not-mem-nil}
use mathlib.Core.List.Permᴰ
use mathlib.Core.Path.{subst}
use diary.Prelude.{
  ◌≡◌, ◌≢◌, refl, sym, Bool, true, false, not, List, [], ◌∷◌, arith, All, ◌&&◌, ◌||◌,
}
use diary.Prelude.Int.{ℤ, pos, negsuc, is_positive, eq_ℤ, ltb_ℤ}
use diary.Libc.Sort.{qsort}
use diary.Libc.Sort.Unique.{Before, IsAntisymmetric, head_first, Pairwise-eq_of_perm}
use diary.Client.Net.{DiaryEntry, entry_cmp_newest_first}
use diary.Client.Net.Order.{comes_first, cmp_lem, IsId, NewestFirst, NewestFirst-qsort, Permᴰ-qsort}

-- What <stdlib.h> promises of the array: no element compares above the next.
abbrev pub Ascending : List DiaryEntry → Type 0
Ascending [] = Unit {0}
Ascending (a ∷ []) = Unit {0}
Ascending (a ∷ b ∷ es) = (is_positive (entry_cmp_newest_first a b) ≡ false) × Ascending (b ∷ es)

-- No two entries have one identifier.
abbrev pub Apart : List DiaryEntry → Type 0
Apart [] = Unit {0}
Apart (a ∷ es) = All (λ b. a.id ≢ b.id) es × Apart es

-- Entries of one identifier are the same entry.
abbrev IsKeyed : List DiaryEntry → Type 0
IsKeyed es = (a b : DiaryEntry) → Mem a es → Mem b es → a.id ≡ b.id → a ≡ b

pub DiaryEntry-IsSet : IsSet DiaryEntry
DiaryEntry-IsSet = hlevel

pub other_id :
    (a : DiaryEntry) (es : List DiaryEntry)
    → All (λ b. a.id ≢ b.id) es
    → (b : DiaryEntry) → Mem b es
    → a.id ≢ b.id
other_id a [] h = λ b m. absurd (not-mem-nil m)
other_id a (e ∷ es) h = (forall_mem-cons (λ b. hlevel)).1 (h.0, other_id a es h.1)

IsKeyed-of_Apart : (es : List DiaryEntry) → Apart es → IsKeyed es
IsKeyed-of_Apart [] h a b ma mb = absurd (not-mem-nil ma)
IsKeyed-of_Apart (e ∷ es) h a b ma mb =
    let other = other_id e es h.0 in
    let first : (b : DiaryEntry) → Mem b (e ∷ es) → e.id ≡ b.id → e ≡ b =
      (forall_mem-cons (λ b. hlevel (DiaryEntry-IsSet))).1
        ((λ _. refl), λ b m same. absurd (other b m same)) in
    let later : (a : DiaryEntry)
        → Mem a es
        → (b : DiaryEntry) → Mem b (e ∷ es)
        → a.id ≡ b.id
        → a ≡ b =
      λ a m.
        (forall_mem-cons (λ b. hlevel (DiaryEntry-IsSet))).1
          ((λ same. absurd (other a m (sym same))), λ b mb. IsKeyed-of_Apart es h.1 a b m mb) in
    let all : (a : DiaryEntry)
        → Mem a (e ∷ es)
        → (b : DiaryEntry) → Mem b (e ∷ es)
        → a.id ≡ b.id
        → a ≡ b =
      (forall_mem-cons (λ a. hlevel (DiaryEntry-IsSet))).1 (first, later) in
    all a ma b mb

eq_ℤ_self : (z : ℤ) → eq_ℤ z z ≡ true
eq_ℤ_self (pos n) = ground arith
eq_ℤ_self (negsuc n) = ground arith

ltb_ℤ_self : (z : ℤ) → ltb_ℤ z z ≡ false
ltb_ℤ_self (pos n) = ground arith
ltb_ℤ_self (negsuc n) = ground arith

comes_first_self : (a : DiaryEntry) → comes_first a a ≡ true
comes_first_self a = ground (arith, eq_ℤ_self a.timestamp, ltb_ℤ_self a.timestamp, ltb_ℤ_self a.id)

not_below_trans : (a b c : ℤ) → ltb_ℤ a b ≡ false → ltb_ℤ b c ≡ false → ltb_ℤ a c ≡ false
not_below_trans (pos a) (pos b) (pos c) hab hbc = ground arith
not_below_trans (pos a) (pos b) (negsuc c) hab hbc = ground arith
not_below_trans (pos a) (negsuc b) (pos c) hab hbc = ground arith
not_below_trans (pos a) (negsuc b) (negsuc c) hab hbc = ground arith
not_below_trans (negsuc a) (pos b) (pos c) hab hbc = ground arith
not_below_trans (negsuc a) (pos b) (negsuc c) hab hbc = ground arith
not_below_trans (negsuc a) (negsuc b) (pos c) hab hbc = ground arith
not_below_trans (negsuc a) (negsuc b) (negsuc c) hab hbc = ground arith

-- The order, with a bit `p` for the identifiers that is kept along.
newer_trans :
    (s t u : ℤ) (p q r : Bool)
    → (p ≡ true → q ≡ true → r ≡ true)
    → (ltb_ℤ t s || (eq_ℤ s t && p)) ≡ true
    → (ltb_ℤ u t || (eq_ℤ t u && q)) ≡ true
    → (ltb_ℤ u s || (eq_ℤ s u && r)) ≡ true
newer_trans (pos s) (pos t) (pos u) p q r keeps hst htu = ground arith
newer_trans (pos s) (pos t) (negsuc u) p q r keeps hst htu = ground arith
newer_trans (pos s) (negsuc t) (pos u) p q r keeps hst htu = ground arith
newer_trans (pos s) (negsuc t) (negsuc u) p q r keeps hst htu = ground arith
newer_trans (negsuc s) (pos t) (pos u) p q r keeps hst htu = ground arith
newer_trans (negsuc s) (pos t) (negsuc u) p q r keeps hst htu = ground arith
newer_trans (negsuc s) (negsuc t) (pos u) p q r keeps hst htu = ground arith
newer_trans (negsuc s) (negsuc t) (negsuc u) p q r keeps hst htu = ground arith

comes_first_trans :
    (a b c : DiaryEntry) → comes_first a b ≡ true → comes_first b c ≡ true → comes_first a c ≡ true
comes_first_trans a b c =
    newer_trans a.timestamp b.timestamp c.timestamp (not (ltb_ℤ a.id b.id)) (not (ltb_ℤ b.id c.id))
      (not (ltb_ℤ a.id c.id)) (ground (arith, not_below_trans a.id b.id c.id))

same_ids :
    (s t m n : ℤ)
    → (ltb_ℤ t s || (eq_ℤ s t && not (ltb_ℤ m n))) ≡ true
    → (ltb_ℤ s t || (eq_ℤ t s && not (ltb_ℤ n m))) ≡ true
    → m ≡ n
same_ids (pos s) (pos t) (pos m) (pos n) hst hts = ground arith
same_ids (pos s) (pos t) (pos m) (negsuc n) hst hts = ground arith
same_ids (pos s) (pos t) (negsuc m) (pos n) hst hts = ground arith
same_ids (pos s) (pos t) (negsuc m) (negsuc n) hst hts = ground arith
same_ids (pos s) (negsuc t) (pos m) (pos n) hst hts = ground arith
same_ids (pos s) (negsuc t) (pos m) (negsuc n) hst hts = ground arith
same_ids (pos s) (negsuc t) (negsuc m) (pos n) hst hts = ground arith
same_ids (pos s) (negsuc t) (negsuc m) (negsuc n) hst hts = ground arith
same_ids (negsuc s) (pos t) (pos m) (pos n) hst hts = ground arith
same_ids (negsuc s) (pos t) (pos m) (negsuc n) hst hts = ground arith
same_ids (negsuc s) (pos t) (negsuc m) (pos n) hst hts = ground arith
same_ids (negsuc s) (pos t) (negsuc m) (negsuc n) hst hts = ground arith
same_ids (negsuc s) (negsuc t) (pos m) (pos n) hst hts = ground arith
same_ids (negsuc s) (negsuc t) (pos m) (negsuc n) hst hts = ground arith
same_ids (negsuc s) (negsuc t) (negsuc m) (pos n) hst hts = ground arith
same_ids (negsuc s) (negsuc t) (negsuc m) (negsuc n) hst hts = ground arith

IsAntisymmetric-of_IsKeyed : (es : List DiaryEntry) → IsKeyed es → IsAntisymmetric comes_first es
IsAntisymmetric-of_IsKeyed es keyed a b ma mb ab ba =
    keyed a b ma mb (same_ids a.timestamp b.timestamp a.id b.id ab ba)

-- Neighbours in order are enough.
Pairwise-of_NewestFirst : (es : List DiaryEntry) → NewestFirst es → Pairwise (Before comes_first) es
Pairwise-of_NewestFirst [] h = Pairwise.nil
Pairwise-of_NewestFirst (a ∷ []) h = Pairwise-singleton _ a
Pairwise-of_NewestFirst (a ∷ b ∷ es) h =
    let rest = Pairwise-of_NewestFirst (b ∷ es) h.1 in
    Pairwise.cons
      (λ x m. comes_first_trans a b x h.0 (head_first comes_first (comes_first_self b) rest x m))
      rest

pub All-Permᴰ : {es fs : List DiaryEntry} → Permᴰ es fs → All IsId es → All IsId fs
All-Permᴰ Permᴰ.nil h = tt
All-Permᴰ (Permᴰ.cons e p) h = (subst IsId e h.0, All-Permᴰ p h.1)
All-Permᴰ (Permᴰ.swap e f) h = (subst IsId f h.1.0, (subst IsId e h.0, h.1.1))
All-Permᴰ (Permᴰ.trans p q) h = All-Permᴰ q (All-Permᴰ p h)

NewestFirst-of_Ascending : (es : List DiaryEntry) → All IsId es → Ascending es → NewestFirst es
NewestFirst-of_Ascending [] ids h = tt
NewestFirst-of_Ascending (a ∷ []) ids h = tt
NewestFirst-of_Ascending (a ∷ b ∷ es) ids h =
    (ground (arith, cmp_lem a b ids.0 ids.1.0), NewestFirst-of_Ascending (b ∷ es) ids.1 h.1)

-- Whatever algorithm the qsort of <stdlib.h> has, the client returns the entries in one order: a
-- rearrangement of the entries in which none compares above the next is the result of the model's
-- qsort. Every identifier has to fit an `int` and not to be negative, and no two entries to
-- have one identifier.
pub qsort-eq_of_Ascending :
    (es out : List DiaryEntry)
    → All IsId es
    → Apart es
    → Permᴰ es out
    → Ascending out
    → out ≡ qsort entry_cmp_newest_first es
qsort-eq_of_Ascending es out ids apart perm up =
    let back = Permᴰ.symm perm in
    let keyed_out : IsKeyed out =
      λ a b ma mb. IsKeyed-of_Apart es apart a b (Permᴰ.mem back ma) (Permᴰ.mem back mb) in
    let ids_out = All-Permᴰ perm ids in
    Pairwise-eq_of_perm comes_first out (qsort entry_cmp_newest_first es) comes_first_self
      (IsAntisymmetric-of_IsKeyed out keyed_out)
      (Pairwise-of_NewestFirst out (NewestFirst-of_Ascending out ids_out up))
      (Pairwise-of_NewestFirst (qsort entry_cmp_newest_first es) (NewestFirst-qsort es ids))
      ∣ Permᴰ.trans (Permᴰ.symm (Permᴰ-qsort es)) perm ∣₁
