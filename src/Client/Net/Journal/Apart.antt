-- ===== src/Client/Net/Journal/Apart.antt =====
-- Journals in which no two entries have one identifier.
use mathlib.Core.List.{Mem, mem-cons_self, mem-cons_of_mem, forall_mem-cons, not-mem-nil}
use mathlib.Core.Path.{subst}
use mathlib.Core.Option.{some-injective}
use diary.Prelude.{
  ℕ, zero, suc, ◌≡◌, ◌≢◌, refl, sym, ap, ◌∙◌, Bool, Bool-cases, true, false, inl, inr,
}
use diary.Prelude.{
  List, [], ◌∷◌, ◌++◌, some, map, Text, All, All-append, All-keep, All-map, All-imp,
}
use diary.Prelude.{arith, keep, take, get_elem?, if_cases, ==_iff, ◌==◌}
use diary.Prelude.Int.{ℤ, pos, negsuc, eq_ℤ, ltb_ℤ}
use diary.Client.Net.{DiaryEntry}
use diary.Client.Net.Order.Unique.{Apart, DiaryEntry-IsSet, other_id}
use diary.Client.Net.Journal.{
  Journal, Action, Answer, Moment, Step, refused, posted, updated, deleted, fetched, with_text,
  new_entry,
}
use diary.Client.Net.Journal.Kept.{entry_at}

below_apart : (z : ℤ) (n : ℕ) → ltb_ℤ z (pos n) ≡ true → z ≢ pos n
below_apart z n below same =
    let this : ltb_ℤ (pos n) (pos n) ≡ true = rw same at below in ground arith

Apart-append :
    (j : Journal) (e : DiaryEntry) → Apart j → All (λ x. x.id ≢ e.id) j → Apart (j ++ e ∷ [])
Apart-append [] e h below = (tt, tt)
Apart-append (x ∷ j) e h below =
    (All-append (λ y. x.id ≢ y.id) j (e ∷ []) h.0 (below.0, tt), Apart-append j e h.1 below.1)

Apart-keep : (q : DiaryEntry → Bool) (j : Journal) → Apart j → Apart (keep q j)
Apart-keep q [] h = tt
Apart-keep q (x ∷ j) h =
    if_cases Apart (q x) _ _ (λ _. (All-keep (λ y. x.id ≢ y.id) q j h.0, Apart-keep q j h.1))
      (λ _. Apart-keep q j h.1)

with_text-id : (id : ℕ) (text : Text) (e : DiaryEntry) → (with_text id text e).id ≡ e.id
with_text-id id text e =
    if_cases (λ (x : DiaryEntry). x.id ≡ e.id) (eq_ℤ e.id (pos id)) _ e (λ _. refl) (λ _. refl)

Apart-with_text : (id : ℕ) (text : Text) (j : Journal) → Apart j → Apart (map (with_text id text) j)
Apart-with_text id text [] h = tt
Apart-with_text id text (x ∷ j) h = (
  All-map (λ y. x.id ≢ y.id) (λ y. (with_text id text x).id ≢ y.id) (with_text id text) j
      (λ y ne. rw (with_text-id id text x, with_text-id id text y) ne) h.0,
  Apart-with_text id text j h.1,
)

-- No request gives two entries one identifier.
pub Step-Apart :
    {m : Moment} {j j' : Journal} {a : Action} {r : Answer} → Step m j a r j' → Apart j → Apart j'
Step-Apart (refused j a text carries fails) h = h
Step-Apart {m = m} (posted j id timestamp text b64 seal first fresh) h =
    Apart-append j (new_entry id m.now timestamp text) h
      (All-imp j (λ x below. below_apart x.id id below) fresh)
Step-Apart (updated j id text b64 seal) h = Apart-with_text id text j h
Step-Apart (deleted j id) h = Apart-keep _ j h
Step-Apart (fetched j es perm order) h = h

eq_ℤ-ne : (z : ℤ) (n : ℕ) → z ≢ pos n → eq_ℤ z (pos n) ≡ false
eq_ℤ-ne (negsuc m) n h = refl
eq_ℤ-ne (pos m) n h = elim (Bool-cases (m == n)) [
  | inl e ↦ absurd (h (ap pos ((==_iff m n).0 e)))
  | inr e ↦ e
]

-- An entry of the journal is found by its identifier.
pub entry_at-Mem :
    (j : Journal)
    → Apart j
    → (e : DiaryEntry) → Mem e j
    → (n : ℕ) → e.id ≡ pos n
    → entry_at n j ≡ some e
entry_at-Mem [] h = λ e m. absurd (not-mem-nil m)
entry_at-Mem (x ∷ j) h = (forall_mem-cons (λ e. hlevel (DiaryEntry-IsSet))).1 (
  (λ n same. rw same (ground arith)),
  λ e m n same.
      rw (eq_ℤ-ne x.id n (λ e'. other_id x j h.0 e m (e' ∙ sym same)))
        (entry_at-Mem j h.1 e m n same),
)

pub Mem-get_elem? :
    (l : List DiaryEntry) (i : ℕ) (e : DiaryEntry) → get_elem? l i ≡ some e → Mem e l
Mem-get_elem? [] i e h = absurd (ground arith)
Mem-get_elem? (x ∷ l) zero e h = subst (λ y. Mem y (x ∷ l)) (some-injective _ _ h) mem-cons_self
Mem-get_elem? (x ∷ l) (suc i) e h = mem-cons_of_mem x (Mem-get_elem? l i e h)

pub Mem-take : (n : ℕ) (l : List DiaryEntry) (e : DiaryEntry) → Mem e (take n l) → Mem e l
Mem-take zero l e m = absurd (not-mem-nil m)
Mem-take (suc n) [] e m = m
Mem-take (suc n) (x ∷ l) e m =
    let all : (e : DiaryEntry) → Mem e (x ∷ take n l) → Mem e (x ∷ l) =
      (forall_mem-cons (λ e. hlevel)).1
        (mem-cons_self, λ e m. mem-cons_of_mem x (Mem-take n l e m)) in
    all e m
