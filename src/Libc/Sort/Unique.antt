-- ===== src/Libc/Sort/Unique.antt =====
-- Permutations of a list that are in an order.
use mathlib.Core.List.{Mem, Perm, Pairwise, mem-cons_self, mem-cons_of_mem, forall_mem-cons}
use mathlib.Core.List.Pairwise
use mathlib.Core.List.Perm
use mathlib.Core.Path.{ap₂}
use mathlib.Core.Bool.{Bool-set}
use diary.Prelude.{◌≡◌, sym, Bool, true, List, [], ◌∷◌}

module _ {A : Type 0} (before : A → A → Bool) where
  abbrev pub Before : A → A → Type 0
  Before a b = before a b ≡ true

  -- Elements of the list that come before each other are the same.
  abbrev pub IsAntisymmetric : List A → Type 0
  IsAntisymmetric l = (a b : A) → Mem a l → Mem b l → Before a b → Before b a → a ≡ b

  -- The head of a list in order comes before every element.
  pub head_first :
      {a : A} {l : List A}
      → Before a a
      → Pairwise Before (a ∷ l)
      → (x : A) → Mem x (a ∷ l)
      → Before a x
  head_first {a} self (Pairwise.cons h _) =
      (forall_mem-cons (λ x. Bool-set (before a x) true)).1 (self, h)

  pub Pairwise-eq_of_perm :
      (l r : List A)
      → ((a : A) → Before a a)
      → IsAntisymmetric l
      → Pairwise Before l
      → Pairwise Before r
      → Perm r l
      → l ≡ r
  Pairwise-eq_of_perm [] r self anti sl sr p = sym (Perm.eq-nil p)
  Pairwise-eq_of_perm (a ∷ l) [] self anti sl sr p = sym (Perm.nil-eq p)
  Pairwise-eq_of_perm (a ∷ l) (b ∷ r) self anti sl sr p =
      let b_in : Mem b (a ∷ l) = (Perm.mem_iff p).0 mem-cons_self in
      let a_in : Mem a (b ∷ r) = (Perm.mem_iff p).1 mem-cons_self in
      let heads : a ≡ b =
        anti a b mem-cons_self b_in (head_first (self a) sl b b_in)
          (head_first (self b) sr a a_in) in
      let tails : Perm r l = Perm.cons_inv (Perm.trans p (Perm.cons' heads Perm.rfl)) in
      ap₂ ◌∷◌ heads (
        Pairwise-eq_of_perm l r self
          (λ x y mx my. anti x y (mem-cons_of_mem a mx) (mem-cons_of_mem a my))
          (Pairwise.of_cons sl) (Pairwise.of_cons sr) tails)
