-- ===== src/Libc/Sort/Length.antt =====
-- The number of elements of a sorted list.
use diary.Prelude.{suc, ◌≡◌, refl, ap, ◌∙◌, List, [], ◌∷◌, length, if_cases}
use diary.Prelude.Int.{ℤ, is_positive}
use diary.Libc.Sort.{insert, qsort}

module _ {A : Type 0} (compar : A → A → ℤ) where
  length-insert : (x : A) (xs : List A) → length (insert compar x xs) ≡ suc (length xs)
  unfolding insert
  length-insert x [] = refl
  length-insert x (y ∷ ys) =
      if_cases (λ (zs : List A). length zs ≡ suc (suc (length ys))) (is_positive (compar x y)) _ _
        (λ _. ap suc (length-insert x ys)) (λ _. refl)

  pub length-qsort : (xs : List A) → length (qsort compar xs) ≡ length xs
  unfolding qsort
  length-qsort [] = refl
  length-qsort (x ∷ xs) = length-insert x (qsort compar xs) ∙ ap suc (length-qsort xs)
