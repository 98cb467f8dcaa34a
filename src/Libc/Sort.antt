-- ===== src/Libc/Sort.antt =====
-- qsort of <stdlib.h>: what it leaves in the array, as an insertion sort. Elements that compare equal
-- come in no documented order, and in this one here.
pub mod Unique
pub mod Length
use diary.Prelude.{List, [], ◌∷◌, if◌then◌else◌}
use diary.Prelude.Int.{ℤ, is_positive}

module _ {A : Type 0} (compar : A → A → ℤ) where
  unfoldable pub insert : A → List A → List A
  insert x [] = x ∷ []
  insert x (y ∷ ys) =
      let rest = insert x ys in if is_positive (compar x y) then y ∷ rest else x ∷ y ∷ ys

  unfoldable pub qsort : List A → List A
  unfolding insert
  qsort [] = []
  qsort (x ∷ xs) = insert x (qsort xs)
