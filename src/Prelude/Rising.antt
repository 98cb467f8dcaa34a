-- ===== src/Prelude/Rising.antt =====
-- Lists whose elements have strictly rising numbers.
use Prim.Native.Nat.{ℕ, ◌<◌}
use mathlib.Core.Path.{◌≡◌}
use mathlib.Core.Bool.{Bool}
use mathlib.Core.List.{List, [], ◌∷◌, ◌++◌, map}
use diary.Prelude.Tests.{if_cases}
use diary.Prelude.Lists.{All, All-append, All-keep, All-map, keep}

module _ {A : Type 0} (number : A → ℕ) where
  -- Every number is below those of the later elements, so no two are the same.
  abbrev pub Rising : List A → Type 0
  Rising [] = Unit {0}
  Rising (x ∷ xs) = All (λ y. number x < number y) xs × Rising xs

  -- A change that leaves the numbers.
  pub Rising-map :
      (f : A → A) (xs : List A)
      → ((x : A) → number (f x) ≡ number x)
      → Rising xs
      → Rising (map f xs)
  Rising-map f [] same h = tt
  Rising-map f (x ∷ xs) same h = (
    All-map (λ y. number x < number y) (λ y. number (f x) < number y) f xs
        (λ y lt. rw (same x, same y) lt) h.0,
    Rising-map f xs same h.1,
  )

  pub Rising-keep : (q : A → Bool) (xs : List A) → Rising xs → Rising (keep q xs)
  Rising-keep q [] h = tt
  Rising-keep q (x ∷ xs) h =
      if_cases Rising (q x) _ _
        (λ _. (All-keep (λ y. number x < number y) q xs h.0, Rising-keep q xs h.1))
        (λ _. Rising-keep q xs h.1)

  pub Rising-append :
      (xs : List A) (x : A) → Rising xs → All (λ y. number y < number x) xs → Rising (xs ++ x ∷ [])
  Rising-append [] x h below = (tt, tt)
  Rising-append (y ∷ xs) x h below = (
    All-append (λ z. number y < number z) xs (x ∷ []) h.0 (below.0, tt),
    Rising-append xs x h.1 below.1,
  )
