-- ===== src/Tests/Order.antt =====
-- The order of the entries at concrete inputs.
use diary.Prelude.{◌≡◌, refl, List, [], ◌∷◌, map, arith, codes, All}
use diary.Prelude.Int.{ℤ, pos, to_int}
use diary.Libc.Sort.{insert, qsort}
use mathlib.Core.List.{Permᴰ}
use diary.Client.Net.{DiaryEntry, entry_cmp_newest_first}
use diary.Client.Net.Order.{IsId}
use diary.Client.Net.Order.Unique.{Apart, Ascending, qsort-eq_of_Ascending}

abbrev fetched : List DiaryEntry
fetched =
    record { id = pos 1; timestamp = pos 5; text = codes "a" }
    ∷ record { id = pos 2; timestamp = pos 9; text = codes "b" }
    ∷ record { id = pos 3; timestamp = pos 5; text = codes "c" }
    ∷ []

ids : List ℤ
ids = map (λ (e : DiaryEntry). e.id) (qsort entry_cmp_newest_first fetched)

ids_lem : ids ≡ pos 2 ∷ pos 3 ∷ pos 1 ∷ []
unfolding ids qsort insert entry_cmp_newest_first to_int
ids_lem = refl

-- The same entries in the order of the screen.
abbrev shown : List DiaryEntry
shown =
    record { id = pos 2; timestamp = pos 9; text = codes "b" }
    ∷ record { id = pos 3; timestamp = pos 5; text = codes "c" }
    ∷ record { id = pos 1; timestamp = pos 5; text = codes "a" }
    ∷ []

fetched-IsId : All IsId fetched
fetched-IsId = ((1, refl, omega arith), ((2, refl, omega arith), ((3, refl, omega arith), tt)))

fetched-Apart : Apart fetched
fetched-Apart = (((λ e. cc), ((λ e. cc), tt)), (((λ e. cc), tt), (tt, tt)))

fetched-Permᴰ : Permᴰ fetched shown
fetched-Permᴰ = Permᴰ.trans (Permᴰ.swap refl refl) (Permᴰ.cons refl (Permᴰ.swap refl refl))

shown-Ascending : Ascending shown
unfolding entry_cmp_newest_first to_int
shown-Ascending = (refl, (refl, tt))

qsort-eq_of_Ascending_example : shown ≡ qsort entry_cmp_newest_first fetched
qsort-eq_of_Ascending_example =
    qsort-eq_of_Ascending fetched shown fetched-IsId fetched-Apart fetched-Permᴰ shown-Ascending
