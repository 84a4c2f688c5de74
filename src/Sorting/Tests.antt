-- ===== src/Sorting/Tests.antt =====
-- insertion_sort on a few numbers.
use linux_system_programming.Prelude.{ℕ, ◌≡◌, refl, Bool, some, List, [], ◌∷◌, ◌++◌, arith, ltb}
use mathlib.Core.List.{Perm}
use linux_system_programming.Sorting.{insertion_sort}
use linux_system_programming.Sorting.Merge.{merge_sort}
use linux_system_programming.Sorting.Merge.Sort.{merge_sort-Asc}
use linux_system_programming.Sorting.Sorted.{Order, Asc, insertion_sort-Asc}

abbrev greater : ℕ → ℕ → Bool
greater x y = ltb y x

greater-Order : Order greater
greater-Order = record { trans = λ x y z e f. ground arith; asym = λ x y e. ground arith }

-- The array of insertion_sort.c, whose `main` leaves the last element out.
abbrev ten_five : List ℕ
ten_five = 10 ∷ 5 ∷ []

insertion_sort-Asc_example :
    (out : List ℕ) × (insertion_sort greater (10 ∷ 5 ∷ 23 ∷ []) 0 2 ≡ some (out ++ 23 ∷ []))
    × Perm out ten_five
    × Asc greater out
insertion_sort-Asc_example =
    insertion_sort-Asc greater greater-Order [] ten_five (23 ∷ []) (omega arith)

last_left_out : insertion_sort greater (10 ∷ 23 ∷ 5 ∷ []) 0 2 ≡ some (10 ∷ 23 ∷ 5 ∷ [])
unfolding insertion_sort
last_left_out = refl

-- The array of merge_sort.c.
abbrev eight : List ℕ
eight = 123 ∷ 231 ∷ 41 ∷ 98 ∷ 123 ∷ 432 ∷ 21 ∷ 2 ∷ []

merge_sort-Asc_example :
    (out : List ℕ) × (merge_sort greater 8 (eight ++ []) 0 7 ≡ some (out ++ []))
    × Perm out eight
    × Asc greater out
merge_sort-Asc_example =
    merge_sort-Asc greater greater-Order 8 7 [] eight [] (omega arith) (omega arith) (omega arith)

-- Four calls deep are enough for it.
eight_sorted : merge_sort greater 4 eight 0 7 ≡ some (2 ∷ 21 ∷ 41 ∷ 98 ∷ 123 ∷ 123 ∷ 231 ∷ 432 ∷ [])
unfolding merge_sort
eight_sorted = refl
