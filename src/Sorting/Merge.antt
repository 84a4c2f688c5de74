-- ===== src/Sorting/Merge.antt =====
-- 05-threading/class/merge_sort.c: `merge` and `merge_sort` on an array of any type; `gt x y` is
-- the comparison x > y of two elements. Its two threads sort disjoint parts of the array, here one
-- after the other.
pub mod Merged
pub mod Loops
pub mod Sort
use linux_system_programming.Prelude.{
  ℕ, zero, suc, ◌+◌, ◌-◌, ◌/◌, Bool, true, false, ◌&&◌, Option, none, some, List, [], ◌∷◌, ◌++◌,
  ltb, leb, if◌then◌else◌, length, get_elem?, set,
}
use linux_system_programming.Sorting.{◌>>=◌}

module _ {A : Type 0} where
  -- tmp[i++] = x, where `tmp` is what is written of the `tmp_len` elements.
  unfoldable pub push : ℕ → List A → A → Option (List A)
  push tmp_len tmp x = if ltb (length tmp) tmp_len then some (tmp ++ x ∷ []) else none

  -- while(a_index <= a_end) tmp[i++] = A[a_index++];
  unfoldable pub rest_loop : ℕ → ℕ → ℕ → ℕ → List A → List A → Option (List A)
  unfolding push
  rest_loop zero a a_end tmp_len tmp arr = none
  rest_loop (suc fuel) a a_end tmp_len tmp arr = elim (leb a a_end) [
    | true ↦ get_elem? arr a >>= λ x.
        push tmp_len tmp x >>= λ tmp'. rest_loop fuel (suc a) a_end tmp_len tmp' arr
    | false ↦ some tmp
  ]

  -- for(i=start; i<=end; ++i) A[i] = tmp[i - start]; at i = start + `k`.
  unfoldable pub write_back : ℕ → ℕ → ℕ → List A → List A → Option (List A)
  write_back zero k start tmp arr = some arr
  write_back (suc rounds) k start tmp arr =
      get_elem? tmp k >>= λ x. write_back rounds (suc k) start tmp (set arr (start + k) x)

module _ {A : Type 0} (gt : A → A → Bool) where
  -- while(a_index <= a_end && b_index <= b_end)
  unfoldable pub both_loop : ℕ → ℕ → ℕ → ℕ → ℕ → ℕ → List A → List A → Option (ℕ × ℕ × List A)
  unfolding push
  both_loop zero a a_end b b_end tmp_len tmp arr = none
  both_loop (suc fuel) a a_end b b_end tmp_len tmp arr = elim (leb a a_end && leb b b_end) [
    | true ↦ get_elem? arr a >>= λ x. get_elem? arr b >>= λ y. elim (gt y x) [
      | true ↦ push tmp_len tmp x >>= λ tmp'. both_loop fuel (suc a) a_end b b_end tmp_len tmp' arr
      | false ↦ push tmp_len tmp y >>= λ tmp'. both_loop fuel a a_end (suc b) b_end tmp_len tmp' arr
    ]
    | false ↦ some (a, b, tmp)
  ]

  -- The three loops that fill `tmp`; each runs on more rounds than there are elements.
  unfoldable pub fill : ℕ → ℕ → ℕ → ℕ → ℕ → List A → Option (List A)
  unfolding both_loop rest_loop
  fill a a_end b b_end tmp_len arr = both_loop (suc tmp_len) a a_end b b_end tmp_len [] arr >>= λ r.
      rest_loop (suc tmp_len) r.0 a_end tmp_len r.2 arr >>= λ tmp.
      rest_loop (suc tmp_len) r.1 b_end tmp_len tmp arr

  unfoldable pub merge : List A → ℕ → ℕ → Option (List A)
  unfolding fill write_back
  merge arr start end = elim (leb end start) [
    | true ↦ some arr
    | false ↦
        let mid = (start + end) / 2 in
        let tmp_len = end - start + 1 in
        fill start mid (mid + 1) end tmp_len arr >>= λ tmp. write_back tmp_len 0 start tmp arr
  ]

  -- `start` and `end` are doubles, which hold these numbers and the half of their difference
  -- exactly.
  unfoldable pub merge_sort : ℕ → List A → ℕ → ℕ → Option (List A)
  unfolding merge
  merge_sort zero arr start end = none
  merge_sort (suc fuel) arr start end = elim (leb end start) [
    | true ↦ some arr
    | false ↦
        let mid = start + (end - start) / 2 in
        merge_sort fuel arr start mid >>= λ left.
        merge_sort fuel left (mid + 1) end >>= λ both. merge both start end
  ]
