-- ===== src/Sorting.antt =====
-- 05-threading/class/insertion_sort.c, whose function 05-threading/class/merge_sort.c repeats. `gt x y` is
-- the comparison x > y of two elements.
pub mod Insert
pub mod Sorted
pub mod Merge
mod Tests
use linux_system_programming.Prelude.{
  ℕ, zero, suc, ◌+◌, ◌-◌, Bool, true, false, Option, none, some, List, [], ◌∷◌, ◌++◌, ltb,
  if◌then◌else◌, length, get_elem?, set,
}

-- Reads outside of the array give nothing.
infixl 5 ◌>>=◌
abbrev pub ◌>>=◌ : {A B : Type 0} → Option A → (A → Option B) → Option B
none >>= f = none
some a >>= f = f a

module _ {A : Type 0} (gt : A → A → Bool) where
  -- The inner `for`, at j = a + `k`: arr[a .. a + k] is left to look at.
  unfoldable pub shift_loop : ℕ → ℕ → A → List A → Option (List A)
  shift_loop a zero tmp arr = some arr
  shift_loop a (suc k) tmp arr = get_elem? arr (a + k) >>= λ x. elim (gt x tmp) [
    | true ↦ shift_loop a k tmp (set arr (a + suc k) x)
    | false ↦ some (set arr (a + suc k) tmp)
  ]

  -- if(arr[a] > tmp) arr[a] = tmp;
  unfoldable pub place_first : ℕ → A → List A → Option (List A)
  place_first a tmp arr =
      get_elem? arr a >>= λ x. elim (gt x tmp) [ true ↦ some (set arr a tmp) | false ↦ some arr ]

  -- The outer `for`, at i = a + `k`, with `rounds` rounds left.
  unfoldable pub sort_loop : ℕ → ℕ → ℕ → List A → Option (List A)
  unfolding shift_loop place_first
  sort_loop zero a k arr = some arr
  sort_loop (suc rounds) a k arr = get_elem? arr (a + k) >>= λ tmp.
      shift_loop a k tmp arr >>= λ shifted.
      place_first a tmp shifted >>= λ placed. sort_loop rounds a (suc k) placed

  unfoldable pub insertion_sort : List A → ℕ → ℕ → Option (List A)
  unfolding sort_loop
  insertion_sort arr a b = sort_loop (b - (a + 1)) a 1 arr
