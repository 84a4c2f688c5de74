-- ===== src/SharedList/Bag.antt =====
-- Lists of elements whose order is forgotten: which thread comes first is up to the scheduler.
use mathlib.Core.Quot
use mathlib.Core.Quot.{Quot}
use linux_system_programming.Prelude.{
  ℕ, ◌+◌, ◌≡◌, ◌∙◌, List, [], ◌∷◌, ◌++◌, arith, ltb, if◌then◌else◌,
}
use linux_system_programming.SharedList.{rounds}
use linux_system_programming.SharedList.Invariant.{count}

-- The same elements, as often.
abbrev SameElements : List ℕ → List ℕ → Type 0
SameElements xs ys = (k : ℕ) → count k xs ≡ count k ys

abbrev pub Bag : Type 0
Bag = Quot SameElements

abbrev pub bag : List ℕ → Bag
bag xs = Quot.mk xs

count-append : (k : ℕ) (xs ys : List ℕ) → count k (xs ++ ys) ≡ count k xs + count k ys
count-append k [] ys = omega arith
count-append k (x ∷ xs) ys = ground (arith, count-append k xs ys)

-- The indices of A, once.
abbrev pub indices : List ℕ
indices = 0 ∷ 1 ∷ 2 ∷ 3 ∷ 4 ∷ []

count-indices : (k : ℕ) → count k indices ≡ (if ltb k rounds then 1 else 0)
count-indices k = ground arith

-- Every index is twice in one of two lists.
pub bag_of_twice :
    (xs ys : List ℕ)
    → ((k : ℕ) → count k xs + count k ys ≡ (if ltb k rounds then 2 else 0))
    → bag (xs ++ ys) ≡ bag (indices ++ indices)
bag_of_twice xs ys h = Quot.sound (λ k.
    count-append k xs ys ∙ h k ∙ ground (arith, count-indices k, count-append k indices indices))
