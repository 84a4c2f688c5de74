-- ===== src/Feast/Run.antt =====
-- The `while` of `serve_dishes`: what it reads, and the orders that it serves.
use linux_system_programming.Prelude.{
  ℕ, zero, suc, ◌+◌, ◌<◌, ◌≤◌, ◌≡◌, refl, ◌≢◌, inl, inr, Bool, true, false, int_max, map, ◌++◌,
  none, some, List, [], ◌∷◌, arith, if◌then◌else◌, Bool-cases, ℤ, minus_one, eq_int, eq_int_iff,
  length,
}
use linux_system_programming.Feast.{Platter, Token, number, word, serve_dish, serve_dishes}

-- The orders in a list served one after the other, with the fetches so far.
unfoldable pub serve_all : List ℤ → List Platter → ℕ → ℕ × List Platter
serve_all [] ps fetches = (fetches, ps)
serve_all (order ∷ orders) ps fetches =
    let (ps', fetched) = serve_dish ps order in
    serve_all orders ps' (if fetched then suc fetches else fetches)

-- The orders before the first -1.
unfoldable pub up_to_end : List ℤ → List ℤ
up_to_end [] = []
up_to_end (x ∷ xs) = let rest = up_to_end xs in if eq_int x minus_one then [] else x ∷ rest

-- The orders that `get_next_dish_order` hands over before it answers -1 by itself: the numbers of
-- the input and, unless the last number ends the file, once the junk of an uninitialised `next`.
unfoldable pub handed : ℤ → List ℤ → Bool → List ℤ
handed junk [] blanks = junk ∷ []
handed junk (x ∷ []) blanks = x ∷ (if blanks then junk ∷ [] else [])
handed junk (x ∷ y ∷ ys) blanks = x ∷ handed junk (y ∷ ys) blanks

serve_dishes_eof :
    (fuel : ℕ) (junk : ℤ) (xs : List Token) (blanks : Bool) (ps : List Platter) (n : ℕ)
    → serve_dishes (suc fuel) junk (record { tokens = xs; blanks = blanks; eof = true }) ps n
      ≡ some (n, ps)
unfolding serve_dishes
serve_dishes_eof fuel junk xs blanks ps n = refl

-- On an input of numbers, with rounds for all of them and one more for the end of the file, which fit
-- in an `int`, the loop ends, and it has served the orders handed over before the first -1, in order.
pub serve_dishes-serve_all :
    (fuel : ℕ) (junk : ℤ) (xs : List ℤ) (blanks : Bool) (ps : List Platter) (n : ℕ)
    → length xs + 1 < fuel
    → fuel ≤ int_max
    → serve_dishes fuel junk (record { tokens = map number xs; blanks = blanks; eof = false }) ps n
      ≡ some (serve_all (up_to_end (handed junk xs blanks)) ps n)
unfolding serve_dishes serve_all up_to_end handed
serve_dishes-serve_all zero junk xs blanks ps n h few = absurd (omega arith)
serve_dishes-serve_all (suc zero) junk xs blanks ps n h few = absurd (omega arith)
serve_dishes-serve_all (suc (suc fuel)) junk [] blanks ps n h few =
    elim (Bool-cases (eq_int junk minus_one)) [ inl e ↦ rw e | inr e ↦ rw e ]
serve_dishes-serve_all (suc (suc fuel)) junk (x ∷ []) false ps n h few =
    elim (Bool-cases (eq_int x minus_one)) [ inl e ↦ rw e | inr e ↦ rw e ]
serve_dishes-serve_all (suc (suc fuel)) junk (x ∷ []) true ps n h few =
    elim (Bool-cases (eq_int x minus_one)) [
      | inl e ↦ rw e
      | inr e ↦
          rw e
            (serve_dishes-serve_all (suc fuel) junk [] true _ _ (omega arith) (omega (arith, few)))
    ]
serve_dishes-serve_all (suc (suc fuel)) junk (x ∷ y ∷ ys) blanks ps n h few =
    elim (Bool-cases (eq_int x minus_one)) [
      | inl e ↦ rw e
      | inr e ↦ rw e (
          serve_dishes-serve_all (suc fuel) junk (y ∷ ys) blanks _ _ (omega arith)
            (omega (arith, few)))
    ]

abbrev pub NoEnd : List ℤ → Type 0
NoEnd [] = Unit
NoEnd (x ∷ xs) = (x ≢ minus_one) × NoEnd xs

not_end : (x : ℤ) → x ≢ minus_one → eq_int x minus_one ≡ false
not_end x ne = elim (Bool-cases (eq_int x minus_one)) [
  | inl e ↦ absurd (ne ((eq_int_iff x minus_one).0 e))
  | inr e ↦ e
]

-- Behind numbers without -1 a token that is no number keeps the loop going for ever, unless `next`
-- happens to hold -1: scanf stores nothing, and the end of the file is never met.
pub serve_dishes-stuck :
    (fuel : ℕ) (junk : ℤ) (xs : List ℤ) (rest : List Token) (blanks : Bool) (ps : List Platter)
    (n : ℕ)
    → junk ≢ minus_one
    → NoEnd xs
    → serve_dishes fuel junk
        (record { tokens = map number xs ++ word ∷ rest; blanks = blanks; eof = false })
        ps
        n
      ≡ none
unfolding serve_dishes
serve_dishes-stuck zero junk xs rest blanks ps n ne none_ends = refl
serve_dishes-stuck (suc fuel) junk [] rest blanks ps n ne none_ends =
    rw (not_end junk ne) (serve_dishes-stuck fuel junk [] rest blanks _ _ ne tt)
serve_dishes-stuck (suc fuel) junk (x ∷ []) rest blanks ps n ne none_ends =
    rw (not_end x none_ends.0) (serve_dishes-stuck fuel junk [] rest blanks _ _ ne tt)
serve_dishes-stuck (suc fuel) junk (x ∷ y ∷ ys) rest blanks ps n ne none_ends =
    rw (not_end x none_ends.0)
      (serve_dishes-stuck fuel junk (y ∷ ys) rest blanks _ _ ne none_ends.1)
