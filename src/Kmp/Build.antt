-- ===== src/Kmp/Build.antt =====
-- `build_prefix_table` fills in the table that the search needs.
use linux_system_programming.Prelude.{
  ℕ, zero, suc, ◌+◌, ◌<◌, ◌≤◌, ◌≡◌, refl, sym, ◌∙◌, inl, inr, some, List, [], ◌∷◌, arith, ◌==◌,
  ==_iff, Bool-cases, ℤ, pos, negsuc, minus_one, suc_int, length, get_elem?, set, length-set,
  get_elem?-set_self, get_elem?-set_ne, get_elem?-append_lt, subst,
}
use linux_system_programming.Kmp.{fall, fall_fuel, build_loop, build_prefix_table}
use linux_system_programming.Kmp.Border.{Ends, Top, Top-suc}
use linux_system_programming.Kmp.Fall.{sym_of, IsTable, measure, read-c_string, Falling, fall-Top}

pub read-pattern : (p : List ℕ) (k : ℕ) → k < length p → get_elem? p k ≡ some (sym_of p k)
read-pattern p k h = sym (get_elem?-append_lt p (0 ∷ []) k h) ∙ read-c_string p k (omega arith)

-- At the head of a `for` the `while` has nothing behind it.
pub Falling-of_Top :
    (p : List ℕ) (table : List ℤ) (X : ℕ → ℕ) (i b : ℕ) (j : ℤ)
    → Top (Ends (sym_of p) X i) b j
    → Falling p table X i b j
Falling-of_Top p table X i b (pos k) (e, lt, max) = (e, lt, λ k' lt' g. max k' lt' g.0)
Falling-of_Top p table X i b (negsuc zero) never = λ k' lt' g. never k' lt' g.0
Falling-of_Top p table X i b (negsuc (suc n)) h = absurd h

Top-measure : (Q : ℕ → Type 0) (b m : ℕ) (j : ℤ) → Top Q b j → b ≤ suc m → measure j ≤ m + 2
Top-measure Q b m (pos k) t le = omega (arith, t.1)
Top-measure Q b m (negsuc zero) t le = omega arith
Top-measure Q b m (negsuc (suc n)) t le = absurd t

-- An iteration of a `for` from a state that is right at `i`: the `while` ends, and one more is the
-- longest prefix that ends behind the symbol.
pub advance :
    (p : List ℕ) (table : List ℤ) (X : ℕ → ℕ) (i b n : ℕ) (j : ℤ)
    → IsTable p table n
    → n ≤ length p
    → b ≤ suc n
    → Top (Ends (sym_of p) X i) b j
    → (a : ℤ) × (fall (fall_fuel p) table p (X i) j ≡ some a)
      × Top (Ends (sym_of p) X (suc i)) (suc b) (suc_int a)
advance p table X i b n j t np bn top =
    let (a, runs, found) =
      fall-Top p table X i b n (fall_fuel p) j t np bn
        (Top-measure _ b (length p) j top (omega arith)) (Falling-of_Top p table X i b j top) in
    (a, runs, Top-suc (sym_of p) X i b a found)

-- A longer table: the entry behind the last is what the state at its index says.
IsTable-set :
    (p : List ℕ) (table : List ℤ) (i : ℕ) (j : ℤ)
    → IsTable p table i
    → suc i < length table
    → Top (Ends (sym_of p) (sym_of p) (suc i)) (suc i) j
    → IsTable p (set table (suc i) j) (suc i)
IsTable-set p table i j t room top = record {
  entry = λ k le. elim (Bool-cases (k == suc i)) [
    | inl q ↦
        let k_i : k ≡ suc i = (==_iff k (suc i)).0 q in
        subst
          (λ n.
            (a : ℤ) × (get_elem? (set table (suc i) j) n ≡ some a)
            × Top (Ends (sym_of p) (sym_of p) n) n a)
          (sym k_i) (j, get_elem?-set_self table (suc i) j room, top)
    | inr q ↦
        let (a, got, old) = t.entry k (ground arith) in
        (a, get_elem?-set_ne table j (λ e. grind (arith, q, e)) ∙ got, old)
  ];
}

build_loop-IsTable :
    (p : List ℕ) (rounds i : ℕ) (j : ℤ) (table : List ℤ)
    → i + rounds ≡ length p
    → length table ≡ suc (length p)
    → IsTable p table i
    → Top (Ends (sym_of p) (sym_of p) i) i j
    → (done : List ℤ) × (build_loop rounds table p i j ≡ some done) × IsTable p done (length p)
unfolding build_loop
build_loop-IsTable p zero i j table e size t top =
    (table, refl, subst (IsTable p table) (omega arith) t)
build_loop-IsTable p (suc rounds) i j table e size t top =
    let (a, runs, found) = advance p table (sym_of p) i i i j t (omega arith) (omega arith) top in
    let (done, builds, full) =
      build_loop-IsTable p rounds (suc i) (suc_int a) (set table (suc i) (suc_int a)) (omega arith)
        (length-set table (suc i) (suc_int a) ∙ size)
        (IsTable-set p table i (suc_int a) t (omega arith) found) found in
    (done, rw (read-pattern p i (omega arith)) (rw runs builds), full)

-- On an array of m + 1 integers `build_prefix_table` ends, reads and writes nothing out of bounds,
-- and leaves at each index i up to m the longest prefix shorter than i that ends the prefix of
-- length i; at 0 there is none, which is -1.
pub build_prefix_table-IsTable :
    (raw : List ℤ) (p : List ℕ)
    → length raw ≡ suc (length p)
    → (table : List ℤ) × (build_prefix_table raw p ≡ some table) × IsTable p table (length p)
unfolding build_prefix_table
build_prefix_table-IsTable raw p size =
    build_loop-IsTable p (length p) 0 minus_one (set raw 0 minus_one) (omega arith)
      (length-set raw 0 minus_one ∙ size) (record { entry = λ i le. first i le })
      (λ k' lt e. absurd (omega arith))
  where
    first :
        (i : ℕ)
        → i ≤ 0
        → (a : ℤ) × (get_elem? (set raw 0 minus_one) i ≡ some a)
          × Top (Ends (sym_of p) (sym_of p) i) i a
    first zero le = (
      minus_one,
      get_elem?-set_self raw 0 minus_one (omega arith),
      λ k' lt e. absurd (omega arith),
    )
    first (suc i) le = absurd (omega arith)
