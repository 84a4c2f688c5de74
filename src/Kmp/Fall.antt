-- ===== src/Kmp/Fall.antt =====
-- The inner `while` finds the longest prefix that the next symbol lengthens.
use linux_system_programming.Prelude.{
  ℕ, zero, suc, ◌+◌, ◌<◌, ◌≤◌, ◌≡◌, refl, sym, ap, ◌∙◌, ◌≢◌, inl, inr, true, false, some, List, [],
  ◌∷◌, arith, ◌==◌, ==_iff, Bool-cases, ℤ, pos, negsuc, minus_one, length, get_elem?, get_or,
  length-append, get_elem?_total, get_or-of_get_elem?,
}
use linux_system_programming.Kmp.{◌>>=◌, c_string, read_at, fall}
use linux_system_programming.Kmp.Border.{Ends, Ends-trans, Ends-inside, Top, Grows}

-- The symbol of a pattern, or of a text, at an index.
abbrev pub sym_of : List ℕ → ℕ → ℕ
sym_of p t = get_or (c_string p) t 0

-- The entries of the prefix table from 0 to `n`: each holds the longest shorter prefix that ends
-- where the prefix of its index ends.
pub record IsTable (p : List ℕ) (table : List ℤ) (n : ℕ) : Type 0 where
  pub entry :
      (i : ℕ)
      → i ≤ n
      → (a : ℤ) × (get_elem? table i ≡ some a) × Top (Ends (sym_of p) (sym_of p) i) i a

length-c_string : (p : List ℕ) → length (c_string p) ≡ suc (length p)
length-c_string p = omega (arith, length-append p (0 ∷ []))

pub read-c_string :
    (p : List ℕ) (k : ℕ) → k ≤ length p → get_elem? (c_string p) k ≡ some (sym_of p k)
read-c_string p k h =
    let (x, e) = get_elem?_total (c_string p) k (omega (arith, length-c_string p)) in
    e ∙ ap some (sym (get_or-of_get_elem? (c_string p) k 0 x e))

-- A round of the loop at `j` = `k`, once pattern[k] is read.
fall_pos :
    (fuel : ℕ) (table : List ℤ) (p : List ℕ) (c k x : ℕ)
    → get_elem? (c_string p) k ≡ some x
    → fall (suc fuel) table p c (pos k) ≡ (elim (c == x) [
      | true ↦ some (pos k)
      | false ↦ read_at table (pos k) >>= fall fuel table p c
    ])
unfolding fall
fall_pos fuel table p c k x e = rw e refl

-- Bounds the rounds from `j` on.
abbrev pub measure : ℤ → ℕ
measure (pos k) = k + 2
measure (negsuc n) = 1

module _ (p : List ℕ) (table : List ℤ) (X : ℕ → ℕ) (i b : ℕ) where
  -- What the `while` keeps to: `j` ends here, and nothing longer that grows has been passed over.
  abbrev pub Falling : ℤ → Type 0
  Falling (pos k) =
      Ends (sym_of p) X i k × (k < b) × ((k' : ℕ) → k' < b → Grows (sym_of p) X i k' → k' ≤ k)
  Falling (negsuc zero) = (k' : ℕ) → k' < b → Grows (sym_of p) X i k' → ⊥
  Falling (negsuc (suc n)) = ⊥

  -- One round: from `k`, which the symbol does not lengthen, to the entry at `k`.
  fall-entry :
      (k : ℕ) (a : ℤ)
      → Falling (pos k)
      → X i ≢ sym_of p k
      → Top (Ends (sym_of p) (sym_of p) k) k a
      → Falling a × (measure a < measure (pos k))
  fall-entry k (pos f) (e, lt, max) ne (ef, lf, maxf) =
      ((Ends-trans e ef, omega arith, λ k' lt' g. below k' g (max k' lt' g)), omega arith)
    where
      below : (k' : ℕ) → Grows (sym_of p) X i k' → k' ≤ k → k' ≤ f
      below k' g le = elim (Bool-cases (k' == k)) [
        | inl q ↦ absurd (ne (g.1 ∙ ap (sym_of p) ((==_iff k' k).0 q)))
        | inr q ↦ maxf k' (ground arith) (Ends-inside e g.0 le)
      ]
  fall-entry k (negsuc zero) (e, lt, max) ne least =
      (λ k' lt' g. never k' g (max k' lt' g), omega arith)
    where
      never : (k' : ℕ) → Grows (sym_of p) X i k' → k' ≤ k → ⊥
      never k' g le = elim (Bool-cases (k' == k)) [
        | inl q ↦ ne (g.1 ∙ ap (sym_of p) ((==_iff k' k).0 q))
        | inr q ↦ least k' (ground arith) (Ends-inside e g.0 le)
      ]
  fall-entry k (negsuc (suc n)) fj ne h = absurd h

  -- With more fuel than the measure of `j` the loop ends, reads nothing out of bounds, and stops at
  -- the longest prefix that the symbol lengthens.
  pub fall-Top :
      (n fuel : ℕ) (j : ℤ)
      → IsTable p table n
      → n ≤ length p
      → b ≤ suc n
      → measure j ≤ fuel
      → Falling j
      → (a : ℤ) × (fall fuel table p (X i) j ≡ some a) × Top (Grows (sym_of p) X i) b a
  unfolding fall
  fall-Top n zero (pos k) t np bn enough fj = absurd (omega arith)
  fall-Top n zero (negsuc k) t np bn enough fj = absurd (omega arith)
  fall-Top n (suc fuel) (negsuc zero) t np bn enough fj = (minus_one, refl, fj)
  fall-Top n (suc fuel) (negsuc (suc k)) t np bn enough fj = absurd fj
  fall-Top n (suc fuel) (pos k) t np bn enough (e, lt, max) =
      elim (Bool-cases (X i == sym_of p k)) [
        | inl hit ↦ (
          pos k,
          fall_pos fuel table p (X i) k _ (read-c_string p k (omega arith)) ∙ rw hit refl,
          ((e, (==_iff _ _).0 hit), lt, max),
        )
        | inr miss ↦
            let (a, got, top) = t.entry k (omega arith) in
            let (fa, less) = fall-entry k a (e, lt, max) (λ q. grind (arith, miss, q)) top in
            let (r, runs, found) = fall-Top n fuel a t np bn (omega arith) fa in
            (
              r,
              fall_pos fuel table p (X i) k _ (read-c_string p k (omega arith))
                  ∙ rw miss (rw got runs),
              found,
            )
      ]
