-- ===== src/Kmp/Border.antt =====
-- Prefixes of a pattern that end at a position of a text.
use linux_system_programming.Prelude.{
  ℕ, zero, suc, ◌+◌, ◌-◌, ◌<◌, ◌≤◌, ◌≡◌, sym, ap, ◌∙◌, inl, inr, arith, ◌==◌, ==_iff, Bool-cases, ℤ,
  pos, negsuc, suc_int,
}

-- The first `k` symbols of `P` stand in `X` just before position `i`.
pub record Ends (P X : ℕ → ℕ) (i k : ℕ) : Type 0 where
  pub start : ℕ
  pub at : start + k ≡ i
  pub same : (t : ℕ) → t < k → X (start + t) ≡ P t

module _ {P X : ℕ → ℕ} where
  pub Ends-zero : (i : ℕ) → Ends P X i 0
  Ends-zero i = record { start = i; at = omega arith; same = λ t lt. absurd (omega arith) }

  pub Ends-suc : {i k : ℕ} → Ends P X i k → X i ≡ P k → Ends P X (suc i) (suc k)
  Ends-suc {i} {k} e hit = record {
    start = e.start;
    at = omega (arith, e.at);
    same = λ t lt. elim (Bool-cases (t == k)) [
      | inl q ↦
          let t_k : t ≡ k = (==_iff t k).0 q in ap X (omega (arith, e.at)) ∙ hit ∙ ap P (sym t_k)
      | inr q ↦ e.same t (ground arith)
    ];
  }

  pub Ends-pred : {i k : ℕ} → Ends P X (suc i) (suc k) → Ends P X i k × (X i ≡ P k)
  Ends-pred {i} {k} e = (
    record { start = e.start; at = omega (arith, e.at); same = λ t lt. e.same t (omega arith) },
    ap X (omega (arith, e.at)) ∙ e.same k (omega arith),
  )

  -- What ends before position `j` of the pattern ends wherever the first `j` symbols end …
  pub Ends-trans : {i j k : ℕ} → Ends P X i j → Ends P P j k → Ends P X i k
  Ends-trans {j} {k} e f = record {
    start = e.start + f.start;
    at = omega (arith, e.at, f.at);
    same = λ t lt. ap X (omega arith) ∙ e.same (f.start + t) (omega (arith, f.at)) ∙ f.same t lt;
  }

  -- … and of two prefixes that end at one place the longer ends with the shorter.
  pub Ends-inside : {i j k : ℕ} → Ends P X i j → Ends P X i k → k ≤ j → Ends P P j k
  Ends-inside {j} {k} e f le = record {
    start = j - k;
    at = omega arith;
    same = λ t lt.
        sym (e.same (j - k + t) (omega arith)) ∙ ap X (omega (arith, e.at, f.at)) ∙ f.same t lt;
  }

-- `j` is the greatest number below `b` with `Q`, and -1 if there is none.
abbrev pub Top : (ℕ → Type 0) → ℕ → ℤ → Type 0
Top Q b (pos k) = Q k × (k < b) × ((k' : ℕ) → k' < b → Q k' → k' ≤ k)
Top Q b (negsuc zero) = (k' : ℕ) → k' < b → Q k' → ⊥
Top Q b (negsuc (suc n)) = ⊥

-- What can grow by the next symbol.
abbrev pub Grows : (ℕ → ℕ) → (ℕ → ℕ) → ℕ → ℕ → Type 0
Grows P X i k = Ends P X i k × (X i ≡ P k)

-- One symbol on: the greatest that grows, grown, is the greatest that ends there.
pub Top-suc :
    (P X : ℕ → ℕ) (i b : ℕ) (j : ℤ)
    → Top (Grows P X i) b j
    → Top (Ends P X (suc i)) (suc b) (suc_int j)
Top-suc P X i b (pos k) (g, lt, max) = (Ends-suc g.0 g.1, omega arith, largest)
  where
    largest : (k' : ℕ) → k' < suc b → Ends P X (suc i) k' → k' ≤ suc k
    largest zero lt' e = omega arith
    largest (suc k') lt' e = omega (arith, max k' (omega arith) (Ends-pred e))
Top-suc P X i b (negsuc zero) none_grows = (Ends-zero (suc i), omega arith, largest)
  where
    largest : (k' : ℕ) → k' < suc b → Ends P X (suc i) k' → k' ≤ 0
    largest zero lt' e = omega arith
    largest (suc k') lt' e = absurd (none_grows k' (omega arith) (Ends-pred e))
Top-suc P X i b (negsuc (suc n)) h = absurd h
