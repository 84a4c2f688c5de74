-- ===== src/Kmp/Search.antt =====
-- `kmp_search` and `find` report each occurrence of the pattern once.
use linux_system_programming.Prelude.{
  ℕ, zero, suc, ◌+◌, ◌<◌, ◌≤◌, ◌≡◌, refl, sym, ap, ◌∙◌, inl, inr, Bool, true, false, some, List, [],
  ◌∷◌, arith, ◌==◌, ==_iff, ltb, if◌then◌else◌, Bool-cases, ℤ, pos, negsuc, suc_int, eq_int, length,
  get_elem?, subst,
}
use linux_system_programming.Kmp.{
  ◌>>=◌, read_at, fall, fall_fuel, Report, finished, write_failed, search_loop, find,
}
use linux_system_programming.Kmp.Border.{Ends, Ends-zero, Ends-trans, Ends-inside, Top}
use linux_system_programming.Kmp.Fall.{sym_of, IsTable}
use linux_system_programming.Kmp.Build.{read-pattern, advance, build_prefix_table-IsTable}
use linux_system_programming.Kmp.Count.{
  occurrences, ends_at, hits, Ends-of_ends_at, ends_at-of_Ends, hits-eq-occurrences,
}

-- The report when `h` matches are still to come and the first `n` are written.
unfoldable pub reported : (ℕ → Bool) → ℕ → ℕ → Report
reported writes n zero = finished n
reported writes n (suc h) =
    let rest = reported writes (suc n) h in if writes n then rest else write_failed n

-- A round of the `for`, once the `while` has ended.
search_loop_round :
    (writes : ℕ → Bool) (table : List ℤ) (p : List ℕ) (c : ℕ) (rest : List ℕ) (j : ℤ) (n : ℕ)
    (k : ℤ)
    → fall (fall_fuel p) table p c j ≡ some k
    → search_loop writes table p (c ∷ rest) j n ≡ (elim (eq_int (suc_int k) (pos (length p))) [
      | true ↦ elim (writes n) [
        | true ↦ read_at table (pos (length p)) >>= λ a. search_loop writes table p rest a (suc n)
        | false ↦ some (write_failed n)
      ]
      | false ↦ search_loop writes table p rest (suc_int k) n
    ])
unfolding search_loop
search_loop_round writes table p c rest j n k e = rw e refl

-- `rest` is the text from `i` on.
record Suffix (text : List ℕ) (i : ℕ) (rest : List ℕ) : Type 0 where
  size : i + length rest ≡ length text
  get : (k j : ℕ) → i + k ≡ j → get_elem? text j ≡ get_elem? rest k

tail_of :
    {text : List ℕ} {i c : ℕ} {rest : List ℕ} → Suffix text i (c ∷ rest) → Suffix text (suc i) rest
tail_of at = record { size = omega (arith, at.size); get = λ k j e. at.get (suc k) j (omega arith) }

whole : (text : List ℕ) → Suffix text 0 text
whole text = record { size = omega arith; get = λ k j e. ap (get_elem? text) (omega arith) }

module _ (p text : List ℕ) where
  symbol : (i c : ℕ) → get_elem? text i ≡ some c → i < length text → c ≡ sym_of text i
  symbol i c e lt = cc (read-pattern text i lt)

  abbrev State : ℕ → ℤ → Type 0
  State i j = Top (Ends (sym_of p) (sym_of text) i) (length p) j

  -- What the table says at m, after a match.
  State-match :
      (i : ℕ) (a : ℤ)
      → Ends (sym_of p) (sym_of text) i (length p)
      → Top (Ends (sym_of p) (sym_of p) (length p)) (length p) a
      → State i a
  State-match i (pos k) e (f, lt, max) =
      (Ends-trans e f, lt, λ k' lt' g. max k' lt' (Ends-inside e g (omega arith)))
  State-match i (negsuc zero) e never = λ k' lt' g. never k' lt' (Ends-inside e g (omega arith))
  State-match i (negsuc (suc n)) e h = absurd h

  -- Short of m, the longest prefix up to m is the longest below m.
  State-short :
      (i : ℕ) (j : ℤ)
      → Top (Ends (sym_of p) (sym_of text) i) (suc (length p)) j
      → eq_int j (pos (length p)) ≡ false
      → State i j
  State-short i (pos k) (e, lt, max) ne = (e, ground arith, λ k' lt' g. max k' (omega arith) g)
  State-short i (negsuc zero) never ne = λ k' lt' g. never k' (omega arith) g
  State-short i (negsuc (suc n)) h ne = absurd h

  -- The test ++j == m passes exactly where the pattern ends.
  test-ends_at :
      (i : ℕ) (j : ℤ)
      → i ≤ length text
      → Top (Ends (sym_of p) (sym_of text) i) (suc (length p)) j
      → eq_int j (pos (length p)) ≡ ends_at p text i
  test-ends_at i j le top = elim (Bool-cases (ends_at p text i)) [
    | inl ends ↦ rw ends (full j top (Ends-of_ends_at p text i ends))
    | inr misses ↦ rw misses (part j top misses)
  ]
    where
      full :
          (j : ℤ)
          → Top (Ends (sym_of p) (sym_of text) i) (suc (length p)) j
          → Ends (sym_of p) (sym_of text) i (length p)
          → eq_int j (pos (length p)) ≡ true
      full (pos k) (e, lt, max) ends = ground (arith, max (length p) (omega arith) ends)
      full (negsuc zero) never ends = absurd (never (length p) (omega arith) ends)
      full (negsuc (suc n)) h ends = absurd h

      part :
          (j : ℤ)
          → Top (Ends (sym_of p) (sym_of text) i) (suc (length p)) j
          → ends_at p text i ≡ false
          → eq_int j (pos (length p)) ≡ false
      part (pos k) (e, lt, max) no_end = elim (Bool-cases (k == length p)) [
        | inl q ↦
            let here : Ends (sym_of p) (sym_of text) i (length p) =
              subst (Ends (sym_of p) (sym_of text) i) ((==_iff k (length p)).0 q) e in
            let both : true ≡ false = sym (ends_at-of_Ends p text i le here) ∙ no_end in cc
        | inr q ↦ q
      ]
      part (negsuc n) h no_end = refl

  -- One round of the `for` for the symbol at `i`.
  module _ (writes : ℕ → Bool) (table : List ℤ) (t : IsTable p table (length p)) where
    search_loop-reported :
        (rest : List ℕ) (i n : ℕ) (j : ℤ)
        → Suffix text i rest
        → State i j
        → search_loop writes table p rest j n
          ≡ some (reported writes n (hits p text i (length rest)))
    unfolding search_loop reported hits
    search_loop-reported [] i n j at top = refl
    search_loop-reported (c ∷ rest) i n j at top =
        let size : i + suc (length rest) ≡ length text = at.size in
        let c_i : c ≡ sym_of text i = symbol i c (at.get 0 i (omega arith)) (omega arith) in
        let (k, runs, found) =
          advance p table (sym_of text) i (length p) (length p) j t (omega arith) (omega arith)
            top in
        let test = test-ends_at (suc i) (suc_int k) (omega arith) found in
        let (a, got, border) = t.entry (length p) (omega arith) in
        search_loop_round writes table p c rest j n k
          (ap (λ x. fall (fall_fuel p) table p x j) c_i ∙ runs)
        ∙ elim (Bool-cases (ends_at p text (suc i))) [
          | inl ends ↦ elim (Bool-cases (writes n)) [
            | inl ok ↦
                rw (test, ends, ok)
                  (rw got (
                    search_loop-reported rest (suc i) (suc n) a (tail_of at)
                      (State-match (suc i) a (Ends-of_ends_at p text (suc i) ends) border)))
            | inr bad ↦ rw (test, ends, bad) refl
          ]
          | inr misses ↦
              rw (test, misses)
                (search_loop-reported rest (suc i) n (suc_int k) (tail_of at)
                  (State-short (suc i) (suc_int k) found (test ∙ misses)))
        ]

-- The numbers of matches that `find` reports and of occurrences agree: for a pattern that is not
-- empty and not longer than the text, on an array of m + 1 integers, with the output file open,
-- `find` ends, reads nothing out of bounds, and reports each occurrence of the pattern once, up to
-- the first write that fails.
pub find-occurrences :
    (writes : ℕ → Bool) (raw : List ℤ) (text p : List ℕ)
    → length raw ≡ suc (length p)
    → 0 < length p
    → length p ≤ length text
    → find true writes raw text p ≡ some (reported writes 0 (occurrences p text))
unfolding find
find-occurrences writes raw text p size some_p le =
    let (table, builds, t) = build_prefix_table-IsTable raw p size in
    let fits : ltb (length text) (length p) ≡ false = ground arith in
    rw (fits, builds)
      (search_loop-reported p text writes table t text 0 0 (pos 0) (whole text)
          (Ends-zero 0, some_p, λ k' lt e. omega (arith, e.at))
        ∙ ap (λ h. some (reported writes 0 h)) (hits-eq-occurrences p text some_p le))
