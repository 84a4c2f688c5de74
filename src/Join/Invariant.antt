-- ===== src/Join/Invariant.antt =====
-- What holds of the counter and the threads in every state.
use linux_system_programming.Prelude.{
  ℕ, zero, suc, ◌+◌, ◌-◌, ◌≤◌, ◌<◌, ◌≡◌, ◌≢◌, refl, ap, ◌∙◌, ◌⊎◌, inl, inr, Bool, true, false, some,
  List, [], ◌∷◌, ◌++◌, arith, if◌then◌else◌, length, set, get_elem?, length-set,
  get_elem?-set_cases, get_elem?-set_ne, lt-length_of_get_elem?,
}
use linux_system_programming.Join.{
  Work, locking, reading, writing, unlocking, returned, Main, creating, joining, printed, State,
  Runs, locks, reads, writes, unlocks,
}

-- With the mutex.
abbrev pub inside : Work → ℕ
inside locking = 0
inside reading = 1
inside (writing v) = 1
inside unlocking = 1
inside returned = 0

-- With its increment done.
abbrev pub counted : Work → ℕ
counted locking = 0
counted reading = 0
counted (writing v) = 0
counted unlocking = 1
counted returned = 1

abbrev pub total : (Work → ℕ) → List Work → ℕ
total f [] = 0
total f (p ∷ ps) = f p + total f ps

pub total-set :
    (f : Work → ℕ) (ps : List Work) (i : ℕ) (p p' : Work)
    → get_elem? ps i ≡ some p
    → total f (set ps i p') + f p ≡ total f ps + f p'
total-set f [] i p p' e = cc
total-set f (q ∷ ps) zero p p' e = let same : q ≡ p = cc in rw same (omega arith)
total-set f (q ∷ ps) (suc i) p p' e = omega (arith, total-set f ps i p p' e)

pub total-append : (f : Work → ℕ) (ps qs : List Work) → total f (ps ++ qs) ≡ total f ps + total f qs
total-append f [] qs = omega arith
total-append f (p ∷ ps) qs = omega (arith, total-append f ps qs)

total-ge :
    (f : Work → ℕ) (ps : List Work) (i : ℕ) (p : Work) → get_elem? ps i ≡ some p → f p ≤ total f ps
total-ge f [] i p e = cc
total-ge f (q ∷ ps) zero p e = let same : q ≡ p = cc in rw same (omega arith)
total-ge f (q ∷ ps) (suc i) p e = omega (arith, total-ge f ps i p e)

-- Two threads that both count are counted twice.
total-two :
    (f : Work → ℕ) (ps : List Work) (i j : ℕ) (p q : Work)
    → i ≢ j
    → get_elem? ps i ≡ some p
    → get_elem? ps j ≡ some q
    → f p + f q ≤ total f ps
total-two f [] i j p q ne ei ej = cc
total-two f (r ∷ ps) zero zero p q ne ei ej = absurd (ne refl)
total-two f (r ∷ ps) zero (suc j) p q ne ei ej =
    let same : r ≡ p = cc in rw same (omega (arith, total-ge f ps j q ej))
total-two f (r ∷ ps) (suc i) zero p q ne ei ej =
    let same : r ≡ q = cc in rw same (omega (arith, total-ge f ps i p ei))
total-two f (r ∷ ps) (suc i) (suc j) p q ne ei ej =
    omega (arith, total-two f ps i j p q (λ e. ne (ap suc e)) ei ej)

abbrev pub MainInv : ℕ → List Work → Main → Type 0
MainInv n pool (creating i) = (length pool ≡ i) × (i ≤ n)
MainInv n pool (joining i) =
    (length pool ≡ n) × (i ≤ n) × ((k : ℕ) → k < i → get_elem? pool k ≡ some returned)
MainInv n pool (printed v) =
    (length pool ≡ n)
    × ((k : ℕ) → k < n → get_elem? pool k ≡ some returned)
    × (v ≡ total counted pool)

pub record Inv (n : ℕ) (s : State) : Type 0 where
  pub one_inside : total inside s.pool ≡ (if s.locked then 1 else 0)
  pub count : s.x ≡ total counted s.pool
  pub fresh : (i v : ℕ) → get_elem? s.pool i ≡ some (writing v) → v ≡ s.x
  pub main : MainInv n s.pool s.main

Runs-inside :
    {m m' : Bool} {x x' : ℕ} {p p' : Work}
    → Runs m x p m' x' p'
    → (t : ℕ) → t + inside p ≡ (if m then 1 else 0)
    → t + inside p' ≡ (if m' then 1 else 0)
Runs-inside locks t e = omega (arith, e)
Runs-inside reads t e = e
Runs-inside (writes v) t e = e
Runs-inside {m = true} unlocks t e = omega (arith, e)
Runs-inside {m = false} unlocks t e = absurd (omega (arith, e))

-- A thread that runs has not returned, so those that have stay so.
not_returned : {m m' : Bool} {x x' : ℕ} {p p' : Work} → Runs m x p m' x' p' → p ≢ returned
not_returned locks e = cc
not_returned reads e = cc
not_returned (writes v) e = cc
not_returned unlocks e = cc

kept :
    {p : Work} (pool : List Work) (i k : ℕ) (p' : Work)
    → get_elem? pool i ≡ some p
    → p ≢ returned
    → get_elem? pool k ≡ some returned
    → get_elem? (set pool i p') k ≡ some returned
kept pool i k p' ei ne ek = get_elem?-set_ne pool p' (λ e. ne (ground (arith, e, ei, ek))) ∙ ek

MainInv-works :
    (n : ℕ) (pool : List Work) (i : ℕ) {p : Work} (p' : Work) (mn : Main)
    → get_elem? pool i ≡ some p
    → p ≢ returned
    → MainInv n pool mn
    → ((v : ℕ) → mn ≢ printed v) ⊎ (i < length pool → ⊥)
    → MainInv n (set pool i p') mn
MainInv-works n pool i {p} p' (creating k) e ne v d = (length-set pool i p' ∙ v.0, v.1)
MainInv-works n pool i {p} p' (joining k) e ne v d =
    (length-set pool i p' ∙ v.0, v.1, λ j lt. kept pool i j p' e ne (v.2 j lt))
MainInv-works n pool i {p} p' (printed k) e ne v (inl h) = absurd (h k refl)
MainInv-works n pool i {p} p' (printed k) e ne v (inr h) =
    absurd (h (lt-length_of_get_elem? pool i p e))

-- Once x is printed no thread runs.
none_runs :
    (n : ℕ) (pool : List Work) (i : ℕ) {p : Work} (mn : Main)
    → get_elem? pool i ≡ some p
    → p ≢ returned
    → MainInv n pool mn
    → ((v : ℕ) → mn ≢ printed v) ⊎ (i < length pool → ⊥)
none_runs n pool i (creating k) e ne v = inl (λ u q. cc)
none_runs n pool i (joining k) e ne v = inl (λ u q. cc)
none_runs n pool i (printed k) e ne v =
    inr (λ lt. let r = v.1 i (omega (arith, lt, v.0)) in ne (ground (arith, e, r)))

Runs-count :
    {m m' : Bool} {x x' : ℕ} {p p' : Work}
    → Runs m x p m' x' p'
    → ((u : ℕ) → p ≡ writing u → u ≡ x)
    → x' + counted p ≡ x + counted p'
Runs-count locks fresh = refl
Runs-count reads fresh = refl
Runs-count (writes u) fresh = omega (arith, fresh u refl)
Runs-count unlocks fresh = refl

-- What a thread has read is still x: its own, or that of a thread beside one that is not inside.
Runs-fresh :
    {m m' : Bool} {x x' : ℕ} {p p' : Work} (u : ℕ)
    → Runs m x p m' x' p'
    → (p' ≡ writing u) ⊎ ((inside p ≡ 0) × (u ≡ x))
    → u ≡ x'
Runs-fresh u locks (inl q) = cc
Runs-fresh u locks (inr (out, e)) = e
Runs-fresh u reads (inl q) = cc
Runs-fresh u reads (inr (out, e)) = e
Runs-fresh u (writes w) (inl q) = cc
Runs-fresh u (writes w) (inr (out, e)) = absurd (omega (arith, out))
Runs-fresh u unlocks (inl q) = cc
Runs-fresh u unlocks (inr (out, e)) = e

module _ {n : ℕ} {s : State} (v : Inv n s) where
  locked_le : total inside s.pool ≤ 1
  locked_le = ground (arith, v.one_inside)

  -- A thread that has read x, before and after the `i`-th thread goes from `p` to `p'`.
  has_read :
      (i j u : ℕ) (p p' : Work)
      → get_elem? s.pool i ≡ some p
      → get_elem? (set s.pool i p') j ≡ some (writing u)
      → (p' ≡ writing u) ⊎ ((inside p ≡ 0) × (u ≡ s.x))
  has_read i j u p p' e h =
      elim (get_elem?-set_cases s.pool i j p' (writing u) (lt-length_of_get_elem? s.pool i p e) h) [
        | inl q ↦ inl (q.1)
        | inr q ↦
            let two = total-two inside s.pool i j p (writing u) q.0 e q.1 in
            inr (omega (arith, locked_le, two), v.fresh j u q.1)
      ]

  pub works-Inv :
      (i : ℕ) {p p' : Work} {m : Bool} {x : ℕ}
      → get_elem? s.pool i ≡ some p
      → Runs s.locked s.x p m x p'
      → Inv n (record s { locked = m; x = x; pool = set s.pool i p' })
  works-Inv i {p} {p'} {m} {x} e r =
      let ti = total-set inside s.pool i p p' e in
      let tc = total-set counted s.pool i p p' e in
      let ge = total-ge inside s.pool i p e in
      record {
        one_inside = omega (
          arith,
          ti,
          ge,
          Runs-inside r (total inside s.pool - inside p) (omega (arith, ge, v.one_inside)),
        );
        count =
            omega (arith, tc, v.count, Runs-count r (λ u q. v.fresh i u (ground (arith, e, q))));
        fresh = λ j u h. Runs-fresh u r (has_read i j u p p' e h);
        main =
            MainInv-works n s.pool i p' s.main e (not_returned r) v.main
              (none_runs n s.pool i s.main e (not_returned r) v.main);
      }
