-- ===== src/Join/Safety.antt =====
-- What `main` prints, and that it gets there.
use linux_system_programming.Prelude.{
  ℕ, zero, suc, ◌+◌, ◌-◌, ◌*◌, ◌<◌, ◌≡◌, refl, sym, ap, subst, ◌∙◌, ◌⊎◌, inl, inr, Bool, true,
  Bool-cases, some, List, [], ◌∷◌, ◌++◌, arith, ltb, length, get_elem?, length-append,
  get_elem?_total,
}
use linux_system_programming.Join.{
  Work, locking, reading, writing, unlocking, returned, Main, creating, joining, printed, State,
  Runs, locks, reads, writes, unlocks, Move, works, creates, all_created, joins, prints, Reach,
  begin, then_move,
}
use linux_system_programming.Join.Invariant.{
  inside, counted, total, total-set, total-append, MainInv, Inv, works-Inv,
}

get_elem?-append_writing :
    (ps : List Work) (i u : ℕ)
    → get_elem? (ps ++ locking ∷ []) i ≡ some (writing u)
    → get_elem? ps i ≡ some (writing u)
get_elem?-append_writing [] zero u e = cc
get_elem?-append_writing [] (suc i) u e = cc
get_elem?-append_writing (p ∷ ps) zero u e = e
get_elem?-append_writing (p ∷ ps) (suc i) u e = get_elem?-append_writing ps i u e

Move-Inv : {n : ℕ} {s s' : State} → Move n s s' → Inv n s → Inv n s'
Move-Inv (works i e r) v = works-Inv v i e r
Move-Inv {n} {s} (creates i at_create lt) v = record {
  one_inside = omega (arith, v.one_inside, total-append inside s.pool (locking ∷ []));
  count = omega (arith, v.count, total-append counted s.pool (locking ∷ []));
  fresh = λ j u h. v.fresh j u (get_elem?-append_writing s.pool j u h);
  main =
      let m : MainInv n s.pool (creating i) = subst (MainInv n s.pool) at_create v.main in
      (length-append s.pool (locking ∷ []) ∙ omega (arith, m.0), omega (arith, lt));
}
Move-Inv {n} {s} (all_created i at_create ge) v = record {
  one_inside = v.one_inside;
  count = v.count;
  fresh = v.fresh;
  main =
      let m : MainInv n s.pool (creating i) = subst (MainInv n s.pool) at_create v.main in
      (omega (arith, m, ge), omega arith, λ k lt. absurd (omega (arith, lt)));
}
Move-Inv {n} {s} (joins i at_join lt done) v = record {
  one_inside = v.one_inside;
  count = v.count;
  fresh = v.fresh;
  main =
      let m : MainInv n s.pool (joining i) = subst (MainInv n s.pool) at_join v.main in
      (
        m.0,
        omega (arith, lt),
        λ k le. elim (Bool-cases (ltb k i)) [
          | inl e ↦ m.2 k (ground (arith, e))
          | inr e ↦ let same : k ≡ i = ground (arith, e, le) in ap (get_elem? s.pool) same ∙ done
        ],
      );
}
Move-Inv {n} {s} (prints i at_join ge) v = record {
  one_inside = v.one_inside;
  count = v.count;
  fresh = v.fresh;
  main =
      let m : MainInv n s.pool (joining i) = subst (MainInv n s.pool) at_join v.main in
      (m.0, λ k lt. m.2 k (omega (arith, lt, ge)), v.count);
}

Reach-Inv : {n : ℕ} {s : State} → Reach n s → Inv n s
Reach-Inv begin = record {
  one_inside = refl;
  count = refl;
  fresh = λ i u e. cc;
  main = (refl, omega arith);
}
Reach-Inv (then_move r m) = Move-Inv m (Reach-Inv r)

counted_all :
    (ps : List Work)
    → ((k : ℕ) → k < length ps → get_elem? ps k ≡ some returned)
    → total counted ps ≡ length ps
counted_all [] h = refl
counted_all (p ∷ ps) h =
    let first : p ≡ returned = (let e = h 0 (omega arith) in cc) in
    rw first (omega (arith, counted_all ps (λ k lt. h (suc k) (omega (arith, lt)))))

-- However the threads are scheduled, `main` prints the number of threads, and x is
-- that number.
pub prints-numthreads : (n v : ℕ) (s : State) → Reach n s → s.main ≡ printed v → (v ≡ n) × (s.x ≡ n)
prints-numthreads n v s r e =
    let m : MainInv n s.pool (printed v) = subst (MainInv n s.pool) e (Reach-Inv r).main in
    let all = counted_all s.pool (λ k lt. m.1 k (omega (arith, lt, m.0))) ∙ m.0 in
    (m.2 ∙ all, (Reach-Inv r).count ∙ all)

abbrev work_left : Work → ℕ
work_left locking = 4
work_left reading = 3
work_left (writing v) = 2
work_left unlocking = 1
work_left returned = 0

abbrev main_left : ℕ → Main → ℕ
main_left n (creating i) = 5 * (n - i) + n + 2
main_left n (joining i) = (n - i) + 1
main_left n (printed v) = 0

-- The steps that are left.
abbrev pub left : ℕ → State → ℕ
left n s = total work_left s.pool + main_left n s.main

Runs-left :
    {m m' : Bool} {x x' : ℕ} {p p' : Work} → Runs m x p m' x' p' → work_left p' < work_left p
Runs-left locks = omega arith
Runs-left reads = omega arith
Runs-left (writes v) = omega arith
Runs-left unlocks = omega arith

Move-left : {n : ℕ} {s s' : State} → Move n s s' → left n s' < left n s
Move-left {n} {s} (works i {p} {p'} e r) =
    omega (arith, Runs-left r, total-set work_left s.pool i p p' e)
Move-left {n} {s} (creates i at_create lt) =
    omega (arith, lt, ap (main_left n) at_create, total-append work_left s.pool (locking ∷ []))
Move-left {n} {s} (all_created i at_create ge) = omega (arith, ge, ap (main_left n) at_create)
Move-left {n} {s} (joins i at_join lt done) = omega (arith, lt, ap (main_left n) at_join)
Move-left {n} {s} (prints i at_join ge) = omega (arith, ap (main_left n) at_join)

abbrev Goes : ℕ → State → Type 0
Goes n s = (s' : State) × Move n s s'

-- The thread with the mutex.
find_inside :
    (ps : List Work)
    → 0 < total inside ps
    → (i : ℕ) × (p : Work) × (get_elem? ps i ≡ some p) × (inside p ≡ 1)
find_inside [] pos = absurd (omega (arith, pos))
find_inside (locking ∷ ps) pos =
    let (i, p, e, h) = find_inside ps (omega (arith, pos)) in (suc i, p, e, h)
find_inside (reading ∷ ps) pos = (0, reading, refl, refl)
find_inside (writing v ∷ ps) pos = (0, writing v, refl, refl)
find_inside (unlocking ∷ ps) pos = (0, unlocking, refl, refl)
find_inside (returned ∷ ps) pos =
    let (i, p, e, h) = find_inside ps (omega (arith, pos)) in (suc i, p, e, h)

module _ {n : ℕ} {s : State} where
  inside_goes : (i : ℕ) (p : Work) → get_elem? s.pool i ≡ some p → inside p ≡ 1 → Goes n s
  inside_goes i locking e h = absurd (omega (arith, h))
  inside_goes i reading e h = (_, works i e reads)
  inside_goes i (writing v) e h = (_, works i e (writes v))
  inside_goes i unlocking e h = (_, works i e unlocks)
  inside_goes i returned e h = absurd (omega (arith, h))

  locking_goes : Inv n s → (i : ℕ) → get_elem? s.pool i ≡ some locking → Goes n s
  locking_goes v i e = elim (Bool-cases s.locked) [
    | inl l ↦
        let (j, p, ej, h) = find_inside s.pool (ground (arith, l, v.one_inside)) in
        inside_goes j p ej h
    | inr l ↦ (_, works i e (subst (λ m. Runs m s.x locking true s.x reading) (sym l) locks))
  ]

  thread_goes :
      Inv n s
      → (i : ℕ) → s.main ≡ joining i
      → i < n
      → (p : Work) → get_elem? s.pool i ≡ some p
      → Goes n s
  thread_goes v i em lt locking e = locking_goes v i e
  thread_goes v i em lt reading e = inside_goes i reading e refl
  thread_goes v i em lt (writing u) e = inside_goes i (writing u) e refl
  thread_goes v i em lt unlocking e = inside_goes i unlocking e refl
  thread_goes v i em lt returned e = (_, joins i em lt e)

  main_goes : Inv n s → (mn : Main) → s.main ≡ mn → ((v : ℕ) × (mn ≡ printed v)) ⊎ Goes n s
  main_goes v (creating i) em = elim (Bool-cases (ltb i n)) [
    | inl lt ↦ inr (_, creates i em (ground (arith, lt)))
    | inr ge ↦ inr (_, all_created i em (λ lt. ground (arith, ge, lt)))
  ]
  main_goes v (joining i) em = elim (Bool-cases (ltb i n)) [
    | inl lt ↦
        let small : i < n = ground (arith, lt) in
        let m : MainInv n s.pool (joining i) = subst (MainInv n s.pool) em v.main in
        let (p, e) = get_elem?_total s.pool i (omega (arith, small, m.0)) in
        inr (thread_goes v i em small p e)
    | inr ge ↦ inr (_, prints i em (λ lt. ground (arith, ge, lt)))
  ]
  main_goes v (printed u) em = inl (u, refl)

-- In every reachable state, until `main` has printed one of the threads can go on; and each step
-- brings all of them nearer to their end.
pub join_no_deadlock :
    (n : ℕ) (s : State)
    → Reach n s
    → (((v : ℕ) × (s.main ≡ printed v)) ⊎ ((s' : State) × Move n s s'))
      × ((s' : State) → Move n s s' → left n s' < left n s)
join_no_deadlock n s r = (main_goes (Reach-Inv r) s.main refl, λ s' m. Move-left m)
