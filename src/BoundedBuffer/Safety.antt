-- ===== src/BoundedBuffer/Safety.antt =====
-- What the program promises: exclusive access, every value in order, no deadlock.
use linux_system_programming.Prelude.{
  ℕ, zero, suc, ◌+◌, ◌≤◌, ◌≡◌, refl, sym, ap, ◌∙◌, ◌⊎◌, inl, inr, true, false, List, [], ◌∷◌, arith,
  length, length-append, ltb, ltb→lt, ltb→le, Bool-cases, ◌==◌, ==_iff,
}
use linux_system_programming.BoundedBuffer.{
  max_count, Pc, top, test, wait, woken, acted, leaving, done, Owner, free, producer, consumer,
  State, Move, p_lock, p_block, p_relock, p_put, p_signal, p_unlock, p_return, c_lock, c_block,
  c_relock, c_get, c_signal, c_unlock, c_return, Reach,
}
use linux_system_programming.BoundedBuffer.Invariant.{
  up_to, rounds, inside, is_producer, is_consumer, Inv, Reach-Inv,
}

-- In no reachable state do both threads stand between lock and unlock.
pub mutual_exclusion :
    {loops : ℕ} {s : State} → Reach loops s → inside s.prod ≡ true → ¬ (inside s.cons ≡ true)
mutual_exclusion {s} r p c =
    let v = Reach-Inv r in both s.mutex (sym v.p_mutex ∙ p) (sym v.c_mutex ∙ c)
  where
    both : (o : Owner) → is_producer o ≡ true → is_consumer o ≡ true → ⊥
    both free p c = cc
    both producer p c = cc
    both consumer p c = cc

length-up_to : (n : ℕ) → length (up_to n) ≡ n
length-up_to zero = refl
length-up_to (suc n) = omega (arith, length-append (up_to n) (n ∷ []), length-up_to n)

-- In every reachable state both threads have shown the numbers 0, 1, … in order, with none lost or
-- repeated; the consumer is behind the producer by `count`, at most MAX, and the producer has
-- shown at most `loops`.
pub values_in_order :
    {loops : ℕ} {s : State}
    → Reach loops s
    → (s.produced ≡ up_to (length s.produced))
      × (s.consumed ≡ up_to (length s.consumed))
      × (length s.produced ≡ length s.consumed + s.ring.count)
      × (s.ring.count ≤ max_count)
      × (length s.produced ≤ loops)
values_in_order {loops} {s} r = (
  shown s.produced (rounds s.prod) v.shown_p,
  shown s.consumed (rounds s.cons) v.shown_c,
  omega (arith, lp, lc, v.balance),
  v.holds.fits,
  omega (arith, lp, made),
)
  where
    v : Inv loops s
    v = Reach-Inv r

    shown : (xs : List ℕ) (n : ℕ) → xs ≡ up_to n → xs ≡ up_to (length xs)
    shown xs n e = e ∙ ap up_to (sym (length-up_to n) ∙ ap length (sym e))

    lp : length s.produced ≡ rounds s.prod
    lp = ap length v.shown_p ∙ length-up_to _

    lc : length s.consumed ≡ rounds s.cons
    lc = ap length v.shown_c ∙ length-up_to _

    made : rounds s.prod ≤ loops
    made = ground (arith, v.p_range)

-- When both threads have returned, each has shown all of 0, …, loops - 1, and the ring is empty.
pub all_consumed :
    {loops : ℕ} {s : State} (i j : ℕ)
    → Reach loops s
    → s.prod ≡ done i
    → s.cons ≡ done j
    → (s.produced ≡ up_to loops) × (s.consumed ≡ up_to loops) × (s.ring.count ≡ 0)
all_consumed {loops} {s} i j r p c =
    let v = Reach-Inv r in
    let pl : rounds s.prod ≡ loops = ground (arith, v.p_range) in
    let cl : rounds s.cons ≡ loops = ground (arith, v.c_range) in
    (v.shown_p ∙ ap up_to pl, v.shown_c ∙ ap up_to cl, omega (arith, v.balance))

abbrev pub Live : ℕ → State → Type 0
Live loops s = (t : State) × Move loops s t

abbrev pub Finished : State → Type 0
Finished s = (i : ℕ) × (j : ℕ) × (s.prod ≡ done i) × (s.cons ≡ done j)

module _ {loops : ℕ} (s : State) where
  -- A thread that holds the mutex can go on.
  prod_moves : (p : Pc) → s.prod ≡ p → inside p ≡ true → Live loops s
  prod_moves (test i) e h = elim (Bool-cases (s.ring.count == max_count)) [
    | inl full ↦ (_, p_block i e ((==_iff _ _).0 full))
    | inr room ↦ (_, p_put i e (λ q. grind (arith, room, q)))
  ]
  prod_moves (acted i) e h = (_, p_signal i e)
  prod_moves (leaving i) e h = (_, p_unlock i e)
  prod_moves (top i) e h = cc
  prod_moves (wait i) e h = cc
  prod_moves (woken i) e h = cc
  prod_moves (done i) e h = cc

  cons_moves : (c : Pc) → s.cons ≡ c → inside c ≡ true → Live loops s
  cons_moves (test i) e h = elim (Bool-cases (s.ring.count == 0)) [
    | inl empty ↦ (_, c_block i e ((==_iff _ _).0 empty))
    | inr some ↦ (_, c_get i e (λ q. grind (arith, some, q)))
  ]
  cons_moves (acted i) e h = (_, c_signal i e)
  cons_moves (leaving i) e h = (_, c_unlock i e)
  cons_moves (top i) e h = cc
  cons_moves (wait i) e h = cc
  cons_moves (woken i) e h = cc
  cons_moves (done i) e h = cc

  prod_top : (i : ℕ) → s.prod ≡ top i → s.mutex ≡ free → Live loops s
  prod_top i e f = elim (Bool-cases (ltb i loops)) [
    | inl lt ↦ (_, p_lock i e (ltb→lt i loops lt) f)
    | inr ge ↦ (_, p_return i e (ltb→le i loops ge))
  ]

  cons_top : (i : ℕ) → s.cons ≡ top i → s.mutex ≡ free → Live loops s
  cons_top i e f = elim (Bool-cases (ltb i loops)) [
    | inl lt ↦ (_, c_lock i e (ltb→lt i loops lt) f)
    | inr ge ↦ (_, c_return i e (ltb→le i loops ge))
  ]

  free_of_outside : Inv loops s → inside s.prod ≡ false → inside s.cons ≡ false → s.mutex ≡ free
  free_of_outside v p c = pick s.mutex (sym v.p_mutex ∙ p) (sym v.c_mutex ∙ c)
    where
      pick : (o : Owner) → is_producer o ≡ false → is_consumer o ≡ false → o ≡ free
      pick free p c = refl
      pick producer p c = cc
      pick consumer p c = cc

  -- With the mutex free, one of the two can go on unless both have returned.
  outside_moves :
      (p c : Pc)
      → Inv loops s
      → s.prod ≡ p
      → s.cons ≡ c
      → inside p ≡ false
      → inside c ≡ false
      → s.mutex ≡ free
      → (Finished s ⊎ Live loops s)
  outside_moves (top i) c v ep ec hp hc f = inr (prod_top i ep f)
  outside_moves (woken i) c v ep ec hp hc f = inr (_, p_relock i ep f)
  outside_moves (wait i) (top j) v ep ec hp hc f = inr (cons_top j ec f)
  outside_moves (wait i) (woken j) v ep ec hp hc f = inr (_, c_relock j ec f)
  outside_moves (wait i) (wait j) v ep ec hp hc f = absurd (ground (arith, v.p_asleep, v.c_asleep))
  outside_moves (wait i) (done j) v ep ec hp hc f =
      absurd (ground (arith, v.p_asleep, v.balance, v.p_range, v.c_range))
  outside_moves (done i) (top j) v ep ec hp hc f = inr (cons_top j ec f)
  outside_moves (done i) (woken j) v ep ec hp hc f = inr (_, c_relock j ec f)
  outside_moves (done i) (wait j) v ep ec hp hc f =
      absurd (ground (arith, v.c_asleep, v.balance, v.p_range, v.c_range))
  outside_moves (done i) (done j) v ep ec hp hc f = inl (i, j, ep, ec)
  outside_moves (test i) c v ep ec hp hc f = cc
  outside_moves (acted i) c v ep ec hp hc f = cc
  outside_moves (leaving i) c v ep ec hp hc f = cc
  outside_moves p (test j) v ep ec hp hc f = cc
  outside_moves p (acted j) v ep ec hp hc f = cc
  outside_moves p (leaving j) v ep ec hp hc f = cc

-- From every reachable state a thread can go on without a spurious wake-up, unless both have
-- returned: no wake-up is lost and there is no deadlock.
pub no_deadlock : {loops : ℕ} {s : State} → Reach loops s → (Finished s ⊎ Live loops s)
no_deadlock {s} r = elim (Bool-cases (inside s.prod)) [
  | inl p ↦ inr (prod_moves s s.prod refl p)
  | inr p ↦ elim (Bool-cases (inside s.cons)) [
    | inl c ↦ inr (cons_moves s s.cons refl c)
    | inr c ↦
        let v = Reach-Inv r in
        outside_moves s s.prod s.cons v refl refl p c (free_of_outside s v p c)
  ]
]
