-- ===== src/Refill/Safety.antt =====
-- What `produce` and `consume` promise: exclusive access, no lost item, no deadlock.
use linux_system_programming.Prelude.{
  ℕ, suc, ◌+◌, ◌*◌, ◌<◌, ◌≤◌, ◌≡◌, refl, sym, ◌∙◌, ◌⊎◌, inl, inr, true, false, some, arith, ◌==◌,
  ==_iff, ltb, ltb→lt, length, get_elem?, set, get_elem?-set, Bool-cases,
}
use linux_system_programming.Refill.{
  bufcap, fills, Producer, p_top, p_test, p_wait, p_woken, p_inserted, p_leaving, p_returned,
  Consumer, c_top, c_test, c_wait, c_woken, c_removed, c_leaving, Owner, free, producer, consumer,
  State, Move, produce_lock, produce_wait, produce_relock, produce_insert, produce_signal,
  produce_pass, produce_unlock, produce_return, consume_lock, consume_wait, consume_relock,
  consume_remove, consume_signal, consume_unlock, move, produce_spurious, consume_spurious, Reach,
  start, later,
}
use linux_system_programming.Refill.Invariant.{
  p_inside, c_inside, is_producer, is_consumer, Inv, Reach-Inv,
}

-- `produce` and `consume` are never both between lock and unlock.
pub refill_exclusive : {s : State} → Reach s → p_inside s.prod ≡ true → ¬ (c_inside s.cons ≡ true)
refill_exclusive {s} r p c =
    let v = Reach-Inv r in both s.mutex (sym v.p_mutex ∙ p) (sym v.c_mutex ∙ c)
  where
    both : (o : Owner) → is_producer o ≡ true → is_consumer o ≡ true → ⊥
    both free p c = cc
    both producer p c = cc
    both consumer p c = cc

-- The items behind `n` hold nothing that matters; those before it hold their index.
abbrev Indexed : State → Type 0
Indexed s = (j : ℕ) → j < s.n → get_elem? s.buf j ≡ some j

insert-Indexed :
    (s : State)
    → s.n < length s.buf
    → Indexed s
    → (j : ℕ) → j < suc s.n
    → get_elem? (set s.buf s.n s.n) j ≡ some j
insert-Indexed s room h j lt = elim (Bool-cases (s.n == j)) [
  | inl q ↦ grind (arith, q, get_elem?-set s.buf s.n j s.n room)
  | inr q ↦
      let below : j < s.n = grind (arith, q, lt) in
      grind (arith, q, get_elem?-set s.buf s.n j s.n room, h j below)
]

Move-Indexed : {s t : State} → Move s t → Inv s → Indexed s → Indexed t
Move-Indexed {s} (produce_insert e room go) v h =
    insert-Indexed s (ground (arith, v.fits, v.size)) h
Move-Indexed (consume_remove e full) v h = λ j lt. ground arith
Move-Indexed (produce_lock e f) v h = h
Move-Indexed (produce_wait e full) v h = h
Move-Indexed (produce_relock e f) v h = h
Move-Indexed (produce_signal e full) v h = h
Move-Indexed (produce_pass e room) v h = h
Move-Indexed (produce_unlock e) v h = h
Move-Indexed (produce_return e room d) v h = h
Move-Indexed (consume_lock e f) v h = h
Move-Indexed (consume_wait e room) v h = h
Move-Indexed (consume_relock e f) v h = h
Move-Indexed (consume_signal e) v h = h
Move-Indexed (consume_unlock e) v h = h

Reach-Indexed : {s : State} → Reach s → Indexed s
Reach-Indexed start = λ j lt. ground arith
Reach-Indexed (later r (move m)) = Move-Indexed m (Reach-Inv r) (Reach-Indexed r)
Reach-Indexed (later r (produce_spurious e)) = Reach-Indexed r
Reach-Indexed (later r (consume_spurious e)) = Reach-Indexed r

-- In every reachable state `n` is at most BUFCAP, so that `insert_one` writes in `buf`, each slot
-- below `n` holds its index, and the items added are those removed and the `n` that are left.
pub slots_filled :
    {s : State} (j : ℕ)
    → Reach s
    → j < s.n
    → (s.n ≤ bufcap) × (get_elem? s.buf j ≡ some j) × (length s.added ≡ length s.removed + s.n)
slots_filled j r lt =
    let v = Reach-Inv r in (v.fits, Reach-Indexed r j lt, omega (arith, v.sums, v.takes))

-- When `produce` has returned, the buffer is empty, the items were removed BUFCAP at a time, as
-- many as were added, and `consume` has emptied the buffer FILLS times, less the times that
-- pthread_cond_wait returned with no signal, or more often.
pub produce_returns :
    {s : State}
    → Reach s
    → s.prod ≡ p_returned
    → (s.n ≡ 0)
      × (length s.removed ≡ bufcap * s.emptied)
      × (length s.added ≡ length s.removed)
      × (fills ≤ s.emptied + s.spurious)
produce_returns r e = let v = Reach-Inv r in ground (arith, v.settled, v.takes, v.sums, v.wakes)

abbrev pub Live : State → Type 0
Live s = (t : State) × Move s t

module _ (s : State) where
  -- The producer goes on while it holds the mutex.
  p_moves : (p : Producer) → s.prod ≡ p → p_inside p ≡ true → Live s
  p_moves p_test e h = elim (Bool-cases (s.n == bufcap)) [
    | inl full ↦ (_, produce_wait e ((==_iff _ _).0 full))
    | inr room ↦ elim (Bool-cases s.done) [
      | inl d ↦ (_, produce_return e (λ q. grind (arith, room, q)) d)
      | inr d ↦ (_, produce_insert e (λ q. grind (arith, room, q)) d)
    ]
  ]
  p_moves p_inserted e h = elim (Bool-cases (s.n == bufcap)) [
    | inl full ↦ (_, produce_signal e ((==_iff _ _).0 full))
    | inr room ↦ (_, produce_pass e (λ q. grind (arith, room, q)))
  ]
  p_moves p_leaving e h = (_, produce_unlock e)
  p_moves p_top e h = cc
  p_moves p_wait e h = cc
  p_moves p_woken e h = cc
  p_moves p_returned e h = cc

  -- The consumer goes on while it holds the mutex.
  c_moves : (c : Consumer) → s.cons ≡ c → c_inside c ≡ true → Live s
  c_moves c_test e h = elim (Bool-cases (ltb s.n bufcap)) [
    | inl lt ↦ (_, consume_wait e (ltb→lt _ _ lt))
    | inr full ↦ (_, consume_remove e (λ q. ground (arith, full, q)))
  ]
  c_moves c_removed e h = (_, consume_signal e)
  c_moves c_leaving e h = (_, consume_unlock e)
  c_moves c_top e h = cc
  c_moves c_wait e h = cc
  c_moves c_woken e h = cc

  mutex_free : Inv s → p_inside s.prod ≡ false → c_inside s.cons ≡ false → s.mutex ≡ free
  mutex_free v p c = pick s.mutex (sym v.p_mutex ∙ p) (sym v.c_mutex ∙ c)
    where
      pick : (o : Owner) → is_producer o ≡ false → is_consumer o ≡ false → o ≡ free
      pick free p c = refl
      pick producer p c = cc
      pick consumer p c = cc

  -- With the mutex free one of the two goes on, unless the producer has returned.
  both_outside :
      (p : Producer) (c : Consumer)
      → Inv s
      → s.prod ≡ p
      → s.cons ≡ c
      → p_inside p ≡ false
      → c_inside c ≡ false
      → s.mutex ≡ free
      → ((s.prod ≡ p_returned) ⊎ Live s)
  both_outside p_top c v ep ec hp hc f = inr (_, produce_lock ep f)
  both_outside p_woken c v ep ec hp hc f = inr (_, produce_relock ep f)
  both_outside p_returned c v ep ec hp hc f = inl ep
  both_outside p_wait c_top v ep ec hp hc f = inr (_, consume_lock ec f)
  both_outside p_wait c_woken v ep ec hp hc f = inr (_, consume_relock ec f)
  both_outside p_wait c_wait v ep ec hp hc f = absurd (ground (arith, v.p_asleep, v.c_asleep))
  both_outside p_wait c_test v ep ec hp hc f = cc
  both_outside p_wait c_removed v ep ec hp hc f = cc
  both_outside p_wait c_leaving v ep ec hp hc f = cc
  both_outside p_test c v ep ec hp hc f = cc
  both_outside p_inserted c v ep ec hp hc f = cc
  both_outside p_leaving c v ep ec hp hc f = cc

-- From every reachable state `produce` or `consume` can go on without a spurious wake-up, until
-- `produce` has returned: no wake-up is lost.
pub refill_no_deadlock : {s : State} → Reach s → ((s.prod ≡ p_returned) ⊎ Live s)
refill_no_deadlock {s} r = elim (Bool-cases (p_inside s.prod)) [
  | inl p ↦ inr (p_moves s s.prod refl p)
  | inr p ↦ elim (Bool-cases (c_inside s.cons)) [
    | inl c ↦ inr (c_moves s s.cons refl c)
    | inr c ↦
        let v = Reach-Inv r in both_outside s s.prod s.cons v refl refl p c (mutex_free s v p c)
  ]
]
