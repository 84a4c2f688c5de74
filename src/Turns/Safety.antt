-- ===== src/Turns/Safety.antt =====
-- What `funcCount1` and `funcCount2` promise.
use linux_system_programming.Prelude.{
  ℕ, suc, ◌≤◌, ◌≡◌, ◌≢◌, refl, ap, ◌∙◌, ◌⊎◌, inl, inr, true, false, List, [], ◌∷◌, ◌++◌, arith,
  ◌==◌, ==_iff, Bool-cases,
}
use linux_system_programming.Turns.{
  count_done, halted, must_wait2, Pc, top, test, wait, woken, leaving, finishing, returned, Owner,
  free, one, two, State, Move, lock1, wait1, relock1, signal1, pass1, unlock1, finish1, return1,
  lock2, wait2, relock2, stop2, signal2, pass2, unlock2, return2, move, spurious1, spurious2, Reach,
  start, later,
}
use linux_system_programming.Turns.Invariant.{first_numbers, second_numbers, Inv, Reach-Inv}

abbrev pub Shows : State → Type 0
Shows s = (s.shown1 ≡ first_numbers s.count) × (s.shown2 ≡ second_numbers s.count)

first_turn :
    (n : ℕ) {l : List ℕ}
    → halted n ≡ false
    → l ≡ first_numbers n
    → l ++ n ∷ [] ≡ first_numbers (suc n)
first_turn n {l} h e = rw (e, h) refl

first_rests :
    (n : ℕ) {l : List ℕ} → halted n ≡ true → l ≡ first_numbers n → l ≡ first_numbers (suc n)
first_rests n {l} h e = rw (e, h) refl

second_turn :
    (n : ℕ) {l : List ℕ}
    → halted n ≡ true
    → l ≡ second_numbers n
    → l ++ n ∷ [] ≡ second_numbers (suc n)
second_turn n {l} h e = rw (e, h) refl

second_rests :
    (n : ℕ) {l : List ℕ} → halted n ≡ false → l ≡ second_numbers n → l ≡ second_numbers (suc n)
second_rests n {l} h e = rw (e, h) refl

-- The second thread counts only where the first one is halted.
second-halted : (n : ℕ) → n ≤ count_done → must_wait2 n ≡ false → n ≢ count_done → halted n ≡ true
second-halted n le h q = ground arith

Move-Shows : {s t : State} → Move s t → Inv s → Shows s → Shows t
Move-Shows {s} (lock1 e f) v w = (w.0, w.1)
Move-Shows {s} (wait1 e h) v w = (w.0, w.1)
Move-Shows {s} (relock1 e f) v w = (w.0, w.1)
Move-Shows {s} (signal1 e h h') v w = (first_turn s.count h w.0, second_rests s.count h w.1)
Move-Shows {s} (pass1 e h h') v w = (first_turn s.count h w.0, second_rests s.count h w.1)
Move-Shows {s} (unlock1 e) v w = (w.0, w.1)
Move-Shows {s} (finish1 e) v w = (w.0, w.1)
Move-Shows {s} (return1 e) v w = (w.0, w.1)
Move-Shows {s} (lock2 e f) v w = (w.0, w.1)
Move-Shows {s} (wait2 e h) v w = (w.0, w.1)
Move-Shows {s} (relock2 e f) v w = (w.0, w.1)
Move-Shows {s} (stop2 e h q) v w = (w.0, w.1)
Move-Shows {s} (signal2 e h q h') v w =
    let turn = second-halted s.count v.below h q in
    (first_rests s.count turn w.0, second_turn s.count turn w.1)
Move-Shows {s} (pass2 e h q h') v w =
    let turn = second-halted s.count v.below h q in
    (first_rests s.count turn w.0, second_turn s.count turn w.1)
Move-Shows {s} (unlock2 e) v w = (w.0, w.1)
Move-Shows {s} (return2 e) v w = (w.0, w.1)

Reach-Shows : {s : State} → Reach s → Shows s
Reach-Shows start = (refl, refl)
Reach-Shows (later r (move m)) = Move-Shows m (Reach-Inv r) (Reach-Shows r)
Reach-Shows (later r (spurious1 e)) = let w = Reach-Shows r in (w.0, w.1)
Reach-Shows (later r (spurious2 e)) = let w = Reach-Shows r in (w.0, w.1)

-- When both threads have returned, the first one has shown 0, 1, 2, 7, 8, 9 and the second one
-- 3, 4, 5, 6, both in order, `count` is 10, and the second thread still has the mutex.
pub turns_over :
    {s : State}
    → Reach s
    → s.pc1 ≡ returned
    → s.pc2 ≡ returned
    → (s.count ≡ count_done)
      × (s.shown1 ≡ 0 ∷ 1 ∷ 2 ∷ 7 ∷ 8 ∷ 9 ∷ [])
      × (s.shown2 ≡ 3 ∷ 4 ∷ 5 ∷ 6 ∷ [])
      × (s.mutex ≡ two)
turns_over {s} r e1 e2 =
    let v = Reach-Inv r in
    let w = Reach-Shows r in
    let ten : s.count ≡ count_done = ground (arith, v.turn1) in
    let own : s.mutex ≡ two = ground (arith, v.mutex2) in
    (ten, w.0 ∙ ap first_numbers ten, w.1 ∙ ap second_numbers ten, own)

abbrev pub Live : State → Type 0
Live s = (t : State) × Move s t

abbrev pub Over : State → Type 0
Over s = (s.pc1 ≡ returned) × (s.pc2 ≡ returned)

module _ (s : State) (v : Inv s) where
  -- With the mutex, or once it needs it no more, the first thread can go on.
  first_moves : (p : Pc) → s.pc1 ≡ p → s.mutex ≡ one → Live s
  first_moves top e f = absurd (ground (arith, v.mutex1))
  first_moves test e f = elim (Bool-cases (halted s.count)) [
    | inl h ↦ (_, wait1 e h)
    | inr h ↦ elim (Bool-cases (halted (suc s.count))) [
      | inl h' ↦ (_, signal1 e h h')
      | inr h' ↦ (_, pass1 e h h')
    ]
  ]
  first_moves wait e f = absurd (ground (arith, v.mutex1))
  first_moves woken e f = absurd (ground (arith, v.mutex1))
  first_moves (leaving true) e f = (_, finish1 e)
  first_moves (leaving false) e f = (_, unlock1 e)
  first_moves finishing e f = (_, return1 e)
  first_moves returned e f = absurd (ground (arith, v.mutex1))

  -- At count_done the first thread is on its way out.
  first_ends : (p : Pc) → s.pc1 ≡ p → s.count ≡ count_done → (p ≡ returned) ⊎ Live s
  first_ends top e f = absurd (ground (arith, v.turn1))
  first_ends test e f = absurd (ground (arith, v.turn1))
  first_ends wait e f = absurd (ground (arith, v.turn1))
  first_ends woken e f = absurd (ground (arith, v.turn1))
  first_ends (leaving true) e f = inr (_, finish1 e)
  first_ends (leaving false) e f = absurd (ground (arith, v.turn1))
  first_ends finishing e f = inr (_, return1 e)
  first_ends returned e f = inl refl

  second_moves : (p : Pc) → s.pc2 ≡ p → s.mutex ≡ two → Over s ⊎ Live s
  second_moves top e f = absurd (ground (arith, v.mutex2))
  second_moves test e f = elim (Bool-cases (must_wait2 s.count)) [
    | inl h ↦ inr (_, wait2 e h)
    | inr h ↦ elim (Bool-cases (s.count == count_done)) [
      | inl q ↦ inr (_, stop2 e h ((==_iff _ _).0 q))
      | inr q ↦ elim (Bool-cases (halted (suc s.count))) [
        | inl h' ↦ inr (_, pass2 e h (λ p. grind (arith, q, p)) h')
        | inr h' ↦ inr (_, signal2 e h (λ p. grind (arith, q, p)) h')
      ]
    ]
  ]
  second_moves wait e f = absurd (ground (arith, v.mutex2))
  second_moves woken e f = absurd (ground (arith, v.mutex2))
  second_moves (leaving true) e f = inr (_, return2 e)
  second_moves (leaving false) e f = inr (_, unlock2 e)
  second_moves finishing e f = absurd (ground (arith, v.mutex2))
  second_moves returned e f = elim (first_ends s.pc1 refl (ground (arith, v.turn2))) [
    | inl q ↦ inl (q, e)
    | inr l ↦ inr l
  ]

  -- The second thread can go on if the mutex is free and the first one sleeps or has returned.
  second_turns :
      (p : Pc) → s.pc2 ≡ p → s.mutex ≡ free → (s.pc1 ≡ wait) ⊎ (s.pc1 ≡ returned) → Live s
  second_turns top e f g = (_, lock2 e f)
  second_turns test e f g = absurd (ground (arith, v.mutex2))
  second_turns wait e f (inl g) = absurd (ground (arith, v.turn1, v.turn2))
  second_turns wait e f (inr g) = absurd (ground (arith, v.turn1, v.turn2))
  second_turns woken e f g = (_, relock2 e f)
  second_turns (leaving d) e f g = absurd (ground (arith, v.mutex2))
  second_turns finishing e f g = absurd (ground (arith, v.turn2))
  second_turns returned e f g = absurd (ground (arith, v.mutex2))

  free_moves : (p : Pc) → s.pc1 ≡ p → s.mutex ≡ free → Live s
  free_moves top e f = (_, lock1 e f)
  free_moves test e f = absurd (ground (arith, v.mutex1))
  free_moves wait e f = second_turns s.pc2 refl f (inl e)
  free_moves woken e f = (_, relock1 e f)
  free_moves (leaving d) e f = absurd (ground (arith, v.mutex1))
  free_moves finishing e f = (_, return1 e)
  free_moves returned e f = second_turns s.pc2 refl f (inr e)

  owner_moves : (o : Owner) → s.mutex ≡ o → Over s ⊎ Live s
  owner_moves free e = inr (free_moves s.pc1 refl e)
  owner_moves one e = inr (first_moves s.pc1 refl e)
  owner_moves two e = second_moves s.pc2 refl e

-- From every reachable state one of the two threads can go on without a spurious wake-up, until
-- both have returned.
pub turns_no_deadlock : {s : State} → Reach s → Over s ⊎ Live s
turns_no_deadlock {s} r = owner_moves s (Reach-Inv r) s.mutex refl
