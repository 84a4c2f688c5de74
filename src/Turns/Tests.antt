-- ===== src/Turns/Tests.antt =====
-- A run of 05-threading/examples/src/condition.c.
use linux_system_programming.Prelude.{ℕ, ◌≡◌, ◌≢◌, refl, true, arith, ltb, ◌⊎◌, [], ◌∷◌}
use linux_system_programming.Turns.{
  count_done, two, State, lock1, signal1, pass1, unlock1, finish1, return1, lock2, stop2, signal2,
  pass2, unlock2, move, Reach, start, later,
}
use linux_system_programming.Turns.Safety.{turns_over, Over, Live, turns_no_deadlock}

below_ten : (n : ℕ) → ltb n count_done ≡ true → n ≢ count_done
below_ten n lt e = ground (arith, lt, e)

abbrev shown_0 : (s : State) × Reach s
shown_0 = (
  _,
  later (later (later start (move (lock1 refl refl))) (move (pass1 refl refl refl)))
      (move (unlock1 refl)),
)

abbrev shown_1 : (s : State) × Reach s
shown_1 = (
  _,
  later (later (later shown_0.1 (move (lock1 refl refl))) (move (pass1 refl refl refl)))
      (move (unlock1 refl)),
)

-- The first thread hands over.
abbrev shown_2 : (s : State) × Reach s
shown_2 = (
  _,
  later (later (later shown_1.1 (move (lock1 refl refl))) (move (signal1 refl refl refl)))
      (move (unlock1 refl)),
)

abbrev shown_3 : (s : State) × Reach s
shown_3 = (
  _,
  later
      (later (later shown_2.1 (move (lock2 refl refl)))
        (move (pass2 refl refl (below_ten _ refl) refl)))
      (move (unlock2 refl)),
)

abbrev shown_4 : (s : State) × Reach s
shown_4 = (
  _,
  later
      (later (later shown_3.1 (move (lock2 refl refl)))
        (move (pass2 refl refl (below_ten _ refl) refl)))
      (move (unlock2 refl)),
)

abbrev shown_5 : (s : State) × Reach s
shown_5 = (
  _,
  later
      (later (later shown_4.1 (move (lock2 refl refl)))
        (move (pass2 refl refl (below_ten _ refl) refl)))
      (move (unlock2 refl)),
)

abbrev shown_6 : (s : State) × Reach s
shown_6 = (
  _,
  later
      (later (later shown_5.1 (move (lock2 refl refl)))
        (move (signal2 refl refl (below_ten _ refl) refl)))
      (move (unlock2 refl)),
)

abbrev shown_7 : (s : State) × Reach s
shown_7 = (
  _,
  later (later (later shown_6.1 (move (lock1 refl refl))) (move (pass1 refl refl refl)))
      (move (unlock1 refl)),
)

abbrev shown_8 : (s : State) × Reach s
shown_8 = (
  _,
  later (later (later shown_7.1 (move (lock1 refl refl))) (move (pass1 refl refl refl)))
      (move (unlock1 refl)),
)

abbrev shown_9 : (s : State) × Reach s
shown_9 = (
  _,
  later (later (later shown_8.1 (move (lock1 refl refl))) (move (pass1 refl refl refl)))
      (move (finish1 refl)),
)

abbrev both_returned : (s : State) × Reach s
both_returned = (
  _,
  later (later (later shown_9.1 (move (return1 refl))) (move (lock2 refl refl)))
      (move (stop2 refl refl refl)),
)

turns_over_example :
    (both_returned.0.count ≡ count_done)
    × (both_returned.0.shown1 ≡ 0 ∷ 1 ∷ 2 ∷ 7 ∷ 8 ∷ 9 ∷ [])
    × (both_returned.0.shown2 ≡ 3 ∷ 4 ∷ 5 ∷ 6 ∷ [])
    × (both_returned.0.mutex ≡ two)
turns_over_example = turns_over both_returned.1 refl refl

turns_no_deadlock_example : Over shown_2.0 ⊎ Live shown_2.0
turns_no_deadlock_example = turns_no_deadlock shown_2.1
