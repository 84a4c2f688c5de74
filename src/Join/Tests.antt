-- ===== src/Join/Tests.antt =====
-- Runs of 05-threading/examples/src/join.c with two threads.
use linux_system_programming.Prelude.{ℕ, ◌<◌, ◌≡◌, refl, ◌⊎◌, arith}
use linux_system_programming.Join.{
  printed, State, locks, reads, writes, unlocks, Move, works, creates, all_created, joins, prints,
  Reach, begin, then_move,
}
use linux_system_programming.Join.Safety.{left, prints-numthreads, join_no_deadlock}

-- Both are created, and the first one has read x.
abbrev first_has_read : (s : State) × Reach 2 s
first_has_read = (
  _,
  then_move
      (then_move
        (then_move (then_move begin (creates 0 refl (omega arith))) (creates 1 refl (omega arith)))
        (works 0 refl locks))
      (works 0 refl reads),
)

abbrev both_returned : (s : State) × Reach 2 s
both_returned = (
  _,
  then_move
      (then_move
        (then_move
          (then_move
            (then_move (then_move first_has_read.1 (works 0 refl (writes 0)))
              (works 0 refl unlocks))
            (works 1 refl locks))
          (works 1 refl reads))
        (works 1 refl (writes 1)))
      (works 1 refl unlocks),
)

abbrev has_printed : (s : State) × Reach 2 s
has_printed = (
  _,
  then_move
      (then_move
        (then_move (then_move both_returned.1 (all_created 2 refl (λ lt. omega (arith, lt))))
          (joins 0 refl (omega arith) refl))
        (joins 1 refl (omega arith) refl))
      (prints 2 refl (λ lt. omega (arith, lt))),
)

prints-numthreads_example : ◌≡◌ {A = ℕ} 2 2 × (has_printed.0.x ≡ 2)
prints-numthreads_example = prints-numthreads 2 2 has_printed.0 has_printed.1 refl

join_no_deadlock_example :
    (((v : ℕ) × (first_has_read.0.main ≡ printed v)) ⊎ ((s' : State) × Move 2 first_has_read.0 s'))
    × ((s' : State) → Move 2 first_has_read.0 s' → left 2 s' < left 2 first_has_read.0)
join_no_deadlock_example = join_no_deadlock 2 first_has_read.0 first_has_read.1
