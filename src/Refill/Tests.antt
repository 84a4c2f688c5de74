-- ===== src/Refill/Tests.antt =====
-- Runs of producer_consumer1.c.
use linux_system_programming.Prelude.{
  ℕ, zero, suc, ◌<◌, ◌≡◌, refl, ◌⊎◌, List, [], ◌∷◌, ◌++◌, arith, set, replicate,
}
use linux_system_programming.Refill.{
  bufcap, p_returned, State, init, produce_lock, produce_wait, produce_relock, produce_insert,
  produce_signal, produce_pass, produce_unlock, produce_return, consume_lock, consume_remove,
  consume_signal, consume_unlock, move, produce_spurious, Reach, start, later,
}
use linux_system_programming.Refill.Safety.{refill_no_deadlock, Live}

-- The buffer with 0, …, k - 1 in it, and the lines shown.
abbrev filled : ℕ → List ℕ
filled zero = replicate bufcap 0
filled (suc k) = set (filled k) k k

abbrev lines : ℕ → List ℕ
lines zero = []
lines (suc k) = lines k ++ k ∷ []

-- The producer has inserted `k` items and has not met the consumer.
abbrev after : ℕ → State
after k = record init { buf = filled k; n = k; added = lines k }

after-Reach : (k : ℕ) → k < bufcap → Reach (after k)
after-Reach zero lt = start
after-Reach (suc k) lt =
    later
      (later
        (later (later (after-Reach k (omega (arith, lt))) (move (produce_lock refl refl)))
          (move (produce_insert refl (ground (arith, lt)) refl)))
        (move (produce_pass refl (ground (arith, lt)))))
      (move (produce_unlock refl))

-- The buffer is full and the producer sleeps.
abbrev asleep : (s : State) × Reach s
asleep = (
  _,
  later
      (later
        (later
          (later
            (later (later (after-Reach 19 (omega arith)) (move (produce_lock refl refl)))
              (move (produce_insert refl (ground arith) refl)))
            (move (produce_signal refl refl)))
          (move (produce_unlock refl)))
        (move (produce_lock refl refl)))
      (move (produce_wait refl refl)),
)

-- It wakes three times with no signal.
abbrev roused : (s : State) × Reach s
roused = (
  _,
  later
      (later
        (later
          (later
            (later
              (later
                (later (later asleep.1 (produce_spurious refl)) (move (produce_relock refl refl)))
                (move (produce_wait refl refl)))
              (produce_spurious refl))
            (move (produce_relock refl refl)))
          (move (produce_wait refl refl)))
        (produce_spurious refl))
      (move (produce_relock refl refl)),
)

-- The consumer empties the buffer once, and the producer returns.
abbrev one_fill : (s : State) × Reach s
one_fill = (
  _,
  later
      (later
        (later
          (later
            (later
              (later (later roused.1 (move (produce_wait refl refl)))
                (move (consume_lock refl refl)))
              (move (consume_remove refl (ground arith))))
            (move (consume_signal refl)))
          (move (consume_unlock refl)))
        (move (produce_relock refl refl)))
      (move (produce_return refl (ground arith) refl)),
)

refill_no_deadlock_example : (asleep.0.prod ≡ p_returned) ⊎ Live asleep.0
refill_no_deadlock_example = refill_no_deadlock asleep.1

-- FILLS is 3, but with three spurious wake-ups the producer returns after one fill.
returns_early : (one_fill.0.prod ≡ p_returned) × (one_fill.0.emptied ≡ 1)
returns_early = (refl, refl)
