-- ===== src/WatchCount/Tests.antt =====
-- Runs of 05-threading/class/condition.c.
use linux_system_programming.Prelude.{ℕ, zero, suc, ◌≤◌, ◌≡◌, refl, ◌⊎◌, arith}
use linux_system_programming.WatchCount.{
  tcount, top, State, init, lock1, bump1, unlock1, exit1, lock2, reach2, bump2, unlock2, exit2,
  watch_lock, watch_leave, move, Reach, start, later,
}
use linux_system_programming.WatchCount.Safety.{final_count, Over, Live, count_no_deadlock}

-- The first thread has counted `k` times.
abbrev first_counted : ℕ → State
first_counted k = record init { count = k; inc1 = top k }

first_counted-Reach : (k : ℕ) → k ≤ tcount → Reach (first_counted k)
first_counted-Reach zero le = start
first_counted-Reach (suc k) le =
    later
      (later
        (later (first_counted-Reach k (omega (arith, le)))
          (move (lock1 k refl (omega (arith, le)) refl)))
        (move (bump1 k refl (λ e. omega (arith, le, e)))))
      (move (unlock1 k refl))

-- Then the second one has counted to the limit.
abbrev limit_reached : (s : State) × Reach s
limit_reached = (
  _,
  later
      (later
        (later
          (later
            (later
              (later (first_counted-Reach 10 (omega arith))
                (move (lock2 0 refl (omega arith) refl)))
              (move (bump2 0 refl (λ e. omega (arith, e)))))
            (move (unlock2 0 refl)))
          (move (lock2 1 refl (omega arith) refl)))
        (move (reach2 1 refl refl)))
      (move (unlock2 1 refl)),
)

abbrev twelve_and : ℕ → ℕ
twelve_and k = suc (suc (suc (suc (suc (suc (suc (suc (suc (suc (suc (suc k)))))))))))

-- From there, to the twentieth increment.
abbrev counted : ℕ → State
counted k = record init { count = twelve_and k; inc1 = top 10; inc2 = top (suc (suc k)) }

counted-Reach : (k : ℕ) → k ≤ 8 → Reach (counted k)
counted-Reach zero le = limit_reached.1
counted-Reach (suc k) le =
    later
      (later
        (later (counted-Reach k (omega (arith, le)))
          (move (lock2 (suc (suc k)) refl (omega (arith, le)) refl)))
        (move (bump2 (suc (suc k)) refl (λ e. omega (arith, e)))))
      (move (unlock2 (suc (suc k)) refl))

-- `watch_count` comes last, and does not wait.
abbrev ended : (s : State) × Reach s
ended = (
  _,
  later
      (later
        (later
          (later (counted-Reach 8 (omega arith)) (move (exit1 10 refl (λ lt. omega (arith, lt)))))
          (move (exit2 10 refl (λ lt. omega (arith, lt)))))
        (move (watch_lock refl refl)))
      (move (watch_leave refl (λ lt. omega (arith, lt)))),
)

final_count_example :
    ((ended.0.waits ≡ 0) × (ended.0.count ≡ 20)) ⊎ ((ended.0.waits ≡ 1) × (ended.0.count ≡ 145))
final_count_example = final_count ended.1 refl refl refl

count_no_deadlock_example : Over limit_reached.0 ⊎ Live limit_reached.0
count_no_deadlock_example = count_no_deadlock limit_reached.1
