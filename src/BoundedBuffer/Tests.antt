-- ===== src/BoundedBuffer/Tests.antt =====
-- producer_consumer2.c with one round for each thread.
use linux_system_programming.Prelude.{◌+◌, ◌≤◌, ◌≡◌, refl, ◌⊎◌, [], arith, length}
use linux_system_programming.BoundedBuffer.{
  max_count, init_ring, put, get, State, p_lock, p_put, p_signal, p_unlock, p_return, c_lock, c_get,
  c_signal, c_unlock, c_return, move, Reach, start, later,
}
use linux_system_programming.BoundedBuffer.Invariant.{up_to}
use linux_system_programming.BoundedBuffer.Queue.{init_ring-Holds}
use linux_system_programming.BoundedBuffer.Refine.{Channel, Shows, Follows, Step-Follows}
use linux_system_programming.BoundedBuffer.Safety.{values_in_order, Finished, Live, no_deadlock}

-- The producer has the mutex.
abbrev locked : (s : State) × Reach 1 s
locked = (_, later start (move (p_lock 0 refl (omega arith) refl)))

-- The producer has put its one value.
abbrev one_put : (s : State) × Reach 1 s
one_put = (_, later locked.1 (move (p_put 0 refl (omega arith))))

abbrev producer_left : (s : State) × Reach 1 s
producer_left = (
  _,
  later (later (later one_put.1 (move (p_signal 0 refl))) (move (p_unlock 0 refl)))
      (move (p_return 1 refl (omega arith))),
)

unfoldable one_got : (s : State) × Reach 1 s
unfolding put get
one_got = (
  _,
  later (later producer_left.1 (move (c_lock 0 refl (omega arith) refl)))
      (move (c_get 0 refl (omega arith))),
)

unfoldable finished : (s : State) × Reach 1 s
unfolding one_got
finished = (
  _,
  later (later (later one_got.1 (move (c_signal 0 refl))) (move (c_unlock 0 refl)))
      (move (c_return 1 refl (omega arith))),
)

-- The ring goes round: ten values in, one out, one in.
goes_round : (get (put (get (put (put init_ring 1) 2)).1 3)).0 ≡ 2
unfolding put get
goes_round = refl

values_in_order_example :
    (one_put.0.produced ≡ up_to 1)
    × (one_put.0.consumed ≡ up_to 0)
    × (length one_put.0.produced ≡ length one_put.0.consumed + one_put.0.ring.count)
    × (one_put.0.ring.count ≤ max_count)
    × (length one_put.0.produced ≤ 1)
unfolding put
values_in_order_example = values_in_order one_put.1

no_deadlock_example : Finished one_put.0 ⊎ Live 1 one_put.0
no_deadlock_example = no_deadlock one_put.1

abbrev empty_channel : Channel
empty_channel = record { queue = []; sent = []; received = [] }

locked_Shows : Shows locked.0 empty_channel
locked_Shows = record { holds = init_ring-Holds; sent = refl; received = refl }

Step-Follows_example : Follows one_put.0 empty_channel
Step-Follows_example = Step-Follows {loops = 1} locked_Shows (move (p_put 0 refl (omega arith)))
