-- ===== src/SharedList/Tests.antt =====
-- Runs of 05-threading/class/linkedlist.c.
use linux_system_programming.Prelude.{
  ◌++◌, ℕ, ◌+◌, ◌≤◌, ◌<◌, ◌≡◌, refl, ◌⊎◌, none, List, [], ◌∷◌, arith, length,
}
use linux_system_programming.Heap.{Ptr, Heap, write, load, store, ok}
use linux_system_programming.SharedList.{
  Node, ended, State, set_next, allocates, malloc_fails, sem_wait, links, heads, tails, counts,
  sem_post, exits, Move, first, second, Reach, begin, then_move, print_and_free,
}
use linux_system_programming.SharedList.Bag.{bag, indices}
use linux_system_programming.SharedList.Invariant.{inside}
use linux_system_programming.SharedList.Safety.{IsLast, left, print_and_free-all, push_no_deadlock}

-- The first thread has pushed its element 0, at address 7.
abbrev pushed : (s : State) × Reach s
unfolding write set_next load store
pushed = (
  _,
  then_move
      (then_move
        (then_move
          (then_move
            (then_move
              (then_move
                (then_move begin
                  (first (allocates 0 7 99 (omega arith) (λ e. omega (arith, e)) refl)))
                (first (sem_wait 0 7 0 refl)))
              (first (links 0 7 _ refl)))
            (first (heads 0 7)))
          (first (tails 0 7)))
        (first (counts 0)))
      (first (sem_post 0)),
)

-- For its other elements malloc returns NULL.
abbrev first_ended : (s : State) × Reach s
unfolding pushed
first_ended = (
  _,
  then_move
      (then_move
        (then_move
          (then_move (then_move pushed.1 (first (malloc_fails 1 (omega arith))))
            (first (malloc_fails 2 (omega arith))))
          (first (malloc_fails 3 (omega arith))))
        (first (malloc_fails 4 (omega arith))))
      (first (exits 5 (λ lt. omega (arith, lt)))),
)

-- And so for the second thread.
abbrev both_ended : (s : State) × Reach s
unfolding first_ended pushed
both_ended = (
  _,
  then_move
      (then_move
        (then_move
          (then_move
            (then_move (then_move first_ended.1 (second (malloc_fails 0 (omega arith))))
              (second (malloc_fails 1 (omega arith))))
            (second (malloc_fails 2 (omega arith))))
          (second (malloc_fails 3 (omega arith))))
        (second (malloc_fails 4 (omega arith))))
      (second (exits 5 (λ lt. omega (arith, lt)))),
)

print_and_free-all_example :
    (l : List ℕ) × (g : Heap Node) × (print_and_free 11 both_ended.0.shared ≡ ok l g)
    × ((a : Ptr) → g a ≡ none)
    × (length l ≡ 1)
    × (0 < both_ended.0.shared.size → IsLast both_ended.0.shared)
    × (bag (l ++ (4 ∷ 3 ∷ 2 ∷ 1 ∷ 0 ∷ 4 ∷ 3 ∷ 2 ∷ 1 ∷ [])) ≡ bag (indices ++ indices))
unfolding both_ended
print_and_free-all_example = print_and_free-all both_ended.0 11 both_ended.1 refl refl (omega arith)

push_no_deadlock_example :
    (inside pushed.0.t1 + inside pushed.0.t2 ≤ 1)
    × (((pushed.0.t1 ≡ ended) × (pushed.0.t2 ≡ ended)) ⊎ ((s' : State) × Move pushed.0 s'))
    × ((s' : State) → Move pushed.0 s' → left s' < left pushed.0)
push_no_deadlock_example = push_no_deadlock pushed.0 pushed.1
