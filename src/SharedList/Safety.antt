-- ===== src/SharedList/Safety.antt =====
-- What the two threads leave, and that neither is stuck.
use linux_system_programming.Prelude.{
  ◌++◌, ℕ, zero, suc, ◌+◌, ◌-◌, ◌*◌, ◌≤◌, ◌<◌, ◌≡◌, refl, ap, ◌∙◌, ◌⊎◌, inl, inr, Bool-cases, none,
  some, List, [], ◌∷◌, arith, ltb, length,
}
use linux_system_programming.Heap.{Ptr, null, Heap, ok}
use linux_system_programming.Heap.Chain.{Chain, nil, cons, has, eq_of_nil}
use linux_system_programming.SharedList.{
  Node, Shared, Pos, top, waiting, linking, heading, tailing, counting, posting, ended, State,
  rounds, Runs, allocates, malloc_fails, sem_wait, links, heads, tails, counts, sem_post, exits,
  Move, first, second, Reach, print_and_free,
}
use linux_system_programming.SharedList.Free.{Cells, elements, print_and_free-elements}
use linux_system_programming.SharedList.Bag.{bag, indices, bag_of_twice}
use linux_system_programming.SharedList.Invariant.{inside, last_ptr, PosInv, Inv}
use linux_system_programming.SharedList.Keep.{set_next-ok}
use linux_system_programming.SharedList.Reached.{Reach-Inv}

length-elements : (xs : Cells) → length (elements xs) ≡ length xs
length-elements [] = refl
length-elements (x ∷ xs) = ap suc (length-elements xs)

-- The node at `tail` is the last one.
abbrev pub IsLast : Shared → Type 0
IsLast s = (n : Node) × (s.heap s.tail ≡ some n) × (n.next ≡ null)

last_ptr-next :
    {h : Heap Node} {p : Ptr} {xs : Cells}
    → Chain Node.next h p xs
    → 0 < length xs
    → (n : Node) × (h (last_ptr xs) ≡ some n) × (n.next ≡ null)
last_ptr-next nil pos = absurd (omega (arith, pos))
last_ptr-next (cons {n} {xs = []} ne e out c) pos = (n, e, eq_of_nil c)
last_ptr-next (cons {xs = x ∷ xs} ne e out c) pos = last_ptr-next c (omega arith)

-- When both threads have ended, however they were scheduled, `main` prints `size` elements, here by
-- their indices in A, and frees every node; as bags, those printed and those that malloc has refused
-- a node for are together the five indices twice; and `tail` is the last node where there is one. Ten
-- rounds and one more are enough for both loops.
pub print_and_free-all :
    (s : State) (fuel : ℕ)
    → Reach s
    → s.t1 ≡ ended
    → s.t2 ≡ ended
    → 2 * rounds < fuel
    → (l : List ℕ) × (g : Heap Node) × (print_and_free fuel s.shared ≡ ok l g)
      × ((a : Ptr) → g a ≡ none)
      × (length l ≡ s.shared.size)
      × (0 < s.shared.size → IsLast s.shared)
      × (bag (l ++ s.shared.failed) ≡ bag (indices ++ indices))
print_and_free-all s fuel r e1 e2 enough =
    let (xs, v) = Reach-Inv r in
    let short : length xs < fuel = ground (arith, e1, e2, v.all, enough) in
    let size : length xs ≡ s.shared.size = ground (arith, e1, e2, v.size) in
    let (g, runs, gone) = print_and_free-elements fuel s.shared xs v.chain short in
    (
      elements xs,
      g,
      runs,
      λ a. elim (Bool-cases (has a xs)) [
        | inl h ↦ ground (arith, h, gone a)
        | inr h ↦ ground (arith, gone a, h, v.no_leak a h (rw e1 refl) (rw e2 refl))
      ],
      length-elements xs ∙ size,
      λ pos.
          let (n, there, ends) = last_ptr-next v.chain (omega (arith, size, pos)) in
          (n, ap s.shared.heap (v.tail pos) ∙ there, ends),
      bag_of_twice (elements xs) s.shared.failed (λ k. ground (arith, e1, e2, v.each k)),
    )

abbrev left_at : Pos → ℕ
left_at (top i) = 8 * (5 - i) + 1
left_at (waiting i tmp) = 8 * (4 - i) + 8
left_at (linking i tmp) = 8 * (4 - i) + 7
left_at (heading i tmp) = 8 * (4 - i) + 6
left_at (tailing i tmp) = 8 * (4 - i) + 5
left_at (counting i) = 8 * (4 - i) + 4
left_at (posting i) = 8 * (4 - i) + 3
left_at ended = 0

-- The statements that are left, at most.
abbrev pub left : State → ℕ
left s = left_at s.t1 + left_at s.t2

Runs-left : {s s' : Shared} {p p' : Pos} → Runs s p s' p' → left_at p' < left_at p
Runs-left (allocates i tmp junk lt place unused) = omega (arith, lt)
Runs-left (malloc_fails i lt) = omega (arith, lt)
Runs-left (sem_wait i tmp k e) = omega arith
Runs-left (links i tmp h e) = omega arith
Runs-left (heads i tmp) = omega arith
Runs-left (tails i tmp) = omega arith
Runs-left (counts i) = omega arith
Runs-left (sem_post i) = omega arith
Runs-left (exits i ge) = omega arith

Move-left : {s s' : State} → Move s s' → left s' < left s
Move-left (first runs) = omega (arith, Runs-left runs)
Move-left (second runs) = omega (arith, Runs-left runs)

-- A statement that the thread can run, or it waits for the semaphore, or has ended.
abbrev Next : Shared → Pos → Type 0
Next s p =
    ((s' : Shared) × (p' : Pos) × Runs s p s' p') ⊎ ((p ≡ ended) ⊎ ((inside p ≡ 0) × (s.sem ≡ 0)))

next : (s : Shared) (xs : Cells) (p : Pos) → PosInv s xs p → Next s p
next s xs (top i) v = elim (Bool-cases (ltb i rounds)) [
  | inl lt ↦ inl (_, _, malloc_fails i (ground (arith, lt)))
  | inr ge ↦ inl (_, _, exits i (λ lt. ground (arith, ge, lt)))
]
next s xs (waiting i tmp) v = at_sem s.sem refl
  where
    at_sem : (k : ℕ) → s.sem ≡ k → Next s (waiting i tmp)
    at_sem zero e = inr (inr (refl, e))
    at_sem (suc k) e = inl (_, _, sem_wait i tmp k e)
next s xs (linking i tmp) (lt, n, m) =
    inl (_, _, links i tmp _ (set_next-ok s.heap xs i tmp n s.head m))
next s xs (heading i tmp) v = inl (_, _, heads i tmp)
next s xs (tailing i tmp) v = inl (_, _, tails i tmp)
next s xs (counting i) v = inl (_, _, counts i)
next s xs (posting i) v = inl (_, _, sem_post i)
next s xs ended v = inr (inl refl)

both_next :
    (s : State) (xs : Cells)
    → Inv s.shared xs s.t1 s.t2
    → Next s.shared s.t1
    → Next s.shared s.t2
    → ((s.t1 ≡ ended) × (s.t2 ≡ ended)) ⊎ ((s' : State) × Move s s')
both_next s xs v (inl (s', p', r)) n2 = inr (_, first r)
both_next s xs v (inr n1) (inl (s', p', r)) = inr (_, second r)
both_next s xs v (inr (inl e1)) (inr (inl e2)) = inl (e1, e2)
both_next s xs v (inr (inl e1)) (inr (inr w2)) =
    absurd (omega (arith, v.one_inside, w2, ap inside e1))
both_next s xs v (inr (inr w1)) (inr (inl e2)) =
    absurd (omega (arith, v.one_inside, w1, ap inside e2))
both_next s xs v (inr (inr w1)) (inr (inr w2)) = absurd (omega (arith, v.one_inside, w1, w2))

-- In every reachable state at most one thread is between sem_wait and sem_post; unless both have
-- ended, one of them can go on; and each statement brings them nearer to their end.
pub push_no_deadlock :
    (s : State)
    → Reach s
    → (inside s.t1 + inside s.t2 ≤ 1)
      × (((s.t1 ≡ ended) × (s.t2 ≡ ended)) ⊎ ((s' : State) × Move s s'))
      × ((s' : State) → Move s s' → left s' < left s)
push_no_deadlock s r =
    let (xs, v) = Reach-Inv r in
    (
      omega (arith, v.one_inside),
      both_next s xs v (next s.shared xs s.t1 v.at_p) (next s.shared xs s.t2 v.at_q),
      λ s' m. Move-left m,
    )
