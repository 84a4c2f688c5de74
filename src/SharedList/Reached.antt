-- ===== src/SharedList/Reached.antt =====
-- Every state that the two threads reach has the invariant.
use linux_system_programming.Prelude.{refl, [], ◌∷◌, arith}
use linux_system_programming.Heap.Chain.{nil}
use linux_system_programming.SharedList.{
  Shared, Pos, State, Runs, allocates, malloc_fails, sem_wait, links, heads, tails, counts,
  sem_post, exits, first, second, Reach, begin, then_move,
}
use linux_system_programming.SharedList.Free.{Cells}
use linux_system_programming.SharedList.Invariant.{Inv}
use linux_system_programming.SharedList.Push.{
  allocates-Inv, malloc_fails-Inv, exits-Inv, sem_wait-Inv, links-Inv, heads-Inv, tails-Inv,
  counts-Inv, sem_post-Inv,
}

-- A statement of the first thread.
Runs-Inv :
    {s s' : Shared} {p p' q : Pos} {xs : Cells}
    → Runs s p s' p'
    → Inv s xs p q
    → (xs' : Cells) × Inv s' xs' p' q
Runs-Inv {s} {s'} {p} {p'} {q} {xs} (allocates i tmp junk lt place unused) v =
    (xs, allocates-Inv s xs q i tmp junk lt place unused v)
Runs-Inv {s} {s'} {p} {p'} {q} {xs} (malloc_fails i lt) v = (xs, malloc_fails-Inv s xs q i lt v)
Runs-Inv {s} {s'} {p} {p'} {q} {xs} (sem_wait i tmp k e) v = (xs, sem_wait-Inv s xs q i tmp k e v)
Runs-Inv {s} {s'} {p} {p'} {q} {xs} (links i tmp h e) v = (xs, links-Inv s xs q i tmp h e v)
Runs-Inv {s} {s'} {p} {p'} {q} {xs} (heads i tmp) v =
    ((tmp, record { element = i; next = s.head }) ∷ xs, heads-Inv s xs q i tmp v)
Runs-Inv {s} {s'} {p} {p'} {q} {xs} (tails i tmp) v = (xs, tails-Inv s xs q i tmp v)
Runs-Inv {s} {s'} {p} {p'} {q} {xs} (counts i) v = (xs, counts-Inv s xs q i v)
Runs-Inv {s} {s'} {p} {p'} {q} {xs} (sem_post i) v = (xs, sem_post-Inv s xs q i v)
Runs-Inv {s} {s'} {p} {p'} {q} {xs} (exits i ge) v = (xs, exits-Inv s xs q i ge v)

Inv-swap : {s : Shared} {xs : Cells} {p q : Pos} → Inv s xs p q → Inv s xs q p
Inv-swap {s} {xs} {p} {q} v = record {
  chain = v.chain;
  one_inside = omega (arith, v.one_inside);
  size = omega (arith, v.size);
  tail = v.tail;
  at_p = v.at_q;
  at_q = v.at_p;
  not_both = λ a o. ground (arith, o, v.not_both a);
  no_leak = λ a e o1 o2. v.no_leak a e o2 o1;
  all = omega (arith, v.all);
  each = λ k. omega (arith, v.each k);
}

pub Reach-Inv : {s : State} → Reach s → (xs : Cells) × Inv s.shared xs s.t1 s.t2
Reach-Inv begin = (
  [],
  record {
    chain = nil;
    one_inside = refl;
    size = refl;
    tail = λ pos. refl;
    at_p = omega arith;
    at_q = omega arith;
    not_both = λ a o. cc;
    no_leak = λ a e o1 o2. refl;
    all = refl;
    each = λ k. ground arith;
  },
)
Reach-Inv (then_move r (first runs)) = Runs-Inv runs (Reach-Inv r).1
Reach-Inv (then_move r (second runs)) =
    let (xs, v) = Runs-Inv runs (Inv-swap (Reach-Inv r).1) in (xs, Inv-swap v)
