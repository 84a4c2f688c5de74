-- ===== src/Hogwarts/Safety.antt =====
-- What the program promises, and what it does not.
use linux_system_programming.Prelude.{
  ℕ, ◌+◌, ◌-◌, ◌≤◌, ◌≡◌, inl, inr, Bool, true, false, some, arith, ◌==◌, leb, ◌&&◌, if◌then◌else◌,
  Bool-cases, get_elem?,
}
use linux_system_programming.Hogwarts.{
  Elf, idle, got, inside, took, counted, leaving, working, cancelled, Dobby, waits, checks, posts,
  releases, cancels, returned, State, Reach,
}
use linux_system_programming.Hogwarts.Weights.{
  total, wants, holds, touches, carries, le-total, le-total_two, uncounted, tests,
}
use linux_system_programming.Hogwarts.Invariant.{Phase, Quiet, Reach-Inv}
use linux_system_programming.Hogwarts.Tasks.{count, to_post, Reach-Kept}

-- In no reachable state has an elf found the list empty: `take_task` never exits the program.
pub never_exits : {tasks : ℕ} {s : State} → Reach tasks s → s.exited ≡ false
never_exits r = (Reach-Inv r).alive

-- No two elves are between lock and unlock of the mutex.
pub elves_exclusive :
    {tasks : ℕ} {s : State} (i j : ℕ) (e f : Elf)
    → Reach tasks s
    → get_elem? s.elves i ≡ some e
    → get_elem? s.elves j ≡ some f
    → holds e ≡ 1
    → holds f ≡ 1
    → i ≡ j
elves_exclusive {s} i j e f r at_i at_j he hf = elim (Bool-cases (i == j)) [
  | inl q ↦ ground arith
  | inr q ↦ absurd (
      ground (
        arith,
        (Reach-Inv r).locked,
        le-total_two holds s.elves i j e f (λ p. grind (arith, q, p)) at_i at_j,
      ))
]

-- Dobby works on the list and on `active_tasks` outside the mutex.
abbrev pub awake : Dobby → Bool
awake checks = true
awake (posts k n) = true
awake waits = false
awake (releases k) = false
awake (cancels i) = false
awake returned = false

awake-Quiet : (s : State) (d : Dobby) → awake d ≡ true → Phase s d → (n : ℕ) × Quiet s n
awake-Quiet s checks h p = (0, p)
awake-Quiet s (posts k n) h p = (n - k, p.0)
awake-Quiet s waits h p = cc
awake-Quiet s (releases k) h p = cc
awake-Quiet s (cancels i) h p = cc
awake-Quiet s returned h p = cc

touches-le : (e : Elf) → touches e ≤ wants e + uncounted e + tests e
touches-le idle = omega arith
touches-le got = omega arith
touches-le inside = omega arith
touches-le (took id) = omega arith
touches-le (counted id) = omega arith
touches-le (leaving id) = omega arith
touches-le (working id) = omega arith
touches-le cancelled = omega arith

-- While Dobby checks the total or posts tasks, which it does without the mutex, no elf is at the
-- list or at `active_tasks`.
pub dobby_alone :
    {tasks : ℕ} {s : State} (i : ℕ) (e : Elf)
    → Reach tasks s
    → awake s.dobby ≡ true
    → get_elem? s.elves i ≡ some e
    → touches e ≡ 0
dobby_alone {s} i e r a at =
    let (n, q) = awake-Quiet s s.dobby a (Reach-Inv r).phase in
    omega (
      arith,
      touches-le e,
      le-total wants s.elves i e at,
      le-total uncounted s.elves i e at,
      le-total tests s.elves i e at,
      q.none_wants,
      q.none_uncounted,
      q.none_tests,
    )

-- Every task is accounted for: the tasks not yet posted and those posted add up to the argument
-- of the program, and a posted task is, once, in the list, with an elf, completed, or lost with
-- an elf that was cancelled; so no task is done twice.
pub tasks_kept :
    {tasks : ℕ} {s : State} (k : ℕ)
    → Reach tasks s
    → (s.total_tasks + to_post s.dobby + s.task_id_counter ≡ tasks)
      × (count k s.list + total (carries k) s.elves + count k s.completed + count k s.lost
          ≡ (if leb 1 k && leb k s.task_id_counter then 1 else 0))
tasks_kept k r = let kept = Reach-Kept r in (kept.sum, kept.place k)
