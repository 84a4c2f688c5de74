-- ===== src/Hogwarts/Invariant.antt =====
-- What holds in every reachable state of Dobby and the elves.
use linux_system_programming.Prelude.{
  ℕ, ◌+◌, ◌-◌, ◌<◌, ◌≤◌, ◌≡◌, refl, false, arith, ◌==◌, if◌then◌else◌, length,
}
use linux_system_programming.Hogwarts.{
  idle, got, inside, took, counted, leaving, working, cancelled, Dobby, waits, checks, posts,
  releases, cancels, returned, State, init, Step, d_wait, d_batch, d_post, d_posted, d_release,
  d_again, d_finish, d_cancel_idle, d_cancel_working, d_return, e_wait, e_lock, e_take,
  e_take_empty, e_count, e_wake, e_pass, e_unlock, e_work, Reach, start, later,
}
use linux_system_programming.Hogwarts.Weights.{total, wants, holds, uncounted, tests, moved}

-- While a batch is out, with `k` of its tasks not released: a task lies in the list for each
-- token and for each elf past the semaphore; `active_tasks` counts the tasks not counted off; and
-- exactly one of these is pending: the signal to Dobby, the elf that will send it, or a task.
pub record Batch (s : State) (k : ℕ) : Type 0 where
  pub listed : length s.list ≡ s.full_list + total wants s.elves + k
  pub active : s.active_tasks ≡ length s.list + total uncounted s.elves
  pub pending : s.empty_list + (if s.active_tasks == 0 then total tests s.elves else 1) ≡ 1

-- While Dobby is awake: no token, no elf at the shared variables, and `n` tasks in the list.
pub record Quiet (s : State) (n : ℕ) : Type 0 where
  pub listed : length s.list ≡ n
  pub active : s.active_tasks ≡ 0
  pub no_tokens : s.full_list ≡ 0
  pub no_signal : s.empty_list ≡ 0
  pub none_wants : total wants s.elves ≡ 0
  pub none_uncounted : total uncounted s.elves ≡ 0
  pub none_tests : total tests s.elves ≡ 0

abbrev pub Phase : State → Dobby → Type 0
Phase s waits = Batch s 0
Phase s (releases k) = Batch s k
Phase s checks = Quiet s 0
Phase s (posts k n) = Quiet s (n - k) × (k ≤ n) × (0 < n)
Phase s (cancels i) = Quiet s 0
Phase s returned = Quiet s 0

pub record Inv (s : State) : Type 0 where
  pub locked : total holds s.elves ≡ (if s.mutex then 1 else 0)
  pub alive : s.exited ≡ false
  pub phase : Phase s s.dobby

pub Inv-init : (tasks : ℕ) → Inv (init tasks)
unfolding total
Inv-init tasks = record {
  locked = refl;
  alive = refl;
  phase = record { listed = refl; active = refl; pending = refl };
}

pub Step-Inv : {s t : State} → Step s t → Inv s → Inv t
Step-Inv (d_wait e h) v = ground arith
Step-Inv (d_batch e h) v = ground arith
Step-Inv (d_post k n e) v = ground arith
Step-Inv (d_posted n e) v = ground arith
Step-Inv (d_release k e) v = ground arith
Step-Inv (d_again e) v = ground arith
Step-Inv (d_finish e h) v = ground arith
Step-Inv {s} (d_cancel_idle i e h) v = ground (arith, moved s.elves i idle cancelled h)
Step-Inv {s} (d_cancel_working i id e h) v =
    ground (arith, moved s.elves i (working id) cancelled h)
Step-Inv (d_return e) v = ground arith
Step-Inv {s} (e_wait i h tok) v = ground (arith, moved s.elves i idle got h)
Step-Inv {s} (e_lock i h f) v = ground (arith, moved s.elves i got inside h)
Step-Inv {s} (e_take i id rest h l) v = ground (arith, moved s.elves i inside (took id) h)
Step-Inv {s} (e_take_empty i h l) v = ground (arith, moved s.elves i inside inside h)
Step-Inv {s} (e_count i id h) v = ground (arith, moved s.elves i (took id) (counted id) h)
Step-Inv {s} (e_wake i id h z) v = ground (arith, moved s.elves i (counted id) (leaving id) h)
Step-Inv {s} (e_pass i id h nz) v = ground (arith, moved s.elves i (counted id) (leaving id) h)
Step-Inv {s} (e_unlock i id h) v = ground (arith, moved s.elves i (leaving id) (working id) h)
Step-Inv {s} (e_work i id h) v = ground (arith, moved s.elves i (working id) idle h)

pub Reach-Inv : {tasks : ℕ} {s : State} → Reach tasks s → Inv s
Reach-Inv {tasks} start = Inv-init tasks
Reach-Inv (later r st) = Step-Inv st (Reach-Inv r)
