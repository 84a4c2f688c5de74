-- ===== src/Hogwarts/Tasks.antt =====
-- Where the tasks are: each one that was posted is in one place.
use linux_system_programming.Prelude.{
  ℕ, ◌+◌, ◌≡◌, List, [], ◌∷◌, arith, ◌==◌, leb, ◌&&◌, if◌then◌else◌,
}
use linux_system_programming.Hogwarts.{
  idle, got, inside, took, counted, leaving, working, cancelled, Dobby, waits, checks, posts,
  releases, cancels, returned, State, init, Step, d_wait, d_batch, d_post, d_posted, d_release,
  d_again, d_finish, d_cancel_idle, d_cancel_working, d_return, e_wait, e_lock, e_take,
  e_take_empty, e_count, e_wake, e_pass, e_unlock, e_work, Reach, start, later,
}
use linux_system_programming.Hogwarts.Weights.{total, carries, total-set}

-- How often `k` stands in a list.
abbrev pub count : ℕ → List ℕ → ℕ
count k [] = 0
count k (x ∷ xs) = (if k == x then 1 else 0) + count k xs

-- Tasks of the batch that Dobby has yet to post.
abbrev pub to_post : Dobby → ℕ
to_post (posts k n) = k
to_post waits = 0
to_post checks = 0
to_post (releases k) = 0
to_post (cancels i) = 0
to_post returned = 0

-- The task with id `k` has been posted.
abbrev pub posted : ℕ → ℕ → ℕ
posted k counter = if leb 1 k && leb k counter then 1 else 0

pub record Kept (tasks : ℕ) (s : State) : Type 0 where
  pub sum : s.total_tasks + to_post s.dobby + s.task_id_counter ≡ tasks
  pub place :
      (k : ℕ)
      → count k s.list + total (carries k) s.elves + count k s.completed + count k s.lost
        ≡ posted k s.task_id_counter

Kept-init : (tasks : ℕ) → Kept tasks (init tasks)
unfolding total
Kept-init tasks = record { sum = omega arith; place = λ k. ground arith }

-- A step that moves one elf and leaves the ids where they are in all.
Step-Kept : {tasks : ℕ} {s t : State} → Step s t → Kept tasks s → Kept tasks t
Step-Kept (d_wait e h) v = record { sum = ground (arith, v.sum); place = v.place }
Step-Kept (d_batch e h) v = record { sum = ground (arith, v.sum); place = v.place }
Step-Kept (d_post k n e) v = record {
  sum = ground (arith, v.sum);
  place = λ j. ground (arith, v.place j);
}
Step-Kept (d_posted n e) v = record { sum = ground (arith, v.sum); place = v.place }
Step-Kept (d_release k e) v = record { sum = ground (arith, v.sum); place = v.place }
Step-Kept (d_again e) v = record { sum = ground (arith, v.sum); place = v.place }
Step-Kept (d_finish e h) v = record { sum = ground (arith, v.sum); place = v.place }
Step-Kept {s} (d_cancel_idle i e h) v = record {
  sum = ground (arith, v.sum);
  place = λ k. ground (arith, v.place k, total-set (carries k) s.elves i idle cancelled h);
}
Step-Kept {s} (d_cancel_working i id e h) v = record {
  sum = ground (arith, v.sum);
  place = λ k. ground (arith, v.place k, total-set (carries k) s.elves i (working id) cancelled h);
}
Step-Kept (d_return e) v = record { sum = ground (arith, v.sum); place = v.place }
Step-Kept {s} (e_wait i h tok) v = record {
  sum = v.sum;
  place = λ k. ground (arith, v.place k, total-set (carries k) s.elves i idle got h);
}
Step-Kept {s} (e_lock i h f) v = record {
  sum = v.sum;
  place = λ k. ground (arith, v.place k, total-set (carries k) s.elves i got inside h);
}
Step-Kept {s} (e_take i id rest h l) v = record {
  sum = v.sum;
  place = λ k. ground (arith, v.place k, total-set (carries k) s.elves i inside (took id) h);
}
Step-Kept (e_take_empty i h l) v = record { sum = v.sum; place = v.place }
Step-Kept {s} (e_count i id h) v = record {
  sum = v.sum;
  place = λ k. ground (arith, v.place k, total-set (carries k) s.elves i (took id) (counted id) h);
}
Step-Kept {s} (e_wake i id h z) v = record {
  sum = v.sum;
  place =
      λ k. ground (arith, v.place k, total-set (carries k) s.elves i (counted id) (leaving id) h);
}
Step-Kept {s} (e_pass i id h nz) v = record {
  sum = v.sum;
  place =
      λ k. ground (arith, v.place k, total-set (carries k) s.elves i (counted id) (leaving id) h);
}
Step-Kept {s} (e_unlock i id h) v = record {
  sum = v.sum;
  place =
      λ k. ground (arith, v.place k, total-set (carries k) s.elves i (leaving id) (working id) h);
}
Step-Kept {s} (e_work i id h) v = record {
  sum = v.sum;
  place = λ k. ground (arith, v.place k, total-set (carries k) s.elves i (working id) idle h);
}

pub Reach-Kept : {tasks : ℕ} {s : State} → Reach tasks s → Kept tasks s
Reach-Kept {tasks} start = Kept-init tasks
Reach-Kept (later r st) = Step-Kept st (Reach-Kept r)
