-- ===== src/Hogwarts/Tests.antt =====
-- hogwarts.c with one task.
use linux_system_programming.Prelude.{◌+◌, ◌≡◌, refl, ◌⊎◌, false, [], ◌∷◌, arith}
use linux_system_programming.Hogwarts.{
  returned, State, d_wait, d_batch, d_post, d_posted, d_release, d_again, d_finish, d_cancel_idle,
  d_cancel_working, d_return, e_wait, e_lock, e_take, e_count, e_wake, e_unlock, Reach, start,
  later,
}
use linux_system_programming.Hogwarts.Weights.{total, carries}
use linux_system_programming.Hogwarts.Tasks.{count, to_post}
use linux_system_programming.Hogwarts.Safety.{never_exits, tasks_kept}
use linux_system_programming.Hogwarts.Progress.{Live, hogwarts_no_deadlock}

abbrev Run : Type 0
Run = (s : State) × Reach 1 s

-- Dobby is awake and about to post.
abbrev awake_run : Run
awake_run = (_, later (later start (d_wait refl (omega arith))) (d_batch refl (omega arith)))

-- The task is released.
abbrev released : Run
released = (
  _,
  later (later (later (later awake_run.1 (d_post 0 1 refl)) (d_posted 1 refl)) (d_release 0 refl))
      (d_again refl),
)

-- Elf 0 is at `take_task`.
abbrev entered : Run
entered = (_, later (later released.1 (e_wait 0 refl (omega arith))) (e_lock 0 refl refl))

-- Elf 0 has the task, and has woken Dobby.
abbrev taken : Run
taken = (
  _,
  later
      (later (later (later entered.1 (e_take 0 1 [] refl refl)) (e_count 0 1 refl))
        (e_wake 0 1 refl refl))
      (e_unlock 0 1 refl),
)

-- Dobby, woken by the elf that took the last task, cancels that elf before the task is done: the
-- program ends with no task completed.
last_task_lost :
    (s : State) × Reach 1 s × (s.dobby ≡ returned) × (s.completed ≡ []) × (s.lost ≡ 1 ∷ [])
last_task_lost = (
  _,
  later
      (later
        (later
          (later
            (later
              (later (later (later taken.1 (d_wait refl (omega arith))) (d_finish refl refl))
                (d_cancel_working 0 1 refl refl))
              (d_cancel_idle 1 refl refl))
            (d_cancel_idle 2 refl refl))
          (d_cancel_idle 3 refl refl))
        (d_cancel_idle 4 refl refl))
      (d_return refl),
  refl,
  refl,
  refl,
)

never_exits_example : taken.0.exited ≡ false
never_exits_example = never_exits taken.1

tasks_kept_example :
    (taken.0.total_tasks + to_post taken.0.dobby + taken.0.task_id_counter ≡ 1)
    × (count 1 taken.0.list
          + total (carries 1) taken.0.elves
          + count 1 taken.0.completed
          + count 1 taken.0.lost
        ≡ 1)
tasks_kept_example = tasks_kept 1 taken.1

hogwarts_no_deadlock_example : (taken.0.dobby ≡ returned) ⊎ Live taken.0
hogwarts_no_deadlock_example = hogwarts_no_deadlock taken.1
