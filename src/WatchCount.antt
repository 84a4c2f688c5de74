-- ===== src/WatchCount.antt =====
-- 05-threading/class/condition.c: two threads count, and a third one waits for a limit.
pub mod Safety
mod Tests
use linux_system_programming.Prelude.{ℕ, zero, suc, ◌+◌, ◌<◌, ◌≡◌, ◌≢◌}

-- TCOUNT
abbrev pub tcount : ℕ
tcount = 10

-- COUNT_LIMIT
abbrev pub count_limit : ℕ
count_limit = 12

-- Where a thread of `inc_count` stands, with its `i`.
pub data Inc : Type 0 where
  top : (i : ℕ) → Inc  -- the test of the `for`
  inside : (i : ℕ) → Inc  -- at `++count`
  leaving : (i : ℕ) → Inc  -- at pthread_mutex_unlock
  inc_exit : Inc

-- Where the thread of `watch_count` stands.
pub data Watch : Type 0 where
  begins : Watch  -- at pthread_mutex_lock
  tests : Watch  -- at the test of the `while`
  sleeps : Watch  -- in pthread_cond_wait
  woken : Watch  -- awake in it, without the mutex yet
  watch_exit : Watch

pub data Owner : Type 0 where
  free watcher first second : Owner

-- `waits` is how often pthread_cond_wait has returned.
pub record State : Type 0 where
  pub count : ℕ
  pub mutex : Owner
  pub watch : Watch
  pub inc1 : Inc
  pub inc2 : Inc
  pub waits : ℕ

-- `main`, once the threads are started.
abbrev pub init : State
init = record { count = 0; mutex = free; watch = begins; inc1 = top 0; inc2 = top 0; waits = 0 }

-- pthread_cond_signal
abbrev pub wake : Watch → Watch
wake sleeps = woken
wake begins = begins
wake tests = tests
wake woken = woken
wake watch_exit = watch_exit

pub data Move (s : State) : State → Type 0 where
  lock1 :
      (i : ℕ)
      → s.inc1 ≡ top i
      → i < tcount
      → s.mutex ≡ free
      → Move s (record s { mutex = first; inc1 = inside i })
  reach1 :
      (i : ℕ)
      → s.inc1 ≡ inside i
      → suc s.count ≡ count_limit
      → Move s (record s { count = suc s.count; inc1 = leaving i; watch = wake s.watch })
  bump1 :
      (i : ℕ)
      → s.inc1 ≡ inside i
      → suc s.count ≢ count_limit
      → Move s (record s { count = suc s.count; inc1 = leaving i })
  unlock1 : (i : ℕ) → s.inc1 ≡ leaving i → Move s (record s { mutex = free; inc1 = top (suc i) })
  exit1 : (i : ℕ) → s.inc1 ≡ top i → ¬ (i < tcount) → Move s (record s { inc1 = inc_exit })
  lock2 :
      (i : ℕ)
      → s.inc2 ≡ top i
      → i < tcount
      → s.mutex ≡ free
      → Move s (record s { mutex = second; inc2 = inside i })
  reach2 :
      (i : ℕ)
      → s.inc2 ≡ inside i
      → suc s.count ≡ count_limit
      → Move s (record s { count = suc s.count; inc2 = leaving i; watch = wake s.watch })
  bump2 :
      (i : ℕ)
      → s.inc2 ≡ inside i
      → suc s.count ≢ count_limit
      → Move s (record s { count = suc s.count; inc2 = leaving i })
  unlock2 : (i : ℕ) → s.inc2 ≡ leaving i → Move s (record s { mutex = free; inc2 = top (suc i) })
  exit2 : (i : ℕ) → s.inc2 ≡ top i → ¬ (i < tcount) → Move s (record s { inc2 = inc_exit })
  watch_lock :
      s.watch ≡ begins → s.mutex ≡ free → Move s (record s { mutex = watcher; watch = tests })
  watch_wait :
      s.watch ≡ tests → s.count < count_limit → Move s (record s { mutex = free; watch = sleeps })
  -- pthread_cond_wait returns, and `count += 125;`
  watch_relock :
      s.watch ≡ woken
      → s.mutex ≡ free
      → Move s
          (record s { mutex = watcher; watch = tests; count = s.count + 125; waits = suc s.waits })
  watch_leave :
      s.watch ≡ tests
      → ¬ (s.count < count_limit)
      → Move s (record s { mutex = free; watch = watch_exit })

-- pthread_cond_wait may also return with no signal.
pub data Step (s : State) : State → Type 0 where
  move : {t : State} → Move s t → Step s t
  spurious : s.watch ≡ sleeps → Step s (record s { watch = woken })

pub data Reach : State → Type 0 where
  start : Reach init
  later : {s t : State} → Reach s → Step s t → Reach t
