-- ===== src/Turns.antt =====
-- 05-threading/examples/src/condition.c: two threads count to ten in turns.
pub mod Invariant
pub mod Safety
mod Tests
use linux_system_programming.Prelude.{
  ℕ, zero, suc, ◌+◌, ◌<◌, ◌≡◌, ◌≢◌, Bool, true, false, ◌&&◌, ◌||◌, List, [], ◌∷◌, ◌++◌, ltb, leb,
}

-- COUNT_DONE
abbrev pub count_done : ℕ
count_done = 10

-- COUNT_HALT1
abbrev pub count_halt1 : ℕ
count_halt1 = 3

-- COUNT_HALT2
abbrev pub count_halt2 : ℕ
count_halt2 = 6

-- count >= COUNT_HALT1 && count <= COUNT_HALT2
abbrev pub halted : ℕ → Bool
halted count = leb count_halt1 count && leb count count_halt2

-- The test of the inner `while` of `funcCount2`.
abbrev pub must_wait2 : ℕ → Bool
must_wait2 count = ltb count count_halt1 || (ltb count_halt2 count && ltb count count_done)

-- Where a thread stands; `done` is its local variable.
pub data Pc : Type 0 where
  top : Pc  -- at pthread_mutex_lock
  test : Pc  -- at the test of the inner `while`
  wait : Pc  -- asleep in pthread_cond_wait
  woken : Pc  -- awake in it, without the mutex yet
  leaving : (done : Bool) → Pc  -- at pthread_mutex_unlock
  finishing : Pc  -- at the last pthread_cond_signal of `funcCount1`
  returned : Pc

pub data Owner : Type 0 where
  free one two : Owner

-- `shown1` and `shown2` are the numbers that the lines of the two threads show.
pub record State : Type 0 where
  pub count : ℕ
  pub mutex : Owner
  pub pc1 : Pc
  pub pc2 : Pc
  pub shown1 : List ℕ
  pub shown2 : List ℕ

abbrev pub init : State
init = record { count = 0; mutex = free; pc1 = top; pc2 = top; shown1 = []; shown2 = [] }

-- pthread_cond_signal to the one thread that may wait.
abbrev pub wake : Pc → Pc
wake wait = woken
wake top = top
wake test = test
wake woken = woken
wake (leaving done) = leaving done
wake finishing = finishing
wake returned = returned

-- A step of `funcCount1` or of `funcCount2`.
pub data Move (s : State) : State → Type 0 where
  lock1 : s.pc1 ≡ top → s.mutex ≡ free → Move s (record s { mutex = one; pc1 = test })
  wait1 : s.pc1 ≡ test → halted s.count ≡ true → Move s (record s { mutex = free; pc1 = wait })
  relock1 : s.pc1 ≡ woken → s.mutex ≡ free → Move s (record s { mutex = one; pc1 = test })
  -- `++count`, the two tests, and the signal where `count` is in the range of `funcCount2`.
  signal1 :
      s.pc1 ≡ test
      → halted s.count ≡ false
      → halted (suc s.count) ≡ true
      → Move s (record s {
        count = suc s.count;
        shown1 = s.shown1 ++ s.count ∷ [];
        pc1 = leaving (leb count_done (suc s.count));
        pc2 = wake s.pc2;
      })
  pass1 :
      s.pc1 ≡ test
      → halted s.count ≡ false
      → halted (suc s.count) ≡ false
      → Move s (record s {
        count = suc s.count;
        shown1 = s.shown1 ++ s.count ∷ [];
        pc1 = leaving (leb count_done (suc s.count));
      })
  unlock1 : s.pc1 ≡ leaving false → Move s (record s { mutex = free; pc1 = top })
  finish1 : s.pc1 ≡ leaving true → Move s (record s { mutex = free; pc1 = finishing })
  return1 : s.pc1 ≡ finishing → Move s (record s { pc1 = returned; pc2 = wake s.pc2 })
  lock2 : s.pc2 ≡ top → s.mutex ≡ free → Move s (record s { mutex = two; pc2 = test })
  wait2 : s.pc2 ≡ test → must_wait2 s.count ≡ true → Move s (record s { mutex = free; pc2 = wait })
  relock2 : s.pc2 ≡ woken → s.mutex ≡ free → Move s (record s { mutex = two; pc2 = test })
  -- `return NULL`, with the mutex.
  stop2 :
      s.pc2 ≡ test
      → must_wait2 s.count ≡ false
      → s.count ≡ count_done
      → Move s (record s { pc2 = returned })
  signal2 :
      s.pc2 ≡ test
      → must_wait2 s.count ≡ false
      → s.count ≢ count_done
      → halted (suc s.count) ≡ false
      → Move s (record s {
        count = suc s.count;
        shown2 = s.shown2 ++ s.count ∷ [];
        pc2 = leaving (leb count_done (suc s.count));
        pc1 = wake s.pc1;
      })
  pass2 :
      s.pc2 ≡ test
      → must_wait2 s.count ≡ false
      → s.count ≢ count_done
      → halted (suc s.count) ≡ true
      → Move s (record s {
        count = suc s.count;
        shown2 = s.shown2 ++ s.count ∷ [];
        pc2 = leaving (leb count_done (suc s.count));
      })
  unlock2 : s.pc2 ≡ leaving false → Move s (record s { mutex = free; pc2 = top })
  return2 : s.pc2 ≡ leaving true → Move s (record s { mutex = free; pc2 = returned })

-- pthread_cond_wait may also return with no signal.
pub data Step (s : State) : State → Type 0 where
  move : {t : State} → Move s t → Step s t
  spurious1 : s.pc1 ≡ wait → Step s (record s { pc1 = woken })
  spurious2 : s.pc2 ≡ wait → Step s (record s { pc2 = woken })

pub data Reach : State → Type 0 where
  start : Reach init
  later : {s t : State} → Reach s → Step s t → Reach t
