-- ===== src/Refill.antt =====
-- 05-threading/examples/src/producer_consumer1.c: `produce` fills the buffer, one item under each
-- lock, and `consume` empties it, with one mutex and two condition variables.
pub mod Invariant
pub mod Safety
mod Tests
use linux_system_programming.Prelude.{
  ℕ, zero, suc, ◌<◌, ◌≡◌, ◌≢◌, Bool, true, false, List, [], ◌∷◌, ◌++◌, ◌==◌, if◌then◌else◌, set,
  replicate,
}

-- BUFCAP
abbrev pub bufcap : ℕ
bufcap = 20

-- FILLS
abbrev pub fills : ℕ
fills = 3

-- Where the producer stands.
pub data Producer : Type 0 where
  p_top : Producer  -- at pthread_mutex_lock
  p_test : Producer  -- at the test of the inner `while`
  p_wait : Producer  -- asleep in pthread_cond_wait
  p_woken : Producer  -- awake in it, without the mutex yet
  p_inserted : Producer  -- behind insert_one
  p_leaving : Producer  -- at pthread_mutex_unlock
  p_returned : Producer

-- Where the consumer stands.
pub data Consumer : Type 0 where
  c_top : Consumer
  c_test : Consumer
  c_wait : Consumer
  c_woken : Consumer
  c_removed : Consumer  -- behind remove_all
  c_leaving : Consumer

pub data Owner : Type 0 where
  free producer consumer : Owner

-- The globals, the locals `i` and `done` of `produce`, where the threads stand, and what was done:
-- the numbers of the lines "adding at: %d" and "n: %d", how often `remove_all` was called, and how
-- often the producer's pthread_cond_wait returned with no signal.
pub record State : Type 0 where
  pub buf : List ℕ
  pub n : ℕ
  pub i : ℕ
  pub done : Bool
  pub mutex : Owner
  pub prod : Producer
  pub cons : Consumer
  pub added : List ℕ
  pub removed : List ℕ
  pub emptied : ℕ
  pub spurious : ℕ

-- The start of `main`.
abbrev pub init : State
init = record {
  buf = replicate bufcap 0;
  n = 0;
  i = 0;
  done = false;
  mutex = free;
  prod = p_top;
  cons = c_top;
  added = [];
  removed = [];
  emptied = 0;
  spurious = 0;
}

-- The numbers that `remove_all` shows: n, n - 1, …, 1.
unfoldable pub remove_all : ℕ → List ℕ
remove_all zero = []
remove_all (suc n) = suc n ∷ remove_all n

-- pthread_cond_signal(&empty_cond)
abbrev pub wake_producer : Producer → Producer
wake_producer p_wait = p_woken
wake_producer p_top = p_top
wake_producer p_test = p_test
wake_producer p_woken = p_woken
wake_producer p_inserted = p_inserted
wake_producer p_leaving = p_leaving
wake_producer p_returned = p_returned

-- pthread_cond_signal(&full_cond)
abbrev pub wake_consumer : Consumer → Consumer
wake_consumer c_wait = c_woken
wake_consumer c_top = c_top
wake_consumer c_test = c_test
wake_consumer c_woken = c_woken
wake_consumer c_removed = c_removed
wake_consumer c_leaving = c_leaving

-- A step of `produce` or of `consume`. What a thread does with the mutex and with no call of
-- pthreads in between is one step.
pub data Move (s : State) : State → Type 0 where
  produce_lock :
      s.prod ≡ p_top → s.mutex ≡ free → Move s (record s { mutex = producer; prod = p_test })
  produce_wait : s.prod ≡ p_test → s.n ≡ bufcap → Move s (record s { mutex = free; prod = p_wait })
  -- pthread_cond_wait returns, and `if(++i == FILLS) done = 1;`
  produce_relock :
      s.prod ≡ p_woken
      → s.mutex ≡ free
      → Move s (record s {
        mutex = producer;
        prod = p_test;
        i = suc s.i;
        done = if suc s.i == fills then true else s.done;
      })
  produce_insert :
      s.prod ≡ p_test
      → s.n ≢ bufcap
      → s.done ≡ false
      → Move s (record s {
        buf = set s.buf s.n s.n;
        n = suc s.n;
        prod = p_inserted;
        added = s.added ++ s.n ∷ [];
      })
  produce_signal :
      s.prod ≡ p_inserted
      → s.n ≡ bufcap
      → Move s (record s { prod = p_leaving; cons = wake_consumer s.cons })
  produce_pass : s.prod ≡ p_inserted → s.n ≢ bufcap → Move s (record s { prod = p_leaving })
  produce_unlock : s.prod ≡ p_leaving → Move s (record s { mutex = free; prod = p_top })
  produce_return :
      s.prod ≡ p_test
      → s.n ≢ bufcap
      → s.done ≡ true
      → Move s (record s { mutex = free; prod = p_returned })
  consume_lock :
      s.cons ≡ c_top → s.mutex ≡ free → Move s (record s { mutex = consumer; cons = c_test })
  consume_wait : s.cons ≡ c_test → s.n < bufcap → Move s (record s { mutex = free; cons = c_wait })
  consume_relock :
      s.cons ≡ c_woken → s.mutex ≡ free → Move s (record s { mutex = consumer; cons = c_test })
  consume_remove :
      s.cons ≡ c_test
      → ¬ (s.n < bufcap)
      → Move s (record s {
        n = 0;
        cons = c_removed;
        removed = s.removed ++ remove_all s.n;
        emptied = suc s.emptied;
      })
  consume_signal :
      s.cons ≡ c_removed → Move s (record s { cons = c_leaving; prod = wake_producer s.prod })
  consume_unlock : s.cons ≡ c_leaving → Move s (record s { mutex = free; cons = c_top })

-- pthread_cond_wait may also return with no signal.
pub data Step (s : State) : State → Type 0 where
  move : {t : State} → Move s t → Step s t
  produce_spurious :
      s.prod ≡ p_wait → Step s (record s { prod = p_woken; spurious = suc s.spurious })
  consume_spurious : s.cons ≡ c_wait → Step s (record s { cons = c_woken })

pub data Reach : State → Type 0 where
  start : Reach init
  later : {s t : State} → Reach s → Step s t → Reach t
