-- ===== src/BoundedBuffer.antt =====
-- 05-threading/examples/src/producer_consumer2.c: a producer and a consumer over a ring of ten
-- integers, with one mutex and two condition variables.
pub mod Queue
pub mod Invariant
pub mod Safety
pub mod Refine
mod Tests
use linux_system_programming.Prelude.{
  ℕ, suc, ◌+◌, ◌-◌, ◌%◌, ◌≤◌, ◌<◌, ◌≡◌, ◌≢◌, List, [], ◌∷◌, ◌++◌, set, get_or, replicate,
}

-- MAX
abbrev pub max_count : ℕ
max_count = 10

-- The globals `buffer`, `fill_ptr`, `use_ptr` and `count`.
pub record Ring : Type 0 where
  pub buffer : List ℕ
  pub fill_ptr : ℕ
  pub use_ptr : ℕ
  pub count : ℕ

abbrev pub init_ring : Ring
init_ring = record { buffer = replicate max_count 0; fill_ptr = 0; use_ptr = 0; count = 0 }

unfoldable pub put : Ring → ℕ → Ring
put r value = record {
  buffer = set r.buffer r.fill_ptr value;
  fill_ptr = (r.fill_ptr + 1) % max_count;
  use_ptr = r.use_ptr;
  count = suc r.count;
}

-- The value in `tmp`, and the ring that is left.
unfoldable pub get : Ring → ℕ × Ring
get r = (
  get_or r.buffer r.use_ptr 0,
  record r { use_ptr = (r.use_ptr + 1) % max_count; count = r.count - 1 },
)

-- Where a thread stands in the round of its loop variable `i`.
pub data Pc : Type 0 where
  top : (i : ℕ) → Pc  -- the test of the `for`
  test : (i : ℕ) → Pc  -- the test of the `while`, with the mutex
  wait : (i : ℕ) → Pc  -- asleep in `pthread_cond_wait`
  woken : (i : ℕ) → Pc  -- awake in `pthread_cond_wait`, without the mutex yet
  acted : (i : ℕ) → Pc  -- behind `put` or `get` and its `printf`
  leaving : (i : ℕ) → Pc  -- behind `pthread_cond_signal`
  done : (i : ℕ) → Pc

pub data Owner : Type 0 where
  free producer consumer : Owner

-- The shared memory, the mutex, both threads, and the values that the lines "produced: %d" and
-- "consumed: %d" show.
pub record State : Type 0 where
  pub ring : Ring
  pub mutex : Owner
  pub prod : Pc
  pub cons : Pc
  pub produced : List ℕ
  pub consumed : List ℕ

abbrev pub init : State
init = record {
  ring = init_ring;
  mutex = free;
  prod = top 0;
  cons = top 0;
  produced = [];
  consumed = [];
}

-- What `pthread_cond_signal` does to the one thread that may wait.
abbrev pub wake : Pc → Pc
wake (wait i) = woken i
wake (top i) = top i
wake (test i) = test i
wake (woken i) = woken i
wake (acted i) = acted i
wake (leaving i) = leaving i
wake (done i) = done i

-- A step of `producer` or of `consumer`; both are started with `loops` as their `n`.
pub data Move (loops : ℕ) (s : State) : State → Type 0 where
  p_lock :
      (i : ℕ)
      → s.prod ≡ top i
      → i < loops
      → s.mutex ≡ free
      → Move loops s (record s { mutex = producer; prod = test i })
  p_block :
      (i : ℕ)
      → s.prod ≡ test i
      → s.ring.count ≡ max_count
      → Move loops s (record s { mutex = free; prod = wait i })
  p_relock :
      (i : ℕ)
      → s.prod ≡ woken i
      → s.mutex ≡ free
      → Move loops s (record s { mutex = producer; prod = test i })
  p_put :
      (i : ℕ)
      → s.prod ≡ test i
      → s.ring.count ≢ max_count
      → Move loops s
          (record s { ring = put s.ring i; prod = acted i; produced = s.produced ++ i ∷ [] })
  p_signal :
      (i : ℕ) → s.prod ≡ acted i → Move loops s (record s { prod = leaving i; cons = wake s.cons })
  p_unlock :
      (i : ℕ) → s.prod ≡ leaving i → Move loops s (record s { mutex = free; prod = top (suc i) })
  p_return : (i : ℕ) → s.prod ≡ top i → loops ≤ i → Move loops s (record s { prod = done i })
  c_lock :
      (i : ℕ)
      → s.cons ≡ top i
      → i < loops
      → s.mutex ≡ free
      → Move loops s (record s { mutex = consumer; cons = test i })
  c_block :
      (i : ℕ)
      → s.cons ≡ test i
      → s.ring.count ≡ 0
      → Move loops s (record s { mutex = free; cons = wait i })
  c_relock :
      (i : ℕ)
      → s.cons ≡ woken i
      → s.mutex ≡ free
      → Move loops s (record s { mutex = consumer; cons = test i })
  c_get :
      (i : ℕ)
      → s.cons ≡ test i
      → s.ring.count ≢ 0
      → Move loops s (record s {
        ring = (get s.ring).1;
        cons = acted i;
        consumed = s.consumed ++ (get s.ring).0 ∷ [];
      })
  c_signal :
      (i : ℕ) → s.cons ≡ acted i → Move loops s (record s { cons = leaving i; prod = wake s.prod })
  c_unlock :
      (i : ℕ) → s.cons ≡ leaving i → Move loops s (record s { mutex = free; cons = top (suc i) })
  c_return : (i : ℕ) → s.cons ≡ top i → loops ≤ i → Move loops s (record s { cons = done i })

-- `pthread_cond_wait` may also return with no signal.
pub data Step (loops : ℕ) (s : State) : State → Type 0 where
  move : {t : State} → Move loops s t → Step loops s t
  p_spurious : (i : ℕ) → s.prod ≡ wait i → Step loops s (record s { prod = woken i })
  c_spurious : (i : ℕ) → s.cons ≡ wait i → Step loops s (record s { cons = woken i })

pub data Reach (loops : ℕ) : State → Type 0 where
  start : Reach loops init
  later : {s t : State} → Reach loops s → Step loops s t → Reach loops t
