-- ===== src/Join.antt =====
-- 05-threading/examples/src/join.c: threads that each add one to a counter under a mutex, and `main`
-- that creates and joins them.
pub mod Invariant
pub mod Safety
mod Tests
use linux_system_programming.Prelude.{
  ℕ, zero, suc, ◌+◌, ◌<◌, ◌≡◌, ◌≢◌, Bool, true, false, Option, none, some, List, [], ◌∷◌, ◌++◌,
  length, set, get_elem?,
}

-- Where a thread of `work` stands. `x++` reads x and then writes it.
pub data Work : Type 0 where
  locking : Work  -- at pthread_mutex_lock
  reading : Work  -- at the read of x
  writing : (v : ℕ) → Work  -- at the write of v + 1
  unlocking : Work  -- at pthread_mutex_unlock
  returned : Work

-- Where `main` stands.
pub data Main : Type 0 where
  creating : (i : ℕ) → Main
  joining : (i : ℕ) → Main
  printed : (v : ℕ) → Main

pub record State : Type 0 where
  pub locked : Bool
  pub x : ℕ
  pub pool : List Work
  pub main : Main

abbrev pub init : State
init = record { locked = false; x = 0; pool = []; main = creating 0 }

-- A statement of `work`: what it does to the mutex and to x.
pub data Runs : Bool → ℕ → Work → Bool → ℕ → Work → Type 0 where
  locks : {x : ℕ} → Runs false x locking true x reading
  reads : {m : Bool} {x : ℕ} → Runs m x reading m x (writing x)
  writes : {m : Bool} {x : ℕ} (v : ℕ) → Runs m x (writing v) m (suc v) unlocking
  unlocks : {m : Bool} {x : ℕ} → Runs m x unlocking false x returned

-- A step of one of the threads. `n` is NUMTHREADS; pthread_create does not fail.
pub data Move (n : ℕ) (s : State) : State → Type 0 where
  works :
      (i : ℕ) {p p' : Work} {m : Bool} {x : ℕ}
      → get_elem? s.pool i ≡ some p
      → Runs s.locked s.x p m x p'
      → Move n s (record s { locked = m; x = x; pool = set s.pool i p' })
  creates :
      (i : ℕ)
      → s.main ≡ creating i
      → i < n
      → Move n s (record s { pool = s.pool ++ locking ∷ []; main = creating (suc i) })
  all_created : (i : ℕ) → s.main ≡ creating i → ¬ (i < n) → Move n s (record s { main = joining 0 })
  joins :
      (i : ℕ)
      → s.main ≡ joining i
      → i < n
      → get_elem? s.pool i ≡ some returned
      → Move n s (record s { main = joining (suc i) })
  prints : (i : ℕ) → s.main ≡ joining i → ¬ (i < n) → Move n s (record s { main = printed s.x })

pub data Reach (n : ℕ) : State → Type 0 where
  begin : Reach n init
  then_move : {s s' : State} → Reach n s → Move n s s' → Reach n s'
