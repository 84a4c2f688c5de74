-- ===== src/Hogwarts.antt =====
-- 05-threading/class/hogwarts/hogwarts.c: Dobby posts tasks in batches of at most ten, five elves
-- take them, with one mutex and two semaphores.
pub mod Weights
pub mod Invariant
pub mod Tasks
pub mod Safety
pub mod Cancel
pub mod Progress
mod Tests
use linux_system_programming.Prelude.{
  ℕ, suc, ◌+◌, ◌-◌, ◌<◌, ◌≡◌, ◌≢◌, Bool, true, false, some, List, [], ◌∷◌, ltb, if◌then◌else◌,
  get_elem?, set, replicate,
}

-- The five workers of `run_dobby`.
abbrev pub num_elves : ℕ
num_elves = 5

-- Where an elf stands in `run_house_elf`, with the id of the task in `todo`.
pub data Elf : Type 0 where
  idle : Elf  -- at sem_wait(&full_list)
  got : Elf  -- at pthread_mutex_lock
  inside : Elf  -- at take_task
  took : (id : ℕ) → Elf  -- at --active_tasks
  counted : (id : ℕ) → Elf  -- at the test of active_tasks
  leaving : (id : ℕ) → Elf  -- at pthread_mutex_unlock
  working : (id : ℕ) → Elf  -- in do_work
  cancelled : Elf

-- Where Dobby stands in `run_dobby`.
pub data Dobby : Type 0 where
  waits : Dobby  -- at sem_wait(&empty_list)
  checks : Dobby  -- at the test of total_tasks
  posts : (left batch : ℕ) → Dobby  -- in post_tasks, with `left` tasks of the batch to post
  releases : (left : ℕ) → Dobby  -- in the loop of sem_post(&full_list)
  cancels : (next : ℕ) → Dobby  -- in the loop of pthread_cancel and pthread_join
  returned : Dobby

-- The globals, the threads, and the ids that the lines "Task %d was completed!" show. Of a task
-- only the id is kept, and of the list the ids in order; `lost` has the ids of elves that were
-- cancelled with a task. `exited` is set by the `exit(-1)` of `take_task`.
pub record State : Type 0 where
  pub total_tasks : ℕ
  pub active_tasks : ℕ
  pub task_id_counter : ℕ
  pub list : List ℕ
  pub full_list : ℕ
  pub empty_list : ℕ
  pub mutex : Bool
  pub dobby : Dobby
  pub elves : List Elf
  pub completed : List ℕ
  pub lost : List ℕ
  pub exited : Bool

-- `main` with the number of tasks, once the elves are started.
abbrev pub init : ℕ → State
init tasks = record {
  total_tasks = tasks;
  active_tasks = 0;
  task_id_counter = 0;
  list = [];
  full_list = 0;
  empty_list = 1;
  mutex = false;
  dobby = waits;
  elves = replicate num_elves idle;
  completed = [];
  lost = [];
  exited = false;
}

-- total_tasks >= 10 ? 10 : total_tasks
abbrev pub batch_size : ℕ → ℕ
batch_size total = if ltb total 10 then total else 10

-- A step of Dobby or of elf `i`. `--active_tasks` is only reached above 0.
pub data Step (s : State) : State → Type 0 where
  d_wait :
      s.dobby ≡ waits
      → 0 < s.empty_list
      → Step s (record s { empty_list = s.empty_list - 1; dobby = checks })
  d_batch :
      s.dobby ≡ checks
      → s.total_tasks ≢ 0
      → Step s (record s {
        total_tasks = s.total_tasks - batch_size s.total_tasks;
        dobby = posts (batch_size s.total_tasks) (batch_size s.total_tasks);
      })
  d_post :
      (k n : ℕ)
      → s.dobby ≡ posts (suc k) n
      → Step s (record s {
        task_id_counter = suc s.task_id_counter;
        list = suc s.task_id_counter ∷ s.list;
        dobby = posts k n;
      })
  d_posted :
      (n : ℕ) → s.dobby ≡ posts 0 n → Step s (record s { active_tasks = n; dobby = releases n })
  d_release :
      (k : ℕ)
      → s.dobby ≡ releases (suc k)
      → Step s (record s { full_list = suc s.full_list; dobby = releases k })
  d_again : s.dobby ≡ releases 0 → Step s (record s { dobby = waits })
  d_finish : s.dobby ≡ checks → s.total_tasks ≡ 0 → Step s (record s { dobby = cancels 0 })
  d_cancel_idle :
      (i : ℕ)
      → s.dobby ≡ cancels i
      → get_elem? s.elves i ≡ some idle
      → Step s (record s { elves = set s.elves i cancelled; dobby = cancels (suc i) })
  d_cancel_working :
      (i id : ℕ)
      → s.dobby ≡ cancels i
      → get_elem? s.elves i ≡ some (working id)
      → Step s (record s {
        elves = set s.elves i cancelled;
        lost = id ∷ s.lost;
        dobby = cancels (suc i);
      })
  d_return : s.dobby ≡ cancels num_elves → Step s (record s { dobby = returned })
  e_wait :
      (i : ℕ)
      → get_elem? s.elves i ≡ some idle
      → 0 < s.full_list
      → Step s (record s { full_list = s.full_list - 1; elves = set s.elves i got })
  e_lock :
      (i : ℕ)
      → get_elem? s.elves i ≡ some got
      → s.mutex ≡ false
      → Step s (record s { mutex = true; elves = set s.elves i inside })
  e_take :
      (i id : ℕ) (rest : List ℕ)
      → get_elem? s.elves i ≡ some inside
      → s.list ≡ id ∷ rest
      → Step s (record s { list = rest; elves = set s.elves i (took id) })
  e_take_empty :
      (i : ℕ)
      → get_elem? s.elves i ≡ some inside
      → s.list ≡ []
      → Step s (record s { exited = true })
  e_count :
      (i id : ℕ)
      → get_elem? s.elves i ≡ some (took id)
      → Step s (record s { active_tasks = s.active_tasks - 1; elves = set s.elves i (counted id) })
  e_wake :
      (i id : ℕ)
      → get_elem? s.elves i ≡ some (counted id)
      → s.active_tasks ≡ 0
      → Step s (record s { empty_list = suc s.empty_list; elves = set s.elves i (leaving id) })
  e_pass :
      (i id : ℕ)
      → get_elem? s.elves i ≡ some (counted id)
      → s.active_tasks ≢ 0
      → Step s (record s { elves = set s.elves i (leaving id) })
  e_unlock :
      (i id : ℕ)
      → get_elem? s.elves i ≡ some (leaving id)
      → Step s (record s { mutex = false; elves = set s.elves i (working id) })
  e_work :
      (i id : ℕ)
      → get_elem? s.elves i ≡ some (working id)
      → Step s (record s { completed = id ∷ s.completed; elves = set s.elves i idle })

pub data Reach (tasks : ℕ) : State → Type 0 where
  start : Reach tasks (init tasks)
  later : {s t : State} → Reach tasks s → Step s t → Reach tasks t
