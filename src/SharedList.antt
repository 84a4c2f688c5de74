-- ===== src/SharedList.antt =====
-- 05-threading/class/linkedlist.c: two threads push nodes to the front of a list that a semaphore
-- guards, and `main` prints and frees it.
pub mod Invariant
pub mod Keep
pub mod Push
pub mod Reached
pub mod Free
pub mod Bag
pub mod Safety
mod Tests
use linux_system_programming.Prelude.{
  ℕ, zero, suc, ◌+◌, ◌<◌, ◌≡◌, ◌≢◌, Bool, true, false, Option, none, some, List, [], ◌∷◌, ◌++◌,
  ◌==◌, if◌then◌else◌,
}
use linux_system_programming.Heap.{
  Ptr, null, Heap, write, Run, ok, fault, out_of_fuel, Cmd, pure, after, ◌>>=◌, ◌>>◌, load, store,
  free,
}

-- struct single_node; `element` points to A[element].
pub record Node : Type 0 where
  pub element : ℕ
  pub next : Ptr

-- struct single_list with the memory for its nodes. `failed` are the elements for which malloc has
-- returned NULL.
pub record Shared : Type 0 where
  pub head : Ptr
  pub tail : Ptr
  pub size : ℕ
  pub sem : ℕ
  pub heap : Heap Node
  pub failed : List ℕ

-- The iterations of `push_thread`.
abbrev pub rounds : ℕ
rounds = 5

-- Where a thread stands, with its `i` and `tmp`.
pub data Pos : Type 0 where
  top : (i : ℕ) → Pos  -- the test of the `for`
  waiting : (i : ℕ) (tmp : Ptr) → Pos  -- at sem_wait
  linking : (i : ℕ) (tmp : Ptr) → Pos  -- at tmp->next = list->head
  heading : (i : ℕ) (tmp : Ptr) → Pos  -- at list->head = tmp
  tailing : (i : ℕ) (tmp : Ptr) → Pos  -- at the test of list->size
  counting : (i : ℕ) → Pos  -- at ++(list->size)
  posting : (i : ℕ) → Pos  -- at sem_post
  ended : Pos

pub record State : Type 0 where
  pub shared : Shared
  pub t1 : Pos
  pub t2 : Pos

-- single_list_init, of a list that is not NULL.
abbrev pub single_list_init : Shared
single_list_init = record {
  head = null;
  tail = null;
  size = 0;
  sem = 1;
  heap = λ a. none;
  failed = [];
}

abbrev pub init : State
init = record { shared = single_list_init; t1 = top 0; t2 = top 0 }

-- tmp->next = list->head
unfoldable pub set_next : Ptr → Ptr → Cmd Node (Unit {0})
unfolding load store
set_next tmp head = load tmp >>= λ n. store tmp (record n { next = head })

-- if(list->size == 0) list->tail = tmp;
abbrev pub set_tail : Ptr → Shared → Shared
set_tail tmp s = record s { tail = if s.size == 0 then tmp else s.tail }

-- A statement of `push_thread` and of the `push_front` that it calls. What malloc returns is not
-- allocated before.
pub data Runs (s : Shared) : Pos → Shared → Pos → Type 0 where
  allocates :
      (i : ℕ) (tmp junk : Ptr)
      → i < rounds
      → tmp ≢ null
      → s.heap tmp ≡ none
      → Runs s
          (top i)
          (record s { heap = write s.heap tmp (some (record { element = i; next = junk })) })
          (waiting i tmp)
  malloc_fails :
      (i : ℕ) → i < rounds → Runs s (top i) (record s { failed = i ∷ s.failed }) (top (suc i))
  sem_wait :
      (i : ℕ) (tmp : Ptr) (k : ℕ)
      → s.sem ≡ suc k
      → Runs s (waiting i tmp) (record s { sem = k }) (linking i tmp)
  links :
      (i : ℕ) (tmp : Ptr) (h : Heap Node)
      → set_next tmp s.head s.heap ≡ ok tt h
      → Runs s (linking i tmp) (record s { heap = h }) (heading i tmp)
  heads : (i : ℕ) (tmp : Ptr) → Runs s (heading i tmp) (record s { head = tmp }) (tailing i tmp)
  tails : (i : ℕ) (tmp : Ptr) → Runs s (tailing i tmp) (set_tail tmp s) (counting i)
  counts : (i : ℕ) → Runs s (counting i) (record s { size = suc s.size }) (posting i)
  sem_post : (i : ℕ) → Runs s (posting i) (record s { sem = suc s.sem }) (top (suc i))
  exits : (i : ℕ) → ¬ (i < rounds) → Runs s (top i) s ended

pub data Move (s : State) : State → Type 0 where
  first :
      {s' : Shared} {p : Pos} → Runs s.shared s.t1 s' p → Move s (record s { shared = s'; t1 = p })
  second :
      {s' : Shared} {p : Pos} → Runs s.shared s.t2 s' p → Move s (record s { shared = s'; t2 = p })

pub data Reach : State → Type 0 where
  begin : Reach init
  then_move : {s s' : State} → Reach s → Move s s' → Reach s'

-- The `while` of `main` that prints, on fuel: the indices of the elements.
unfoldable pub print_nodes : ℕ → Ptr → Cmd Node (List ℕ)
print_nodes zero p h = out_of_fuel
print_nodes (suc fuel) p h =
    (if p == null
        then pure []
        else load p >>= λ n. print_nodes fuel n.next >>= λ l. pure (n.element ∷ l))
      h

-- The `while` of `single_list_free`.
unfoldable pub free_nodes : ℕ → Ptr → Cmd Node (Unit {0})
free_nodes zero p h = out_of_fuel
free_nodes (suc fuel) p h =
    (if p == null then pure tt else load p >>= λ n. free p >> free_nodes fuel n.next) h

-- What `main` does after both joins.
unfoldable pub print_and_free : ℕ → Shared → Run Node (List ℕ)
unfolding print_nodes free_nodes
print_and_free fuel s = (print_nodes fuel s.head >>= λ l. free_nodes fuel s.head >> pure l) s.heap
