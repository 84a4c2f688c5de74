-- ===== src/SharedList/Invariant.antt =====
-- What holds of the list and of the two threads between any two statements.
use linux_system_programming.Prelude.{
  ℕ, suc, ◌+◌, ◌≤◌, ◌<◌, ◌≡◌, ◌≢◌, Bool, true, false, none, some, List, [], ◌∷◌, ltb, ◌==◌,
  if◌then◌else◌, length,
}
use linux_system_programming.Heap.{Ptr, null, Heap}
use linux_system_programming.Heap.Chain.{Chain, has}
use linux_system_programming.SharedList.{
  Node, Shared, Pos, top, waiting, linking, heading, tailing, counting, posting, ended, rounds,
}
use linux_system_programming.SharedList.Free.{Cells, elements}

-- Between sem_wait and sem_post.
abbrev pub inside : Pos → ℕ
inside (top i) = 0
inside (waiting i tmp) = 0
inside (linking i tmp) = 1
inside (heading i tmp) = 1
inside (tailing i tmp) = 1
inside (counting i) = 1
inside (posting i) = 1
inside ended = 0

-- The node is in the list and not yet counted.
abbrev pub uncounted : Pos → ℕ
uncounted (top i) = 0
uncounted (waiting i tmp) = 0
uncounted (linking i tmp) = 0
uncounted (heading i tmp) = 0
uncounted (tailing i tmp) = 1
uncounted (counting i) = 1
uncounted (posting i) = 0
uncounted ended = 0

-- How many elements the thread is done with: they are in the list or in `failed`.
abbrev pub reached : Pos → ℕ
reached (top i) = i
reached (waiting i tmp) = i
reached (linking i tmp) = i
reached (heading i tmp) = i
reached (tailing i tmp) = suc i
reached (counting i) = suc i
reached (posting i) = suc i
reached ended = rounds

-- A node at `a` that only this thread knows.
abbrev pub owns : Pos → Ptr → Bool
owns (top i) a = false
owns (waiting i tmp) a = a == tmp
owns (linking i tmp) a = a == tmp
owns (heading i tmp) a = a == tmp
owns (tailing i tmp) a = false
owns (counting i) a = false
owns (posting i) a = false
owns ended a = false

abbrev pub last_ptr : Cells → Ptr
last_ptr [] = null
last_ptr ((p, n) ∷ []) = p
last_ptr (x ∷ y ∷ xs) = last_ptr (y ∷ xs)

-- A node of a thread alone, not in the list, with its element.
pub record Mine (heap : Heap Node) (xs : Cells) (i : ℕ) (tmp next : Ptr) : Type 0 where
  pub some_place : tmp ≢ null
  pub there : heap tmp ≡ some (record { element = i; next = next })
  pub apart : has tmp xs ≡ false

abbrev pub PosInv : Shared → Cells → Pos → Type 0
PosInv s xs (top i) = i ≤ rounds
PosInv s xs (waiting i tmp) = (i < rounds) × (next : Ptr) × Mine s.heap xs i tmp next
PosInv s xs (linking i tmp) = (i < rounds) × (next : Ptr) × Mine s.heap xs i tmp next
PosInv s xs (heading i tmp) = (i < rounds) × Mine s.heap xs i tmp s.head
PosInv s xs (tailing i tmp) = (i < rounds) × (s.head ≡ tmp)
PosInv s xs (counting i) = (i < rounds) × (s.tail ≡ last_ptr xs)
PosInv s xs (posting i) = i < rounds
PosInv s xs ended = Unit

-- How often `k` is in a list, and how often a thread has brought it.
abbrev pub count : ℕ → List ℕ → ℕ
count k [] = 0
count k (x ∷ xs) = let rest = count k xs in if x == k then suc rest else rest

abbrev pub brought : ℕ → Pos → ℕ
brought k p = if ltb k (reached p) then 1 else 0

-- A thread at `p`, beside one at `q`.
pub record Inv (s : Shared) (xs : Cells) (p q : Pos) : Type 0 where
  pub chain : Chain Node.next s.heap s.head xs
  pub one_inside : s.sem + inside p + inside q ≡ 1
  pub size : s.size + uncounted p + uncounted q ≡ length xs
  pub tail : 0 < s.size → s.tail ≡ last_ptr xs
  pub at_p : PosInv s xs p
  pub at_q : PosInv s xs q
  pub not_both : (a : Ptr) → owns p a ≡ true → owns q a ≡ false
  pub no_leak : (a : Ptr) → has a xs ≡ false → owns p a ≡ false → owns q a ≡ false → s.heap a ≡ none
  pub all : length xs + length s.failed ≡ reached p + reached q
  pub each : (k : ℕ) → count k (elements xs) + count k s.failed ≡ brought k p + brought k q
