-- ===== src/SharedList/Keep.antt =====
-- What one thread's statement leaves of the other's part of the invariant.
use linux_system_programming.Prelude.{
  ℕ, zero, suc, ◌≤◌, ◌<◌, ◌≡◌, refl, sym, ◌∙◌, true, false, none, some, [], ◌∷◌, arith, ◌==◌,
  if◌then◌else◌, length,
}
use linux_system_programming.Heap.{Ptr, Heap, write, Run, store, ok}
use linux_system_programming.Heap.Chain.{Chain, nil, cons, has, load-ok}
use linux_system_programming.SharedList.{
  Node, Shared, Pos, top, waiting, linking, heading, tailing, counting, posting, ended, set_next,
}
use linux_system_programming.SharedList.Free.{Cells}
use linux_system_programming.SharedList.Invariant.{inside, uncounted, owns, last_ptr, Mine, PosInv}

-- A thread is undisturbed where its own node stays, and head and tail do.
pub keep_same :
    (s s' : Shared) (xs : Cells) (q : Pos)
    → s'.head ≡ s.head
    → s'.tail ≡ s.tail
    → ((a : Ptr) (n : Node) → s.heap a ≡ some n → owns q a ≡ true → s'.heap a ≡ some n)
    → PosInv s xs q
    → PosInv s' xs q
keep_same s s' xs (top i) eh et same v = v
keep_same s s' xs (waiting i tmp) eh et same (lt, next, m) = (
  lt,
  next,
  record { some_place = m.some_place; there = same tmp _ m.there (ground arith); apart = m.apart },
)
keep_same s s' xs (linking i tmp) eh et same (lt, next, m) = (
  lt,
  next,
  record { some_place = m.some_place; there = same tmp _ m.there (ground arith); apart = m.apart },
)
keep_same s s' xs (heading i tmp) eh et same (lt, m) = (
  lt,
  record {
    some_place = m.some_place;
    there = rw eh (same tmp _ m.there (ground arith));
    apart = m.apart;
  },
)
keep_same s s' xs (tailing i tmp) eh et same v = (v.0, eh ∙ v.1)
keep_same s s' xs (counting i) eh et same v = (v.0, et ∙ v.1)
keep_same s s' xs (posting i) eh et same v = v
keep_same s s' xs ended eh et same v = tt

-- A thread that is not inside is undisturbed where its own node stays and stays apart.
pub keep_outside :
    (s s' : Shared) (xs xs' : Cells) (q : Pos)
    → inside q ≡ 0
    → ((a : Ptr) (n : Node) → s.heap a ≡ some n → owns q a ≡ true → s'.heap a ≡ some n)
    → ((a : Ptr) → has a xs ≡ false → owns q a ≡ true → has a xs' ≡ false)
    → PosInv s xs q
    → PosInv s' xs' q
keep_outside s s' xs xs' (top i) out same apart v = v
keep_outside s s' xs xs' (waiting i tmp) out same apart (lt, next, m) = (
  lt,
  next,
  record {
    some_place = m.some_place;
    there = same tmp _ m.there (ground arith);
    apart = apart tmp m.apart (ground arith);
  },
)
keep_outside s s' xs xs' (linking i tmp) out same apart v = absurd (omega (arith, out))
keep_outside s s' xs xs' (heading i tmp) out same apart v = absurd (omega (arith, out))
keep_outside s s' xs xs' (tailing i tmp) out same apart v = absurd (omega (arith, out))
keep_outside s s' xs xs' (counting i) out same apart v = absurd (omega (arith, out))
keep_outside s s' xs xs' (posting i) out same apart v = absurd (omega (arith, out))
keep_outside s s' xs xs' ended out same apart v = tt

-- No thread has the node that malloc is about to return.
pub owns-unused :
    (s : Shared) (xs : Cells) (q : Pos) (a : Ptr)
    → PosInv s xs q
    → s.heap a ≡ none
    → owns q a ≡ false
owns-unused s xs (top i) a v e = refl
owns-unused s xs (waiting i tmp) a (lt, next, m) e = ground (arith, m.there, e)
owns-unused s xs (linking i tmp) a (lt, next, m) e = ground (arith, m.there, e)
owns-unused s xs (heading i tmp) a (lt, m) e = ground (arith, m.there, e)
owns-unused s xs (tailing i tmp) a v e = refl
owns-unused s xs (counting i) a v e = refl
owns-unused s xs (posting i) a v e = refl
owns-unused s xs ended a v e = refl

pub set_next-ok :
    (h : Heap Node) (xs : Cells) (i : ℕ) (tmp next head : Ptr)
    → Mine h xs i tmp next
    → set_next tmp head h ≡ ok tt (write h tmp (some (record { element = i; next = head })))
unfolding set_next store
set_next-ok h xs i tmp next head m = rw (set_next, load-ok h m.some_place m.there) refl

pub ok_heap : {h g : Heap Node} → ◌≡◌ {A = Run Node (Unit {0})} (ok tt h) (ok tt g) → h ≡ g
ok_heap e = cc

pub last_ptr-cons : (x : Ptr × Node) (xs : Cells) → 0 < length xs → last_ptr (x ∷ xs) ≡ last_ptr xs
last_ptr-cons x [] pos = absurd (omega (arith, pos))
last_ptr-cons x (y ∷ xs) pos = refl

pub last_ptr_single :
    {h : Heap Node} {p : Ptr} {xs : Cells}
    → Chain Node.next h p xs
    → length xs ≡ 1
    → last_ptr xs ≡ p
last_ptr_single nil e = absurd (omega (arith, e))
last_ptr_single (cons {xs = []} ne there out c) e = refl
last_ptr_single (cons {xs = x ∷ xs} ne there out c) e = absurd (omega (arith, e))

pub tail_if :
    (n : ℕ) (t u l : Ptr) → (n ≡ 0 → l ≡ t) → (0 < n → u ≡ l) → (if n == 0 then t else u) ≡ l
tail_if zero t u l h k = sym (h refl)
tail_if (suc n) t u l h k = ground (arith, k (omega arith))

pub uncounted-le : (q : Pos) → uncounted q ≤ inside q
uncounted-le (top i) = omega arith
uncounted-le (waiting i tmp) = omega arith
uncounted-le (linking i tmp) = omega arith
uncounted-le (heading i tmp) = omega arith
uncounted-le (tailing i tmp) = omega arith
uncounted-le (counting i) = omega arith
uncounted-le (posting i) = omega arith
uncounted-le ended = omega arith
