-- ===== src/Heap.antt =====
-- Memory for nodes of one type, and commands over it: what malloc, free, `->` and NULL do.
pub mod Chain
use linux_system_programming.Prelude.{ℕ, Bool, Option, none, some, ◌==◌, if◌then◌else◌}

abbrev pub Ptr : Type 0
Ptr = ℕ

abbrev pub null : Ptr
null = 0

-- An address with no node is not allocated, or has been freed.
abbrev pub Heap : Type 0 → Type 0
Heap N = Ptr → Option N

unfoldable pub write : {N : Type 0} → Heap N → Ptr → Option N → Heap N
write h p c a = if a == p then c else h a

-- How a call ends: with a value, at a bad pointer, or with a loop that the fuel cuts off.
pub data Run (N A : Type 0) : Type 0 where
  ok : A → Heap N → Run N A
  fault : Run N A
  out_of_fuel : Run N A

abbrev pub Cmd : Type 0 → Type 0 → Type 0
Cmd N A = Heap N → Run N A

abbrev pub pure : {N A : Type 0} → A → Cmd N A
pure a h = ok a h

-- What follows a call: it runs only where the call returned.
abbrev pub after : {N A B : Type 0} → Run N A → (A → Cmd N B) → Run N B
after (ok a h) k = k a h
after fault k = fault
after out_of_fuel k = out_of_fuel

infixl 5 ◌>>=◌ ◌>>◌
abbrev pub ◌>>=◌ : {N A B : Type 0} → Cmd N A → (A → Cmd N B) → Cmd N B
m >>= k = λ h. after (m h) k

abbrev pub ◌>>◌ : {N A B : Type 0} → Cmd N A → Cmd N B → Cmd N B
m >> k = m >>= λ _. k

-- The node at `p`; a fault at NULL and where no node is.
unfoldable pub load : {N : Type 0} → Ptr → Cmd N N
load p h = if p == null then fault else elim (h p) [ none ↦ fault | some n ↦ ok n h ]

unfoldable pub store : {N : Type 0} → Ptr → N → Cmd N (Unit {0})
store p n h = ok tt (write h p (some n))

unfoldable pub free : {N : Type 0} → Ptr → Cmd N (Unit {0})
free p h =
    if p == null then ok tt h else elim (h p) [ none ↦ fault | some n ↦ ok tt (write h p none) ]
