-- ===== src/Refill/Invariant.antt =====
-- What holds in every reachable state of `produce` and `consume`.
use linux_system_programming.Prelude.{
  ℕ, zero, suc, ◌+◌, ◌*◌, ◌<◌, ◌≤◌, ◌≡◌, refl, ap, ◌⊎◌, Bool, true, false, [], ◌∷◌, arith, length,
  length-append, length-set,
}
use linux_system_programming.Refill.{
  bufcap, fills, Producer, p_top, p_test, p_wait, p_woken, p_inserted, p_leaving, p_returned,
  Consumer, c_top, c_test, c_wait, c_woken, c_removed, c_leaving, Owner, free, producer, consumer,
  State, init, remove_all, Move, produce_lock, produce_wait, produce_relock, produce_insert,
  produce_signal, produce_pass, produce_unlock, produce_return, consume_lock, consume_wait,
  consume_relock, consume_remove, consume_signal, consume_unlock, Step, move, produce_spurious,
  consume_spurious, Reach, start, later,
}

abbrev pub p_inside : Producer → Bool
p_inside p_test = true
p_inside p_inserted = true
p_inside p_leaving = true
p_inside p_top = false
p_inside p_wait = false
p_inside p_woken = false
p_inside p_returned = false

abbrev pub c_inside : Consumer → Bool
c_inside c_test = true
c_inside c_removed = true
c_inside c_leaving = true
c_inside c_top = false
c_inside c_wait = false
c_inside c_woken = false

abbrev pub is_producer : Owner → Bool
is_producer producer = true
is_producer free = false
is_producer consumer = false

abbrev pub is_consumer : Owner → Bool
is_consumer consumer = true
is_consumer free = false
is_consumer producer = false

-- A wake-up of the producer that `i` does not count yet.
abbrev pub woken_one : Producer → ℕ
woken_one p_woken = 1
woken_one p_top = 0
woken_one p_test = 0
woken_one p_wait = 0
woken_one p_inserted = 0
woken_one p_leaving = 0
woken_one p_returned = 0

-- A signal that is still to be sent.
abbrev pub signal_due : Consumer → ℕ
signal_due c_removed = 1
signal_due c_top = 0
signal_due c_test = 0
signal_due c_wait = 0
signal_due c_woken = 0
signal_due c_leaving = 0

-- The producer sleeps only while the buffer is full, or until a signal that is due.
abbrev pub PAsleep : Producer → Consumer → ℕ → Type 0
PAsleep p_wait c n = (n ≡ bufcap) ⊎ (signal_due c ≡ 1)
PAsleep p_top c n = Unit
PAsleep p_test c n = Unit
PAsleep p_woken c n = Unit
PAsleep p_inserted c n = Unit
PAsleep p_leaving c n = Unit
PAsleep p_returned c n = Unit

abbrev pub inserting : Producer → Bool
inserting p_inserted = true
inserting p_top = false
inserting p_test = false
inserting p_wait = false
inserting p_woken = false
inserting p_leaving = false
inserting p_returned = false

-- The consumer sleeps only while the buffer is not full, or until a signal that is due.
abbrev pub CAsleep : Consumer → Producer → ℕ → Type 0
CAsleep c_wait p n = (n < bufcap) ⊎ (inserting p ≡ true)
CAsleep c_top p n = Unit
CAsleep c_test p n = Unit
CAsleep c_woken p n = Unit
CAsleep c_removed p n = Unit
CAsleep c_leaving p n = Unit

-- Full or empty.
abbrev pub Whole : ℕ → Type 0
Whole n = (n ≡ bufcap) ⊎ (n ≡ 0)

-- Once the producer has slept, the buffer is full or empty until it inserts again, which it does
-- not once `i` has reached FILLS.
abbrev pub Settled : Producer → ℕ → ℕ → Type 0
Settled p_wait i n = Whole n
Settled p_woken i n = Whole n
Settled p_test i n = (i < fills) ⊎ Whole n
Settled p_top i n = i < fills
Settled p_inserted i n = i < fills
Settled p_leaving i n = i < fills
Settled p_returned i n = (n ≡ 0) × (fills ≤ i)

pub record Inv (s : State) : Type 0 where
  pub fits : s.n ≤ bufcap
  pub size : length s.buf ≡ bufcap
  pub sums : length s.added ≡ bufcap * s.emptied + s.n
  pub takes : length s.removed ≡ bufcap * s.emptied
  pub p_mutex : p_inside s.prod ≡ is_producer s.mutex
  pub c_mutex : c_inside s.cons ≡ is_consumer s.mutex
  pub wakes : s.i + woken_one s.prod + signal_due s.cons ≤ s.emptied + s.spurious
  pub p_asleep : PAsleep s.prod s.cons s.n
  pub c_asleep : CAsleep s.cons s.prod s.n
  pub settled : Settled s.prod s.i s.n
  pub is_done : (s.i < fills × (s.done ≡ false)) ⊎ (fills ≤ s.i × (s.done ≡ true))

pub Inv-init : Inv init
Inv-init = ground arith

length-remove_all : (n : ℕ) → length (remove_all n) ≡ n
unfolding remove_all
length-remove_all zero = refl
length-remove_all (suc n) = ap suc (length-remove_all n)

Move-Inv : {s t : State} → Move s t → Inv s → Inv t
Move-Inv (produce_lock e f) v = ground arith
Move-Inv (produce_wait e full) v = ground arith
Move-Inv (produce_relock e f) v = ground arith
Move-Inv {s} (produce_insert e room go) v =
    ground (arith, length-set s.buf s.n s.n, length-append s.added (s.n ∷ []))
Move-Inv (produce_signal e full) v = ground arith
Move-Inv (produce_pass e room) v = ground arith
Move-Inv (produce_unlock e) v = ground arith
Move-Inv (produce_return e room d) v = ground arith
Move-Inv (consume_lock e f) v = ground arith
Move-Inv (consume_wait e room) v = ground arith
Move-Inv (consume_relock e f) v = ground arith
Move-Inv {s} (consume_remove e full) v =
    ground (arith, length-append s.removed (remove_all s.n), length-remove_all s.n)
Move-Inv (consume_signal e) v = ground arith
Move-Inv (consume_unlock e) v = ground arith

pub Step-Inv : {s t : State} → Step s t → Inv s → Inv t
Step-Inv (move m) v = Move-Inv m v
Step-Inv (produce_spurious e) v = ground arith
Step-Inv (consume_spurious e) v = ground arith

pub Reach-Inv : {s : State} → Reach s → Inv s
Reach-Inv start = Inv-init
Reach-Inv (later r st) = Step-Inv st (Reach-Inv r)
