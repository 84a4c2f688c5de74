-- ===== src/BoundedBuffer/Invariant.antt =====
-- What holds in every reachable state of the producer and the consumer.
use linux_system_programming.Prelude.{
  ℕ, zero, suc, ◌+◌, ◌-◌, ◌<◌, ◌≤◌, ◌≡◌, refl, sym, ap, ap₂, subst, ◌∙◌, ◌≢◌, Bool, true, false,
  List, [], ◌∷◌, ◌++◌, arith, length,
}
use linux_system_programming.BoundedBuffer.{
  max_count, Ring, put, get, Pc, top, test, wait, woken, acted, leaving, done, Owner, free,
  producer, consumer, State, init, Move, p_lock, p_block, p_relock, p_put, p_signal, p_unlock,
  p_return, c_lock, c_block, c_relock, c_get, c_signal, c_unlock, c_return, Step, move, p_spurious,
  c_spurious, Reach, start, later,
}
use linux_system_programming.BoundedBuffer.Queue.{Holds, init_ring-Holds, put-Holds, get-Holds}

-- 0, 1, …, n - 1
abbrev pub up_to : ℕ → List ℕ
up_to zero = []
up_to (suc n) = up_to n ++ n ∷ []

-- g, g + 1, … : `n` numbers
abbrev pub count_from : ℕ → ℕ → List ℕ
count_from g zero = []
count_from g (suc n) = g ∷ count_from (suc g) n

pub length-count_from : (g n : ℕ) → length (count_from g n) ≡ n
length-count_from g zero = refl
length-count_from g (suc n) = ap suc (length-count_from (suc g) n)

count_from-suc : (g n v : ℕ) → v ≡ g + n → count_from g n ++ v ∷ [] ≡ count_from g (suc n)
count_from-suc g zero v e = let e' : v ≡ g = omega arith in rw e'
count_from-suc g (suc n) v e = ap (◌∷◌ g) (count_from-suc (suc g) n v (omega arith))

-- The rounds whose `put` or `get` is done.
abbrev pub rounds : Pc → ℕ
rounds (top i) = i
rounds (test i) = i
rounds (wait i) = i
rounds (woken i) = i
rounds (acted i) = suc i
rounds (leaving i) = suc i
rounds (done i) = i

-- The thread holds the mutex.
abbrev pub inside : Pc → Bool
inside (test i) = true
inside (acted i) = true
inside (leaving i) = true
inside (top i) = false
inside (wait i) = false
inside (woken i) = false
inside (done i) = false

abbrev pub is_producer : Owner → Bool
is_producer producer = true
is_producer free = false
is_producer consumer = false

abbrev pub is_consumer : Owner → Bool
is_consumer consumer = true
is_consumer free = false
is_consumer producer = false

-- How the loop variable stands to the bound of the `for`.
abbrev pub InRange : ℕ → Pc → Type 0
InRange loops (top i) = i ≤ loops
InRange loops (test i) = i < loops
InRange loops (wait i) = i < loops
InRange loops (woken i) = i < loops
InRange loops (acted i) = i < loops
InRange loops (leaving i) = i < loops
InRange loops (done i) = i ≡ loops

-- A thread sleeps only for a reason: the condition still holds, or the other thread has yet to
-- signal.
abbrev pub Asleep : Pc → Pc → Type 0 → Type 0
Asleep (wait i) (acted j) reason = Unit
Asleep (wait i) _ reason = reason
Asleep (top i) _ reason = Unit
Asleep (test i) _ reason = Unit
Asleep (woken i) _ reason = Unit
Asleep (acted i) _ reason = Unit
Asleep (leaving i) _ reason = Unit
Asleep (done i) _ reason = Unit

pub record Inv (loops : ℕ) (s : State) : Type 0 where
  pub holds : Holds s.ring (count_from (rounds s.cons) s.ring.count)
  pub balance : rounds s.prod ≡ rounds s.cons + s.ring.count
  pub shown_p : s.produced ≡ up_to (rounds s.prod)
  pub shown_c : s.consumed ≡ up_to (rounds s.cons)
  pub p_range : InRange loops s.prod
  pub c_range : InRange loops s.cons
  pub p_mutex : inside s.prod ≡ is_producer s.mutex
  pub c_mutex : inside s.cons ≡ is_consumer s.mutex
  pub p_asleep : Asleep s.prod s.cons (s.ring.count ≡ max_count)
  pub c_asleep : Asleep s.cons s.prod (s.ring.count ≡ 0)

pub Inv-init : (loops : ℕ) → Inv loops init
Inv-init loops = record {
  holds = init_ring-Holds;
  balance = refl;
  shown_p = refl;
  shown_c = refl;
  p_range = omega arith;
  c_range = omega arith;
  p_mutex = refl;
  c_mutex = refl;
  p_asleep = tt;
  c_asleep = tt;
}

count-put : (r : Ring) (v : ℕ) → (put r v).count ≡ suc r.count
unfolding put
count-put r v = refl

count-get : (r : Ring) → (get r).1.count ≡ r.count - 1
unfolding get
count-get r = refl

put-Inv :
    {loops : ℕ} {s : State} (i : ℕ)
    → s.prod ≡ test i
    → s.ring.count ≢ max_count
    → Inv loops s
    → Inv loops (record s { ring = put s.ring i; prod = acted i; produced = s.produced ++ i ∷ [] })
put-Inv {s} i e room v =
    let r : rounds s.prod ≡ i = ap rounds e in
    record {
      holds =
          subst (Holds (put s.ring i))
            (count_from-suc (rounds s.cons) s.ring.count i (omega (arith, v.balance))
              ∙ ap (count_from (rounds s.cons)) (sym (count-put s.ring i)))
            (put-Holds i v.holds room);
      balance = omega (arith, count-put s.ring i, v.balance);
      shown_p = rw (v.shown_p, r);
      shown_c = v.shown_c;
      p_range = ground arith;
      c_range = v.c_range;
      p_mutex = ground arith;
      c_mutex = v.c_mutex;
      p_asleep = tt;
      c_asleep = ground arith;
    }

get-Inv :
    {loops : ℕ} {s : State} (i c : ℕ)
    → s.cons ≡ test i
    → s.ring.count ≡ suc c
    → Inv loops s
    → Inv loops (record s {
      ring = (get s.ring).1;
      cons = acted i;
      consumed = s.consumed ++ (get s.ring).0 ∷ [];
    })
get-Inv {s} i c e some v =
    let r : rounds s.cons ≡ i = ap rounds e in
    let h : Holds s.ring (i ∷ count_from (suc i) c) =
      subst (Holds s.ring) (ap₂ count_from r some) v.holds in
    let left : (get s.ring).1.count ≡ c = omega (arith, count-get s.ring) in
    record {
      holds = subst (λ n. Holds (get s.ring).1 (count_from (suc i) n)) (sym left) (get-Holds h).1;
      balance = omega (arith, left, v.balance);
      shown_p = v.shown_p;
      shown_c = rw ((get-Holds h).0, v.shown_c, r);
      p_range = v.p_range;
      c_range = ground arith;
      p_mutex = v.p_mutex;
      c_mutex = ground arith;
      p_asleep = ground arith;
      c_asleep = tt;
    }

Move-Inv : {loops : ℕ} {s t : State} → Move loops s t → Inv loops s → Inv loops t
Move-Inv (p_lock i e lt f) v = ground arith
Move-Inv (p_block i e full) v = ground arith
Move-Inv (p_relock i e f) v = ground arith
Move-Inv (p_put i e room) v = put-Inv i e room v
Move-Inv (p_signal i e) v = ground arith
Move-Inv (p_unlock i e) v = ground arith
Move-Inv (p_return i e ge) v = ground arith
Move-Inv (c_lock i e lt f) v = ground arith
Move-Inv (c_block i e empty) v = ground arith
Move-Inv (c_relock i e f) v = ground arith
Move-Inv {s} (c_get i e some) v = get-Inv i (s.ring.count - 1) e (omega arith) v
Move-Inv (c_signal i e) v = ground arith
Move-Inv (c_unlock i e) v = ground arith
Move-Inv (c_return i e ge) v = ground arith

pub Step-Inv : {loops : ℕ} {s t : State} → Step loops s t → Inv loops s → Inv loops t
Step-Inv (move m) v = Move-Inv m v
Step-Inv (p_spurious i e) v = ground arith
Step-Inv (c_spurious i e) v = ground arith

pub Reach-Inv : {loops : ℕ} {s : State} → Reach loops s → Inv loops s
Reach-Inv {loops} start = Inv-init loops
Reach-Inv (later r st) = Step-Inv st (Reach-Inv r)
