-- ===== src/Turns/Invariant.antt =====
-- The invariant of `funcCount1` and `funcCount2`.
use linux_system_programming.Prelude.{
  ℕ, zero, suc, ◌<◌, ◌≤◌, ◌≡◌, ◌⊎◌, Bool, true, false, List, [], ◌∷◌, ◌++◌, arith, if◌then◌else◌,
}
use linux_system_programming.Turns.{
  count_done, halted, must_wait2, Pc, top, test, wait, woken, leaving, finishing, returned, Owner,
  free, one, two, State, init, Move, lock1, wait1, relock1, signal1, pass1, unlock1, finish1,
  return1, lock2, wait2, relock2, stop2, signal2, pass2, unlock2, return2, move, spurious1,
  spurious2, Reach, start, later,
}

-- The numbers below `n` that are shown by `funcCount1`, and those by `funcCount2`, in order.
abbrev pub first_numbers : ℕ → List ℕ
first_numbers zero = []
first_numbers (suc n) = if halted n then first_numbers n else first_numbers n ++ n ∷ []

abbrev pub second_numbers : ℕ → List ℕ
second_numbers zero = []
second_numbers (suc n) = if halted n then second_numbers n ++ n ∷ [] else second_numbers n

abbrev pub inside : Pc → Bool
inside test = true
inside (leaving done) = true
inside top = false
inside wait = false
inside woken = false
inside finishing = false
inside returned = false

-- The second thread keeps the mutex when it returns.
abbrev pub inside2 : Pc → Bool
inside2 test = true
inside2 (leaving done) = true
inside2 returned = true
inside2 top = false
inside2 wait = false
inside2 woken = false
inside2 finishing = false

abbrev pub is_one : Owner → Bool
is_one one = true
is_one free = false
is_one two = false

abbrev pub is_two : Owner → Bool
is_two two = true
is_two free = false
is_two one = false

-- How the count stands to the first thread: it sleeps only while it is the second one's turn, and
-- once it has counted to ten it is on its way out.
abbrev pub First : Pc → ℕ → Type 0
First wait count = halted count ≡ true
First (leaving true) count = count ≡ count_done
First finishing count = count ≡ count_done
First returned count = count ≡ count_done
First (leaving false) count = count < count_done
First top count = count < count_done
First test count = count < count_done
First woken count = count < count_done

-- A signal to the second thread is due.
abbrev pub due : Pc → Bool
due (leaving true) = true
due finishing = true
due (leaving false) = false
due top = false
due test = false
due wait = false
due woken = false
due returned = false

-- The second thread sleeps only while it is not its turn, or until a signal that is due.
abbrev pub Second : Pc → Pc → ℕ → Type 0
Second wait p count = (must_wait2 count ≡ true) ⊎ (due p ≡ true)
Second returned p count = count ≡ count_done
Second (leaving true) p count = ⊥
Second (leaving false) p count = count < count_done
Second finishing p count = ⊥
Second top p count = Unit
Second test p count = Unit
Second woken p count = Unit

pub record Inv (s : State) : Type 0 where
  pub below : s.count ≤ count_done
  pub mutex1 : inside s.pc1 ≡ is_one s.mutex
  pub mutex2 : inside2 s.pc2 ≡ is_two s.mutex
  pub turn1 : First s.pc1 s.count
  pub turn2 : Second s.pc2 s.pc1 s.count

Inv-init : Inv init
Inv-init = ground arith

Move-Inv : {s t : State} → Move s t → Inv s → Inv t
Move-Inv (lock1 e f) v = ground arith
Move-Inv (wait1 e h) v = ground arith
Move-Inv (relock1 e f) v = ground arith
Move-Inv (signal1 e h h') v = ground arith
Move-Inv (pass1 e h h') v = ground arith
Move-Inv (unlock1 e) v = ground arith
Move-Inv (finish1 e) v = ground arith
Move-Inv (return1 e) v = ground arith
Move-Inv (lock2 e f) v = ground arith
Move-Inv (wait2 e h) v = ground arith
Move-Inv (relock2 e f) v = ground arith
Move-Inv (stop2 e h q) v = ground arith
Move-Inv (signal2 e h q h') v = ground arith
Move-Inv (pass2 e h q h') v = ground arith
Move-Inv (unlock2 e) v = ground arith
Move-Inv (return2 e) v = ground arith

pub Reach-Inv : {s : State} → Reach s → Inv s
Reach-Inv start = Inv-init
Reach-Inv (later r (move m)) = Move-Inv m (Reach-Inv r)
Reach-Inv (later r (spurious1 e)) = let v = Reach-Inv r in ground arith
Reach-Inv (later r (spurious2 e)) = let v = Reach-Inv r in ground arith
