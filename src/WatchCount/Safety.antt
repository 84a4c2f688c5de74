-- ===== src/WatchCount/Safety.antt =====
-- What `inc_count` and `watch_count` promise.
use linux_system_programming.Prelude.{
  ℕ, suc, ◌+◌, ◌*◌, ◌<◌, ◌≤◌, ◌≡◌, refl, ◌⊎◌, inl, inr, Bool, true, false, arith, ◌==◌, ==_iff, ltb,
  ltb→lt, Bool-cases,
}
use linux_system_programming.WatchCount.{
  tcount, count_limit, Inc, top, inside, leaving, inc_exit, Watch, begins, tests, sleeps, woken,
  watch_exit, Owner, free, watcher, first, second, State, init, Move, lock1, reach1, bump1, unlock1,
  exit1, lock2, reach2, bump2, unlock2, exit2, watch_lock, watch_wait, watch_relock, watch_leave,
  move, spurious, Reach, start, later,
}

-- The increments that a thread has made.
abbrev pub made : Inc → ℕ
made (top i) = i
made (inside i) = i
made (leaving i) = suc i
made inc_exit = tcount

abbrev pub holds : Inc → Bool
holds (inside i) = true
holds (leaving i) = true
holds (top i) = false
holds inc_exit = false

abbrev pub watches : Watch → Bool
watches tests = true
watches begins = false
watches sleeps = false
watches woken = false
watches watch_exit = false

abbrev pub InRange : Inc → Type 0
InRange (top i) = i ≤ tcount
InRange (inside i) = i < tcount
InRange (leaving i) = i < tcount
InRange inc_exit = Unit

abbrev pub is_first : Owner → Bool
is_first first = true
is_first free = false
is_first watcher = false
is_first second = false

abbrev pub is_second : Owner → Bool
is_second second = true
is_second free = false
is_second watcher = false
is_second first = false

abbrev pub is_watcher : Owner → Bool
is_watcher watcher = true
is_watcher free = false
is_watcher first = false
is_watcher second = false

-- The watcher sleeps only below the limit, waits at most once, and goes at the limit.
abbrev pub Watching : Watch → ℕ → ℕ → Type 0
Watching begins count waits = waits ≡ 0
Watching tests count waits = waits ≤ 1
Watching sleeps count waits = (count < count_limit) × (waits ≡ 0)
Watching woken count waits = waits ≡ 0
Watching watch_exit count waits = (count_limit ≤ count) × (waits ≤ 1)

pub record Inv (s : State) : Type 0 where
  pub sum : s.count ≡ made s.inc1 + made s.inc2 + 125 * s.waits
  pub range1 : InRange s.inc1
  pub range2 : InRange s.inc2
  pub mutex1 : holds s.inc1 ≡ is_first s.mutex
  pub mutex2 : holds s.inc2 ≡ is_second s.mutex
  pub mutex3 : watches s.watch ≡ is_watcher s.mutex
  pub watching : Watching s.watch s.count s.waits

Inv-init : Inv init
Inv-init = ground arith

Move-Inv : {s t : State} → Move s t → Inv s → Inv t
Move-Inv (lock1 i e lt f) v = ground arith
Move-Inv (reach1 i e q) v = ground arith
Move-Inv (bump1 i e q) v = ground arith
Move-Inv (unlock1 i e) v = ground arith
Move-Inv (exit1 i e ge) v = ground arith
Move-Inv (lock2 i e lt f) v = ground arith
Move-Inv (reach2 i e q) v = ground arith
Move-Inv (bump2 i e q) v = ground arith
Move-Inv (unlock2 i e) v = ground arith
Move-Inv (exit2 i e ge) v = ground arith
Move-Inv (watch_lock e f) v = ground arith
Move-Inv (watch_wait e lt) v = ground arith
Move-Inv (watch_relock e f) v = ground arith
Move-Inv (watch_leave e ge) v = ground arith

Reach-Inv : {s : State} → Reach s → Inv s
Reach-Inv start = Inv-init
Reach-Inv (later r (move m)) = Move-Inv m (Reach-Inv r)
Reach-Inv (later r (spurious e)) = let v = Reach-Inv r in ground arith

-- When all three threads have ended, `count` is 20 or 145: 145 if `watch_count` had to wait, and
-- 20 if it came when the limit was reached.
pub final_count :
    {s : State}
    → Reach s
    → s.inc1 ≡ inc_exit
    → s.inc2 ≡ inc_exit
    → s.watch ≡ watch_exit
    → ((s.waits ≡ 0) × (s.count ≡ 20)) ⊎ ((s.waits ≡ 1) × (s.count ≡ 145))
final_count r e1 e2 ew = let v = Reach-Inv r in ground (arith, v.sum, v.watching)

abbrev pub Live : State → Type 0
Live s = (t : State) × Move s t

abbrev pub Over : State → Type 0
Over s = (s.inc1 ≡ inc_exit) × (s.inc2 ≡ inc_exit) × (s.watch ≡ watch_exit)

module _ (s : State) (v : Inv s) where
  first_moves :
      (p : Inc) → s.inc1 ≡ p → (s.mutex ≡ free) ⊎ (holds p ≡ true) → (p ≡ inc_exit) ⊎ Live s
  first_moves (top i) e (inl f) = elim (Bool-cases (ltb i tcount)) [
    | inl lt ↦ inr (_, lock1 i e (ltb→lt _ _ lt) f)
    | inr ge ↦ inr (_, exit1 i e (λ q. ground (arith, ge, q)))
  ]
  first_moves (top i) e (inr h) = cc
  first_moves (inside i) e h = elim (Bool-cases (suc s.count == count_limit)) [
    | inl q ↦ inr (_, reach1 i e ((==_iff _ _).0 q))
    | inr q ↦ inr (_, bump1 i e (λ p. grind (arith, q, p)))
  ]
  first_moves (leaving i) e h = inr (_, unlock1 i e)
  first_moves inc_exit e h = inl refl

  second_moves :
      (p : Inc) → s.inc2 ≡ p → (s.mutex ≡ free) ⊎ (holds p ≡ true) → (p ≡ inc_exit) ⊎ Live s
  second_moves (top i) e (inl f) = elim (Bool-cases (ltb i tcount)) [
    | inl lt ↦ inr (_, lock2 i e (ltb→lt _ _ lt) f)
    | inr ge ↦ inr (_, exit2 i e (λ q. ground (arith, ge, q)))
  ]
  second_moves (top i) e (inr h) = cc
  second_moves (inside i) e h = elim (Bool-cases (suc s.count == count_limit)) [
    | inl q ↦ inr (_, reach2 i e ((==_iff _ _).0 q))
    | inr q ↦ inr (_, bump2 i e (λ p. grind (arith, q, p)))
  ]
  second_moves (leaving i) e h = inr (_, unlock2 i e)
  second_moves inc_exit e h = inl refl

  -- The watcher goes on with the mutex, or if it is free and it does not sleep.
  watch_moves :
      (w : Watch)
      → s.watch ≡ w
      → (s.mutex ≡ free) ⊎ (watches w ≡ true)
      → (w ≡ sleeps) ⊎ ((w ≡ watch_exit) ⊎ Live s)
  watch_moves begins e (inl f) = inr (inr (_, watch_lock e f))
  watch_moves begins e (inr h) = cc
  watch_moves tests e h = elim (Bool-cases (ltb s.count count_limit)) [
    | inl lt ↦ inr (inr (_, watch_wait e (ltb→lt _ _ lt)))
    | inr ge ↦ inr (inr (_, watch_leave e (λ q. ground (arith, ge, q))))
  ]
  watch_moves sleeps e h = inl refl
  watch_moves woken e (inl f) = inr (inr (_, watch_relock e f))
  watch_moves woken e (inr h) = cc
  watch_moves watch_exit e h = inr (inl refl)

  free_moves : s.mutex ≡ free → Over s ⊎ Live s
  free_moves f = elim (first_moves s.inc1 refl (inl f)) [
    | inr l ↦ inr l
    | inl e1 ↦ elim (second_moves s.inc2 refl (inl f)) [
      | inr l ↦ inr l
      | inl e2 ↦ elim (watch_moves s.watch refl (inl f)) [
        | inl e ↦ absurd (ground (arith, v.sum, v.watching, e, e1, e2))
        | inr (inl e) ↦ inl (e1, e2, e)
        | inr (inr l) ↦ inr l
      ]
    ]
  ]

  owner_moves : (o : Owner) → s.mutex ≡ o → Over s ⊎ Live s
  owner_moves free e = free_moves e
  owner_moves first e =
      let h : holds s.inc1 ≡ true = ground (arith, v.mutex1, e) in
      elim (first_moves s.inc1 refl (inr h)) [
        | inr l ↦ inr l
        | inl q ↦ absurd (ground (arith, h, q))
      ]
  owner_moves second e =
      let h : holds s.inc2 ≡ true = ground (arith, v.mutex2, e) in
      elim (second_moves s.inc2 refl (inr h)) [
        | inr l ↦ inr l
        | inl q ↦ absurd (ground (arith, h, q))
      ]
  owner_moves watcher e =
      let h : watches s.watch ≡ true = ground (arith, v.mutex3, e) in
      elim (watch_moves s.watch refl (inr h)) [
        | inl q ↦ absurd (ground (arith, h, q))
        | inr (inl q) ↦ absurd (ground (arith, h, q))
        | inr (inr l) ↦ inr l
      ]

-- From every reachable state a thread can go on without a spurious wake-up, until all three have
-- ended: the watcher's wake-up is not lost.
pub count_no_deadlock : {s : State} → Reach s → Over s ⊎ Live s
count_no_deadlock {s} r = owner_moves s (Reach-Inv r) s.mutex refl
