-- ===== src/Hogwarts/Weights.antt =====
-- Elves counted by where they stand.
use linux_system_programming.Prelude.{
  ℕ, zero, suc, ◌+◌, ◌≤◌, ◌≡◌, refl, ap, ◌≢◌, ◌<◌, inl, inr, Bool-cases, some, List, [], ◌∷◌, arith,
  get_elem?, set, ◌==◌, if◌then◌else◌,
}
use linux_system_programming.Hogwarts.{
  Elf, idle, got, inside, took, counted, leaving, working, cancelled,
}

unfoldable pub total : (Elf → ℕ) → List Elf → ℕ
total w [] = 0
total w (e ∷ es) = w e + total w es

-- Writing one place moves the total by the difference.
pub total-set :
    (w : Elf → ℕ) (es : List Elf) (i : ℕ) (old new : Elf)
    → get_elem? es i ≡ some old
    → total w (set es i new) + w old ≡ total w es + w new
unfolding total
total-set w [] i old new h = cc
total-set w (e ∷ es) zero old new h = ground arith
total-set w (e ∷ es) (suc i) old new h = omega (arith, total-set w es i old new h)

pub le-total :
    (w : Elf → ℕ) (es : List Elf) (i : ℕ) (e : Elf) → get_elem? es i ≡ some e → w e ≤ total w es
unfolding total
le-total w [] i e h = cc
le-total w (x ∷ es) zero e h = ground arith
le-total w (x ∷ es) (suc i) e h = omega (arith, le-total w es i e h)

-- Past the semaphore, and no task taken yet.
abbrev pub wants : Elf → ℕ
wants got = 1
wants inside = 1
wants idle = 0
wants (took id) = 0
wants (counted id) = 0
wants (leaving id) = 0
wants (working id) = 0
wants cancelled = 0

-- With the mutex.
abbrev pub holds : Elf → ℕ
holds inside = 1
holds (took id) = 1
holds (counted id) = 1
holds (leaving id) = 1
holds idle = 0
holds got = 0
holds (working id) = 0
holds cancelled = 0

-- At the shared counters and the list.
abbrev pub touches : Elf → ℕ
touches inside = 1
touches (took id) = 1
touches (counted id) = 1
touches (leaving id) = 0
touches idle = 0
touches got = 0
touches (working id) = 0
touches cancelled = 0

-- A task taken and not counted off yet.
abbrev pub uncounted : Elf → ℕ
uncounted (took id) = 1
uncounted idle = 0
uncounted got = 0
uncounted inside = 0
uncounted (counted id) = 0
uncounted (leaving id) = 0
uncounted (working id) = 0
uncounted cancelled = 0

-- About to test whether the batch is done.
abbrev pub tests : Elf → ℕ
tests (counted id) = 1
tests idle = 0
tests got = 0
tests inside = 0
tests (took id) = 0
tests (leaving id) = 0
tests (working id) = 0
tests cancelled = 0

-- With the task `k` in hand.
abbrev pub carries : ℕ → Elf → ℕ
carries k (took id) = if k == id then 1 else 0
carries k (counted id) = if k == id then 1 else 0
carries k (leaving id) = if k == id then 1 else 0
carries k (working id) = if k == id then 1 else 0
carries k idle = 0
carries k got = 0
carries k inside = 0
carries k cancelled = 0

-- Elves that count off or test hold the mutex.
pub uncounted-tests-le : (es : List Elf) → total uncounted es + total tests es ≤ total holds es
unfolding total
uncounted-tests-le [] = omega arith
uncounted-tests-le (e ∷ es) = omega (arith, uncounted-tests-le es, one e)
  where
    one : (e : Elf) → uncounted e + tests e ≤ holds e
    one idle = omega arith
    one got = omega arith
    one inside = omega arith
    one (took id) = omega arith
    one (counted id) = omega arith
    one (leaving id) = omega arith
    one (working id) = omega arith
    one cancelled = omega arith

-- How the counts change when elf `i` goes from `old` to `new`.
pub record Moved (es : List Elf) (i : ℕ) (old new : Elf) : Type 0 where
  pub at_wants : total wants (set es i new) + wants old ≡ total wants es + wants new
  pub at_holds : total holds (set es i new) + holds old ≡ total holds es + holds new
  pub at_uncounted :
      total uncounted (set es i new) + uncounted old ≡ total uncounted es + uncounted new
  pub at_tests : total tests (set es i new) + tests old ≡ total tests es + tests new
  pub some_wants : wants old ≤ total wants es
  pub some_uncounted : uncounted old ≤ total uncounted es
  pub some_tests : tests old ≤ total tests es
  pub few : total uncounted es + total tests es ≤ total holds es

pub moved : (es : List Elf) (i : ℕ) (old new : Elf) → get_elem? es i ≡ some old → Moved es i old new
moved es i old new h = record {
  at_wants = total-set wants es i old new h;
  at_holds = total-set holds es i old new h;
  at_uncounted = total-set uncounted es i old new h;
  at_tests = total-set tests es i old new h;
  some_wants = le-total wants es i old h;
  some_uncounted = le-total uncounted es i old h;
  some_tests = le-total tests es i old h;
  few = uncounted-tests-le es;
}

-- Two places count twice.
pub le-total_two :
    (w : Elf → ℕ) (es : List Elf) (i j : ℕ) (e f : Elf)
    → i ≢ j
    → get_elem? es i ≡ some e
    → get_elem? es j ≡ some f
    → w e + w f ≤ total w es
unfolding total
le-total_two w [] i j e f ne h k = cc
le-total_two w (x ∷ es) zero zero e f ne h k = absurd (ne refl)
le-total_two w (x ∷ es) zero (suc j) e f ne h k = ground (arith, le-total w es j f k)
le-total_two w (x ∷ es) (suc i) zero e f ne h k = ground (arith, le-total w es i e h)
le-total_two w (x ∷ es) (suc i) (suc j) e f ne h k =
    omega (arith, le-total_two w es i j e f (λ q. ne (ap suc q)) h k)

-- A total above 0 has a place.
pub total_place :
    (w : Elf → ℕ) (es : List Elf)
    → 0 < total w es
    → (i : ℕ) × (e : Elf) × (get_elem? es i ≡ some e) × (0 < w e)
unfolding total
total_place w [] h = absurd (omega arith)
total_place w (x ∷ es) h = elim (Bool-cases (w x == 0)) [
  | inl q ↦ let (i, e, at, pos) = total_place w es (ground arith) in (suc i, e, at, pos)
  | inr q ↦ (0, x, refl, ground arith)
]
