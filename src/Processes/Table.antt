-- ===== src/Processes/Table.antt =====
-- Reads and writes of a table of descriptors.
use linux_system_programming.Prelude.{
  ℕ, zero, suc, ◌≡◌, ◌≢◌, refl, Option, none, some, [], ◌∷◌, arith, ◌==◌, if◌then◌else◌,
}
use linux_system_programming.Processes.{File, Table, at, put, lowest}

pub at-put_self : (t : Table) (n : ℕ) (g : Option File) → at (put t n g) n ≡ g
at-put_self [] zero g = refl
at-put_self [] (suc n) g = at-put_self [] n g
at-put_self (f ∷ t) zero g = refl
at-put_self (f ∷ t) (suc n) g = at-put_self t n g

pub at-put_ne : (t : Table) (n m : ℕ) (g : Option File) → n ≢ m → at (put t n g) m ≡ at t m
at-put_ne [] zero zero g ne = absurd (ne refl)
at-put_ne [] zero (suc m) g ne = refl
at-put_ne [] (suc n) zero g ne = refl
at-put_ne [] (suc n) (suc m) g ne = at-put_ne [] n m g (λ e. ne (ground (arith, e)))
at-put_ne (f ∷ t) zero zero g ne = absurd (ne refl)
at-put_ne (f ∷ t) zero (suc m) g ne = refl
at-put_ne (f ∷ t) (suc n) zero g ne = refl
at-put_ne (f ∷ t) (suc n) (suc m) g ne = at-put_ne t n m g (λ e. ne (ground (arith, e)))

pub at-lowest : (t : Table) → at t (lowest t) ≡ none
at-lowest [] = refl
at-lowest (none ∷ t) = refl
at-lowest (some f ∷ t) = at-lowest t

-- An open descriptor is not the lowest closed one.
pub lowest-ne : (t : Table) (n : ℕ) (f : File) → at t n ≡ some f → lowest t ≢ n
lowest-ne t n f e q = ground (arith, e, q, at-lowest t)

pub at-put :
    (t : Table) (n m : ℕ) (g : Option File) → at (put t n g) m ≡ (if n == m then g else at t m)
at-put [] zero zero g = ground arith
at-put [] zero (suc m) g = ground arith
at-put [] (suc n) zero g = ground arith
at-put [] (suc n) (suc m) g = ground (arith, at-put [] n m g)
at-put (f ∷ t) zero zero g = ground arith
at-put (f ∷ t) zero (suc m) g = ground arith
at-put (f ∷ t) (suc n) zero g = ground arith
at-put (f ∷ t) (suc n) (suc m) g = ground (arith, at-put t n m g)
