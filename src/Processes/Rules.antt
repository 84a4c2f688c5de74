-- ===== src/Processes/Rules.antt =====
-- What a run ensures: a condition on the value and the world where it returns, that it exits only
-- where a call failed, and that it waits only for want of replies.
use linux_system_programming.Prelude.{
  ℕ, ◌+◌, ◌≤◌, ◌<◌, ◌≡◌, refl, Bool, true, false, Option, none, some, List, [], ◌∷◌, ◌++◌, arith,
  length, Bool-cases, inl, inr,
}
use linux_system_programming.Processes.{
  File, reader, writer, named, Table, at, put, lowest, is_open, World, Outcome, done, exits, waits,
  Proc, pure, and_then, ◌>>=◌, ◌>>◌, call, or_exit, dup_effect, dup2_effect, pipe_effect,
  open_effect, spawn_effect, no_effect, dup, dup2, open_file, pipe, spawn, other_call, close,
}

-- A call fails.
abbrev pub AnyFails : List Bool → Type 0
AnyFails [] = ⊥
AnyFails (true ∷ calls) = AnyFails calls
AnyFails (false ∷ calls) = Unit

-- For a run on `calls` of which it takes at most `k`.
abbrev pub Ensures : {A : Type 0} → (A → World → Type 0) → ℕ → List Bool → Outcome A → Type 0
Ensures P k calls (done a rest w) =
    P a w × (length calls ≤ length rest + k) × (AnyFails rest → AnyFails calls)
Ensures P k calls (exits code w) = AnyFails calls
Ensures P k calls (waits w) = length calls < k

pub record Spec {A : Type 0} (P : A → World → Type 0) (k : ℕ) (m : Proc A) (w : World)
    : Type 0 where
  pub ensures : (calls : List Bool) → Ensures P k calls (m calls w)

module _ {A : Type 0} where
  pub pure-Spec : (P : A → World → Type 0) (a : A) (w : World) → P a w → Spec P 0 (pure a) w
  pure-Spec P a w p = record { ensures = λ calls. (p, omega arith, λ h. h) }

  call-Ensures :
      (P : A → World → Type 0) (f : World → Option (A × World)) (a : A) (w w' : World)
      → f w ≡ some (a, w')
      → P a w'
      → (calls : List Bool) → Ensures P 1 calls (or_exit (call f) calls w)
  call-Ensures P f a w w' e p [] = omega arith
  call-Ensures P f a w w' e p (false ∷ calls) = tt
  call-Ensures P f a w w' e p (true ∷ calls) = rw (Ensures, e) (p, omega arith, λ h. h)

  -- A call that would return `a` in `w'`, with `exit` where it fails.
  pub call-Spec :
      (P : A → World → Type 0) (f : World → Option (A × World)) (a : A) (w w' : World)
      → f w ≡ some (a, w')
      → P a w'
      → Spec P 1 (or_exit (call f)) w
  call-Spec P f a w w' e p = record { ensures = call-Ensures P f a w w' e p }

  ignored-Ensures :
      (Q : Option A → World → Type 0) (f : World → Option (A × World)) (a : A) (w w' : World)
      → f w ≡ some (a, w')
      → Q (some a) w'
      → Q none w
      → (calls : List Bool) → Ensures Q 1 calls (call f calls w)
  ignored-Ensures Q f a w w' e p q [] = omega arith
  ignored-Ensures Q f a w w' e p q (false ∷ calls) = (q, omega arith, λ h. tt)
  ignored-Ensures Q f a w w' e p q (true ∷ calls) = rw (Ensures, e) (p, omega arith, λ h. h)

  -- The same where the result is dropped.
  pub ignored-Spec :
      (Q : Option A → World → Type 0) (f : World → Option (A × World)) (a : A) (w w' : World)
      → f w ≡ some (a, w')
      → Q (some a) w'
      → Q none w
      → Spec Q 1 (call f) w
  ignored-Spec Q f a w w' e p q = record { ensures = ignored-Ensures Q f a w w' e p q }

module _ {A B : Type 0} (Q : B → World → Type 0) (k k' : ℕ) (m : Proc A) (f : A → Proc B) where
  later-Ensures :
      (calls : List Bool) (o : Outcome A)
      → Ensures (λ a w. Spec Q k' (f a) w) k calls o
      → Ensures Q (k + k') calls (and_then o f)
  later-Ensures calls (done a rest w) h = both_ensure (f a rest w) (h.0.ensures rest)
    where
      both_ensure : (o : Outcome B) → Ensures Q k' rest o → Ensures Q (k + k') calls o
      both_ensure (done b rest' w') g = (g.0, omega (arith, g.1, h.1), λ any. h.2 (g.2 any))
      both_ensure (exits code w') g = h.2 g
      both_ensure (waits w') g = omega (arith, g, h.1)
  later-Ensures calls (exits code w) h = h
  later-Ensures calls (waits w) h = omega (arith, h)

  -- A run and what follows it.
  pub Spec-bind :
      (w : World) → Spec (λ a w'. Spec Q k' (f a) w') k m w → Spec Q (k + k') (m >>= f) w
  Spec-bind w h = record { ensures = λ calls. later-Ensures calls (m calls w) (h.ensures calls) }

-- The calls where they would succeed.
module _ (P : ℕ → World → Type 0) (w : World) where
  pub dup-Spec :
      (fd : ℕ) (f : File)
      → at w.table fd ≡ some f
      → P (lowest w.table) (record w { table = put w.table (lowest w.table) (some f) })
      → Spec P 1 (or_exit (dup fd)) w
  unfolding dup
  dup-Spec fd f e p = call-Spec P (dup_effect fd) (lowest w.table) w _ (rw (dup_effect, e) refl) p

  pub dup2-Spec :
      (old new : ℕ) (f : File)
      → at w.table old ≡ some f
      → P new (record w { table = put w.table new (some f) })
      → Spec P 1 (or_exit (dup2 old new)) w
  unfolding dup2
  dup2-Spec old new f e p = call-Spec P (dup2_effect old new) new w _ (rw (dup2_effect, e) refl) p

  pub open_file-Spec :
      (path : List ℕ)
      → P (lowest w.table) (record w { table = put w.table (lowest w.table) (some (named path)) })
      → Spec P 1 (or_exit (open_file path)) w
  unfolding open_file
  open_file-Spec path p = call-Spec P (open_effect path) (lowest w.table) w _ refl p

-- The table that `pipe` leaves.
abbrev pub piped : Table → Table
piped t =
    put (put t (lowest t) (some reader)) (lowest (put t (lowest t) (some reader))) (some writer)

pub pipe-Spec :
    (P : ℕ × ℕ → World → Type 0) (w : World)
    → P
        (lowest w.table, lowest (put w.table (lowest w.table) (some reader)))
        (record w { table = piped w.table })
    → Spec P 1 (or_exit pipe) w
unfolding pipe
pipe-Spec P w p = call-Spec P pipe_effect _ w _ refl p

module _ (P : Unit {0} → World → Type 0) (w : World) where
  pub spawn-Spec :
      (name : List ℕ) (args : List (List ℕ))
      → P tt (record w {
        children = w.children ++ record { name = name; args = args; table = w.table } ∷ [];
      })
      → Spec P 1 (or_exit (spawn name args)) w
  unfolding spawn
  spawn-Spec name args p = call-Spec P (spawn_effect name args) tt w _ refl p

  pub other_call-Spec : P tt w → Spec P 1 (or_exit other_call) w
  unfolding other_call
  other_call-Spec p = call-Spec P no_effect tt w _ refl p

  close-Ensures :
      (fd : ℕ) (f : File)
      → at w.table fd ≡ some f
      → P tt (record w { table = put w.table fd none })
      → (calls : List Bool) → Ensures P 1 calls (or_exit (close fd) calls w)
  unfolding close
  close-Ensures fd f e p [] = omega arith
  close-Ensures fd f e p (false ∷ calls) = tt
  close-Ensures fd f e p (true ∷ calls) = rw (Ensures, e) (p, omega arith, λ h. h)

  pub close-Spec :
      (fd : ℕ) (f : File)
      → at w.table fd ≡ some f
      → P tt (record w { table = put w.table fd none })
      → Spec P 1 (or_exit (close fd)) w
  close-Spec fd f e p = record { ensures = close-Ensures fd f e p }

-- A close whose result is dropped closes the descriptor in any case.
module _ (Q : Option (Unit {0}) → World → Type 0) (w : World) (fd : ℕ)
    (q : (r : Option (Unit {0})) → Q r (record w { table = put w.table fd none })) where
  close_ignored-Ensures : (calls : List Bool) → Ensures Q 1 calls (close fd calls w)
  unfolding close
  close_ignored-Ensures [] = omega arith
  close_ignored-Ensures (false ∷ calls) = (q none, omega arith, λ h. tt)
  close_ignored-Ensures (true ∷ calls) = elim (Bool-cases (is_open (at w.table fd))) [
    | inl e ↦ rw (Ensures, e) (q (some tt), omega arith, λ h. h)
    | inr e ↦ rw (Ensures, e) (q none, omega arith, λ h. h)
  ]

  pub close_ignored-Spec : Spec Q 1 (close fd) w
  close_ignored-Spec = record { ensures = close_ignored-Ensures }

-- A descriptor is closed by a close whose result is dropped, for what follows.
pub close-then :
    {A : Type 0} (k : Proc A) (fd : ℕ) (ok : Bool) (calls : List Bool) (w : World)
    → (close fd >> k) (ok ∷ calls) w ≡ k calls (record w { table = put w.table fd none })
unfolding close
close-then k fd false calls w = refl
close-then k fd true calls w = elim (Bool-cases (is_open (at w.table fd))) [
  | inl e ↦ rw (e, close) refl
  | inr e ↦ rw (e, close) refl
]
