-- ===== src/Processes.antt =====
-- Processes and their descriptors: each program makes calls of which a list of Booleans says
-- whether they succeed, and a call that succeeds does to the table of descriptors what POSIX says.
pub mod Table
pub mod Rules
pub mod Pipeline
pub mod Piped
pub mod Redirect
pub mod Daemon
mod Tests
use linux_system_programming.Prelude.{
  ℕ, zero, suc, Bool, true, false, ◌&&◌, Option, none, some, List, [], ◌∷◌, ◌++◌,
}

-- What a descriptor stands for: what the process got from its parent, an end of its pipe, or a file
-- that it opened.
pub data File : Type 0 where
  inherited : (k : ℕ) → File
  reader writer : File
  named : (path : List ℕ) → File

-- By the number of the descriptor; none where it is closed, as behind the end.
abbrev pub Table : Type 0
Table = List (Option File)

abbrev pub at : Table → ℕ → Option File
at [] n = none
at (f ∷ t) zero = f
at (f ∷ t) (suc n) = at t n

abbrev pub put : Table → ℕ → Option File → Table
put [] zero g = g ∷ []
put [] (suc n) g = none ∷ put [] n g
put (f ∷ t) zero g = g ∷ t
put (f ∷ t) (suc n) g = f ∷ put t n g

-- The lowest descriptor that is closed.
abbrev pub lowest : Table → ℕ
lowest [] = 0
lowest (none ∷ t) = 0
lowest (some f ∷ t) = suc (lowest t)

abbrev pub is_open : Option File → Bool
is_open none = false
is_open (some f) = true

-- A child, with the table of its parent when it was forked, that calls `execvp`.
pub record Child : Type 0 where
  pub name : List ℕ
  pub args : List (List ℕ)
  pub table : Table

pub record World : Type 0 where
  pub table : Table
  pub children : List Child

-- How a run ends: with a value, by `exit`, or in a call that does not return; with the calls that
-- are left.
pub data Outcome (A : Type 0) : Type 0 where
  done : (a : A) (calls : List Bool) (world : World) → Outcome A
  exits : (code : ℕ) (world : World) → Outcome A
  waits : (world : World) → Outcome A

abbrev pub Proc : Type 0 → Type 0
Proc A = List Bool → World → Outcome A

abbrev pub pure : {A : Type 0} → A → Proc A
pure a calls w = done a calls w

abbrev pub exit : {A : Type 0} → ℕ → Proc A
exit code calls w = exits code w

abbrev pub and_then : {A B : Type 0} → Outcome A → (A → Proc B) → Outcome B
and_then (done a calls w) f = f a calls w
and_then (exits code w) f = exits code w
and_then (waits w) f = waits w

infixl 5 ◌>>=◌ ◌>>◌
abbrev pub ◌>>=◌ : {A B : Type 0} → Proc A → (A → Proc B) → Proc B
◌>>=◌ m f calls w = and_then (m calls w) f

abbrev pub ◌>>◌ : {A B : Type 0} → Proc A → Proc B → Proc B
m >> k = m >>= λ _. k

-- A call that succeeds with a value, or fails with -1.
abbrev pub call : {A : Type 0} → (World → Option (A × World)) → Proc (Option A)
call f [] w = waits w
call f (false ∷ calls) w = done none calls w
call f (true ∷ calls) w = elim (f w) [
  | none ↦ done none calls w
  | some (a, w') ↦ done (some a) calls w'
]

-- What the calls do where they succeed.
abbrev pub dup_effect : ℕ → World → Option (ℕ × World)
dup_effect fd w = elim (at w.table fd) [
  | none ↦ none
  | some f ↦ some (lowest w.table, record w { table = put w.table (lowest w.table) (some f) })
]

abbrev pub dup2_effect : ℕ → ℕ → World → Option (ℕ × World)
dup2_effect old new w = elim (at w.table old) [
  | none ↦ none
  | some f ↦ some (new, record w { table = put w.table new (some f) })
]

-- The two ends, with the lowest descriptors.
abbrev pub pipe_effect : World → Option ((ℕ × ℕ) × World)
pipe_effect w =
    let r = lowest w.table in
    let t = put w.table r (some reader) in
    some ((r, lowest t), record w { table = put t (lowest t) (some writer) })

abbrev pub open_effect : List ℕ → World → Option (ℕ × World)
open_effect path w =
    some (lowest w.table, record w { table = put w.table (lowest w.table) (some (named path)) })

abbrev pub spawn_effect : List ℕ → List (List ℕ) → World → Option (Unit {0} × World)
spawn_effect name args w = some (
  tt,
  record w { children = w.children ++ record { name = name; args = args; table = w.table } ∷ [] },
)

abbrev pub no_effect : World → Option (Unit {0} × World)
no_effect w = some (tt, w)

unfoldable pub dup : ℕ → Proc (Option ℕ)
dup fd = call (dup_effect fd)

unfoldable pub dup2 : ℕ → ℕ → Proc (Option ℕ)
dup2 old new = call (dup2_effect old new)

unfoldable pub pipe : Proc (Option (ℕ × ℕ))
pipe = call pipe_effect

unfoldable pub open_file : List ℕ → Proc (Option ℕ)
open_file path = call (open_effect path)

-- fork, with execvp in the child.
unfoldable pub spawn : List ℕ → List (List ℕ) → Proc (Option (Unit {0}))
spawn name args = call (spawn_effect name args)

-- wait, setsid, chdir: calls that leave the table as it is.
unfoldable pub other_call : Proc (Option (Unit {0}))
other_call = call no_effect

-- A close that fails at an open descriptor closes it all the same.
unfoldable pub close : ℕ → Proc (Option (Unit {0}))
close fd [] w = waits w
close fd (ok ∷ calls) w = elim (ok && is_open (at w.table fd)) [
  | true ↦ done (some tt) calls (record w { table = put w.table fd none })
  | false ↦ done none calls (record w { table = put w.table fd none })
]

-- `perror` and `exit(1)`, or `return 1` in `main`, where a call fails.
abbrev pub or_exit : {A : Type 0} → Proc (Option A) → Proc A
or_exit m = m >>= λ r. elim r [ none ↦ exit 1 | some a ↦ pure a ]
