-- ===== src/Kernel/Count.antt =====
-- Descriptors in a log: how often one was handed out, and how often it was closed.
use linux_system_programming.Prelude.{
  ℕ, ◌+◌, ◌≡◌, ◌<◌, ◌≤◌, List, [], ◌∷◌, ℤ, pos, negsuc, ◌==◌, if◌then◌else◌, length, arith,
}
use linux_system_programming.Kernel.{Call, Reply, Event, as_int, Outcome, done, exits, waits}

-- 1 if the descriptor is `d`.
abbrev pub same : ℕ → ℤ → ℕ
same d (pos n) = if n == d then 1 else 0
same d (negsuc n) = 0

abbrev pub opens : ℕ → Call → ℤ → ℕ
opens d (Call.socket f t) sd = same d sd
opens d (Call.accept s) sd = same d sd
opens d (Call.dup s) sd = same d sd
opens d (Call.open_file p) sd = same d sd
opens d _ sd = 0

abbrev pub closes : ℕ → Call → ℕ
closes d (Call.close sd) = same d sd
closes d _ = 0

-- How often the calls handed out `d`.
abbrev pub opened : ℕ → List Event → ℕ
opened d [] = 0
opened d (e ∷ log) = opens d e.call (as_int e.reply) + opened d log

-- How often `d` was closed.
abbrev pub closed : ℕ → List Event → ℕ
closed d [] = 0
closed d (e ∷ log) = closes d e.call + closed d log

-- Between two logs `d` was handed out `n` times more often than it was closed.
abbrev pub Leaves : ℕ → ℕ → List Event → List Event → Type 0
Leaves d n before after = opened d after + closed d before ≡ opened d before + closed d after + n

-- How a run of calls ends, for the descriptor `d`: if it returns `a`, it has left `d` open
-- `left a` times; and it waits only if there were fewer than `k` replies. A run that calls `exit`
-- leaves nothing, since the kernel closes all then.
abbrev pub Ends : {A : Type 0} → (A → ℕ) → ℕ → ℕ → List Reply → List Event → Outcome A → Type 0
Ends left d k replies log (done a rest log') = Leaves d (left a) log log'
Ends left d k replies log (exits code log') = Unit
Ends left d k replies log (waits log') = length replies < k

-- As `Ends`, for a run that does not call `exit`.
abbrev pub Returns : {A : Type 0} → (A → ℕ) → ℕ → ℕ → List Reply → List Event → Outcome A → Type 0
Returns left d k replies log (done a rest log') = Leaves d (left a) log log'
Returns left d k replies log (exits code log') = ⊥
Returns left d k replies log (waits log') = length replies < k

-- Calls before a run that leave `d` as it was.
pub Ends-later :
    {A : Type 0} (left : A → ℕ) (d k k' : ℕ) (replies replies' : List Reply) (log log' : List Event)
    (o : Outcome A)
    → Leaves d 0 log log'
    → length replies + k' ≤ length replies' + k
    → Ends left d k' replies' log' o
    → Ends left d k replies log o
Ends-later left d k k' replies replies' log log' (done a rest log'') l le e = omega (arith, l, e)
Ends-later left d k k' replies replies' log log' (exits code log'') l le e = tt
Ends-later left d k k' replies replies' log log' (waits log'') l le e = omega (arith, le, e)

pub Returns-later :
    {A : Type 0} (left : A → ℕ) (d k k' : ℕ) (replies replies' : List Reply) (log log' : List Event)
    (o : Outcome A)
    → Leaves d 0 log log'
    → length replies + k' ≤ length replies' + k
    → Returns left d k' replies' log' o
    → Returns left d k replies log o
Returns-later left d k k' replies replies' log log' (done a rest log'') l le e = omega (arith, l, e)
Returns-later left d k k' replies replies' log log' (exits code log'') l le e = e
Returns-later left d k k' replies replies' log log' (waits log'') l le e = omega (arith, le, e)
