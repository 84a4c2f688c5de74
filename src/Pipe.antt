-- ===== src/Pipe.antt =====
-- 04-process-management/pipe.c: a parent writes a text into a pipe, and its child reads it into a
-- buffer that grows.
pub mod Buffer
pub mod Invariant
pub mod Progress
mod Tests
use linux_system_programming.Prelude.{
  ℕ, zero, suc, ◌+◌, ◌-◌, ◌*◌, ◌≤◌, ◌<◌, ◌≡◌, ◌≢◌, Option, none, some, List, [], ◌∷◌, ◌++◌, ltb,
  if◌then◌else◌, length, take, drop,
}
use linux_system_programming.Buffers.{put_byte, put_bytes, enlarge}
use linux_system_programming.Transfers.Print.{until_nul}

-- BUFSIZE
abbrev pub bufsize : ℕ
bufsize = 2

-- The child, with `cap`, `n` and its block.
pub data Child : Type 0 where
  starting : Child  -- at close(pd[1])
  reading : (cap n : ℕ) (buf : List ℕ) → Child  -- at read
  shown : (n : ℕ) (text : List ℕ) → Child  -- it has printed both and returned 0
  gave_up : Child  -- it has returned 1
  overrun : Child  -- it has written behind its block

pub data Parent : Type 0 where
  writing : Parent  -- at the test of the `while`
  returned : (code : ℕ) → Parent

-- `sent` is the parent's `n`.
pub record State : Type 0 where
  pub sent : ℕ
  pub parent : Parent
  pub stream : List ℕ
  pub child : Child

-- After `pipe` and `fork`.
abbrev pub init : State
init = record { sent = 0; parent = writing; stream = []; child = starting }

-- `n += m` and the test for room; `junk` is what realloc leaves behind the old bytes.
unfoldable pub more_room : ℕ → ℕ → ℕ → List ℕ → Child
unfolding enlarge
more_room junk cap n buf =
    if ltb (cap - bufsize) n
    then reading (cap * 2) n (enlarge junk buf (suc (cap * 2)))
    else reading cap n buf

-- read(pd[0], buf + n, BUFSIZE) where it returns these bytes.
unfoldable pub after_read : ℕ → ℕ → ℕ → List ℕ → List ℕ → Child
unfolding put_bytes more_room
after_read junk cap n buf bytes = elim (put_bytes buf n bytes) [
  | none ↦ overrun
  | some b ↦ more_room junk cap (n + length bytes) b
]

-- buf[n] = 0, and both lines printed.
unfoldable pub show_buffer : ℕ → List ℕ → Child
unfolding put_byte until_nul
show_buffer n buf = elim (put_byte buf n 0) [ none ↦ overrun | some b ↦ shown n (until_nul b) ]

-- A call of one of the two processes that returns. The pipe holds `capacity` bytes; `read` returns 0
-- once the parent has closed its end by returning.
pub data Move (text : List ℕ) (capacity : ℕ) (s : State) : State → Type 0 where
  writes :
      (m : ℕ)
      → s.parent ≡ writing
      → s.sent < length text
      → 0 < m
      → m ≤ length text - s.sent
      → length s.stream + m ≤ capacity
      → Move text capacity s
          (record s { sent = s.sent + m; stream = s.stream ++ take m (drop s.sent text) })
  write_interrupted : s.parent ≡ writing → s.sent < length text → Move text capacity s s
  write_fails :
      s.parent ≡ writing
      → s.sent < length text
      → Move text capacity s (record s { parent = returned 1 })
  closes :
      s.parent ≡ writing
      → ¬ (s.sent < length text)
      → Move text capacity s (record s { parent = returned 0 })
  close_fails :
      s.parent ≡ writing
      → ¬ (s.sent < length text)
      → Move text capacity s (record s { parent = returned 1 })
  starts :
      (buf : List ℕ)
      → s.child ≡ starting
      → length buf ≡ suc bufsize
      → Move text capacity s (record s { child = reading bufsize 0 buf })
  start_fails : s.child ≡ starting → Move text capacity s (record s { child = gave_up })
  reads :
      (junk cap n : ℕ) (buf bytes rest : List ℕ)
      → s.child ≡ reading cap n buf
      → s.stream ≡ bytes ++ rest
      → 0 < length bytes
      → length bytes ≤ bufsize
      → Move text capacity s (record s { stream = rest; child = after_read junk cap n buf bytes })
  read_ends :
      (cap n : ℕ) (buf : List ℕ)
      → s.child ≡ reading cap n buf
      → s.stream ≡ []
      → s.parent ≢ writing
      → Move text capacity s (record s { child = show_buffer n buf })
  read_fails :
      (cap n : ℕ) (buf : List ℕ)
      → s.child ≡ reading cap n buf
      → Move text capacity s (record s { child = gave_up })

pub data Reach (text : List ℕ) (capacity : ℕ) : State → Type 0 where
  begin : Reach text capacity init
  then_move :
      {s s' : State} → Reach text capacity s → Move text capacity s s' → Reach text capacity s'
