-- ===== src/Kmp/File.antt =====
-- 02-file-io/kmp.c: the file that is read into memory, and the program as a whole.
use linux_system_programming.Prelude.{
  ℕ, ◌+◌, ◌*◌, ◌≤◌, Bool, Option, none, some, List, [], ◌∷◌, ◌++◌, ℤ, int_max, ltb, leb,
  if◌then◌else◌, length, take, drop, replicate,
}
use linux_system_programming.Buffers.{put_byte, enlarge}
use linux_system_programming.Transfers.Print.{Chunk, chunk, at_eof, chunk_interrupted, chunk_failed}
use linux_system_programming.Kmp.{Report, find}

-- READ_SIZE
abbrev pub read_size : ℕ
read_size = 512

-- read(fd, sb->text + n, READ_SIZE), which hands over these bytes; nothing if they leave the block.
unfoldable pub read_behind : List ℕ → ℕ → List ℕ → Option (List ℕ)
read_behind bytes n block =
    if ltb (length block) (n + length bytes)
    then none
    else some (take n block ++ (bytes ++ drop (n + length bytes) block))

-- How `read_str_buf` ends: with 0, the block and the length; with -1; in a call of read that does
-- not return; or with a write outside of the block or an `int` that overflows.
pub data Loaded : Type 0 where
  loaded : (block : List ℕ) (n : ℕ) → Loaded
  load_fails load_waits load_overrun : Loaded

-- The `if` at the end of the `while`: the capacity and the block; nothing where 2 * capacity
-- overflows.
unfoldable pub grow : ℕ → ℕ → ℕ → List ℕ → Option (ℕ × List ℕ)
grow junk capacity n block =
    if ltb capacity (n + read_size)
    then (if leb (capacity * 2) int_max
        then some (capacity * 2, enlarge junk block (capacity * 2 + 1))
        else none)
    else some (capacity, block)

-- The bytes of a read, and the NUL behind them.
unfoldable pub take_in : List ℕ → ℕ → List ℕ → Option (List ℕ)
unfolding read_behind put_byte
take_in bytes n block = elim (read_behind bytes n block) [
  | none ↦ none
  | some b ↦ put_byte b (n + length bytes) 0
]

-- The `while`; a read that returns -1 ends it, EINTR included, since r is compared with EINTR.
unfoldable pub load_loop : ℕ → List Chunk → ℕ → ℕ → List ℕ → Loaded
unfolding take_in grow
load_loop junk [] capacity n block = load_waits
load_loop junk (at_eof ∷ calls) capacity n block = loaded block n
load_loop junk (chunk_interrupted ∷ calls) capacity n block = load_fails
load_loop junk (chunk_failed ∷ calls) capacity n block = load_fails
load_loop junk (chunk [] ∷ calls) capacity n block = loaded block n
load_loop junk (chunk (c ∷ cs) ∷ calls) capacity n block = elim (take_in (c ∷ cs) n block) [
  | none ↦ load_overrun
  | some b ↦ elim (grow junk capacity (n + length (c ∷ cs)) b) [
    | none ↦ load_overrun
    | some (capacity', b') ↦ load_loop junk calls capacity' (n + length (c ∷ cs)) b'
  ]
]

-- `close`, whose failure is one of `read_str_buf`.
abbrev pub closing : Bool → Loaded → Loaded
closing closes (loaded block n) = if closes then loaded block n else load_fails
closing closes load_fails = load_fails
closing closes load_waits = load_waits
closing closes load_overrun = load_overrun

-- `opens` and `closes` say whether open and close succeed.
unfoldable pub read_str_buf : Bool → Bool → ℕ → List Chunk → Loaded
unfolding load_loop
read_str_buf opens closes junk calls =
    if opens
    then closing closes (load_loop junk calls read_size 0 (replicate (read_size + 1) junk))
    else load_fails

-- How `main` ends: with 1, with 0 and what `find` did, not at all, or with an access out of bounds
-- or an `int` that overflows.
pub data Ended : Type 0 where
  gives_up : Ended
  finds : (report : Report) → Ended
  unfinished : Ended
  out_of_bounds : Ended

abbrev pub found : Option Report → Ended
found none = out_of_bounds
found (some report) = finds report

-- `main` with a file and a pattern; `creates` says whether the output file opens.
unfoldable pub main : Bool → Bool → Bool → (ℕ → Bool) → ℕ → List ℤ → List Chunk → List ℕ → Ended
unfolding read_str_buf find
main opens closes creates writes junk raw calls pattern =
    elim (read_str_buf opens closes junk calls) [
      | loaded block n ↦ found (find creates writes raw (take n block) pattern)
      | load_fails ↦ gives_up
      | load_waits ↦ unfinished
      | load_overrun ↦ out_of_bounds
    ]

-- The calls of read hand over the file in chunks of one byte to READ_SIZE bytes, and then its end.
pub data Gives : List Chunk → List ℕ → Type 0 where
  gives_end : {calls : List Chunk} → Gives (at_eof ∷ calls) []
  gives :
      {calls : List Chunk} {file : List ℕ} (c : ℕ) (cs : List ℕ)
      → length (c ∷ cs) ≤ read_size
      → Gives calls file
      → Gives (chunk (c ∷ cs) ∷ calls) ((c ∷ cs) ++ file)
