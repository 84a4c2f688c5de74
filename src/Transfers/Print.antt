-- ===== src/Transfers/Print.antt =====
-- 02-file-io/cat.c: print_file, which shows what it reads as C strings.
use linux_system_programming.Prelude.{
  ℕ, suc, ◌<◌, ◌≤◌, ◌≡◌, refl, sym, ap, ◌∙◌, Bool, true, none, some, List, [], ◌∷◌, ◌++◌, arith,
  ◌==◌, if◌then◌else◌, length, set, drop, replicate, length-append, length-drop, length-set,
  length-replicate, append_assoc, append-nil,
}
use linux_system_programming.Buffers.{put_byte}
use linux_system_programming.Buffers.Holds.{put_byte-ok}

-- READ_SIZE
abbrev pub read_size : ℕ
read_size = 500

-- What a call of read does: it hands over bytes, is at the end of the file, or fails.
pub data Chunk : Type 0 where
  chunk : (bytes : List ℕ) → Chunk
  at_eof chunk_interrupted chunk_failed : Chunk

-- How `print_file` ends, with what was shown; `overrun` for a write outside of `buffer`.
pub data Printed : Type 0 where
  printed : (out : List ℕ) → Printed
  print_error : (out : List ℕ) → Printed
  print_waits : (out : List ℕ) → Printed
  overrun : Printed

-- What printf("%s", …) shows.
unfoldable pub until_nul : List ℕ → List ℕ
until_nul [] = []
until_nul (b ∷ bs) = let rest = until_nul bs in if b == 0 then [] else b ∷ rest

-- read(fd, buffer, …): the bytes at the front of the buffer.
unfoldable pub read_into : List ℕ → List ℕ → List ℕ
read_into bytes buffer = bytes ++ drop (length bytes) buffer

-- The `while`.
unfoldable pub print_loop : List Chunk → List ℕ → List ℕ → Printed
unfolding read_into until_nul
print_loop [] buffer out = print_waits out
print_loop (chunk bytes ∷ calls) buffer out =
    elim (put_byte (read_into bytes buffer) (length bytes) 0) [
      | none ↦ overrun
      | some b ↦ print_loop calls b (out ++ until_nul b)
    ]
print_loop (at_eof ∷ calls) buffer out = printed out
print_loop (chunk_interrupted ∷ calls) buffer out = print_loop calls buffer out
print_loop (chunk_failed ∷ calls) buffer out = print_error out

unfoldable pub print_file : ℕ → List Chunk → Printed
unfolding print_loop
print_file junk calls = print_loop calls (replicate (suc read_size) junk) []

-- The calls hand over these chunks of at most READ_SIZE bytes, with any number of interruptions,
-- and then the end of the file.
pub data Hands : List Chunk → List (List ℕ) → Type 0 where
  hands_none : {calls : List Chunk} → Hands (at_eof ∷ calls) []
  hands_later :
      {calls : List Chunk} {chunks : List (List ℕ)}
      → Hands calls chunks
      → Hands (chunk_interrupted ∷ calls) chunks
  hands :
      {calls : List Chunk} {chunks : List (List ℕ)} (bytes : List ℕ)
      → length bytes ≤ read_size
      → Hands calls chunks
      → Hands (chunk bytes ∷ calls) (bytes ∷ chunks)

-- Of each chunk what stands before its first NUL.
abbrev pub texts : List (List ℕ) → List ℕ
texts [] = []
texts (bytes ∷ chunks) = until_nul bytes ++ texts chunks

until_nul-set :
    (bytes rest : List ℕ)
    → 0 < length rest
    → until_nul (set (bytes ++ rest) (length bytes) 0) ≡ until_nul bytes
unfolding until_nul
until_nul-set [] [] lt = absurd (omega (arith, lt))
until_nul-set [] (r ∷ rest) lt = refl
until_nul-set (b ∷ bytes) rest lt = rw (until_nul-set bytes rest lt) refl

pub length-read_into :
    (bytes buffer : List ℕ)
    → length bytes ≤ length buffer
    → length (read_into bytes buffer) ≡ length buffer
unfolding read_into
length-read_into bytes buffer le =
    omega
      (arith, length-append bytes (drop (length bytes) buffer), length-drop (length bytes) buffer)

pub until_nul-read_into :
    (bytes buffer : List ℕ)
    → length bytes < length buffer
    → until_nul (set (read_into bytes buffer) (length bytes) 0) ≡ until_nul bytes
unfolding read_into
until_nul-read_into bytes buffer lt =
    until_nul-set bytes (drop (length bytes) buffer)
      (omega (arith, length-drop (length bytes) buffer))

print_loop-texts :
    {calls : List Chunk} {chunks : List (List ℕ)} (buffer out : List ℕ)
    → length buffer ≡ suc read_size
    → Hands calls chunks
    → print_loop calls buffer out ≡ printed (out ++ texts chunks)
unfolding print_loop
print_loop-texts buffer out size hands_none = ap printed (sym (append-nil out))
print_loop-texts buffer out size (hands_later h) = print_loop-texts buffer out size h
print_loop-texts buffer out size (hands {calls = calls} {chunks = chunks} bytes le h) =
    let whole = length-read_into bytes buffer (omega (arith, le, size)) in
    let b = set (read_into bytes buffer) (length bytes) 0 in
    let puts =
      put_byte-ok (read_into bytes buffer) (length bytes) 0 (omega (arith, le, size, whole)) in
    let shows = until_nul-read_into bytes buffer (omega (arith, le, size)) in
    rw (print_loop, puts, shows)
      (print_loop-texts b (out ++ until_nul bytes)
          (length-set (read_into bytes buffer) (length bytes) 0 ∙ whole ∙ size) h
        ∙ ap printed (append_assoc out (until_nul bytes) (texts chunks)))

-- If the calls of read hand over chunks of at most READ_SIZE bytes, `print_file` ends, writes
-- nothing outside of its buffer, and shows of each chunk what stands before its first NUL.
pub print_file-texts :
    (junk : ℕ) (calls : List Chunk) (chunks : List (List ℕ))
    → Hands calls chunks
    → print_file junk calls ≡ printed (texts chunks)
unfolding print_file
print_file-texts junk calls chunks h =
    print_loop-texts (replicate (suc read_size) junk) [] (length-replicate (suc read_size) junk) h

-- How `main` of cat.c ends: with its exit code and what was shown, or as its loop does.
pub data Cat : Type 0 where
  exits : (code : ℕ) (out : List ℕ) → Cat
  cat_waits : (out : List ℕ) → Cat
  cat_overrun : Cat

-- The close of the file, and the return.
unfoldable pub close_file : Bool → Printed → Cat
close_file closes (printed out) = exits (if closes then 0 else 1) out
close_file closes (print_error out) = exits (if closes then 0 else 1) out
close_file closes (print_waits out) = cat_waits out
close_file closes overrun = cat_overrun

-- `opens` and `closes` say whether open and close succeed.
unfoldable pub main : ℕ → ℕ → Bool → List Chunk → Bool → Cat
unfolding print_file close_file
main junk argc opens calls closes =
    if argc == 2
    then (if opens then close_file closes (print_file junk calls) else exits 1 [])
    else exits 1 []

-- For chunks as read hands them over, `main` shows of each what stands before its first NUL, writes
-- nothing outside of its buffer, and returns 1 only if the close fails.
pub cat_main-texts :
    (junk : ℕ) (calls : List Chunk) (chunks : List (List ℕ)) (closes : Bool)
    → Hands calls chunks
    → main junk 2 true calls closes ≡ exits (if closes then 0 else 1) (texts chunks)
unfolding main close_file
cat_main-texts junk calls chunks closes h =
    ap (close_file closes) (print_file-texts junk calls chunks h)
