-- ===== src/Transfers.antt =====
-- Loops that hand bytes to the kernel: write_all of 02-file-io/kmp.c, sendall of
-- 00-network-programming/examples/chat/client.c, send_file of
-- 04-process-management/file_server.c, the copy of 03-buffered-io/fwrite_copy.c, and in its
-- submodule Print print_file of 02-file-io/cat.c.
pub mod Short
pub mod SendFile
pub mod Copy
pub mod Print
mod Tests
use linux_system_programming.Prelude.{
  ℕ, zero, suc, ◌+◌, ◌-◌, Bool, true, false, not, ◌&&◌, ◌==◌, Option, none, some, List, [], ◌∷◌,
  ◌++◌, ltb, leb, if◌then◌else◌, length, take, drop,
}

-- What a call of write or send does: it takes `n` bytes at the front of what it is given, or
-- fails, with EINTR or with another error.
pub data Call : Type 0 where
  took : (n : ℕ) → Call
  interrupted failed : Call

-- How a loop ends: with 0 or with -1, and what the kernel took; `blocked` where no call returns.
pub data Sent : Type 0 where
  all_sent : (out : List ℕ) → Sent
  error : (out : List ℕ) → Sent
  blocked : (out : List ℕ) → Sent

-- The `while` of `write_all`: `len` shrinks, and `buf + i` stays where it is, since `i` is 0.
unfoldable pub write_loop : List Call → List ℕ → ℕ → List ℕ → Sent
write_loop [] buf len out = if ltb 0 len then blocked out else all_sent out
write_loop (took n ∷ calls) buf len out =
    let rest = write_loop calls buf (len - n) (out ++ take n buf) in
    if ltb 0 len then rest else all_sent out
write_loop (interrupted ∷ calls) buf len out =
    let rest = write_loop calls buf len out in if ltb 0 len then rest else all_sent out
write_loop (failed ∷ calls) buf len out = if ltb 0 len then error out else all_sent out

unfoldable pub write_all : List Call → List ℕ → Sent
unfolding write_loop
write_all calls buf = write_loop calls buf (length buf) []

-- The `while` of `sendall`: `i` grows, and each call is given `buf` and `len` anew.
unfoldable pub send_loop : List Call → List ℕ → ℕ → List ℕ → Sent
send_loop [] buf i out = if ltb i (length buf) then blocked out else all_sent out
send_loop (took n ∷ calls) buf i out =
    let rest = send_loop calls buf (i + n) (out ++ take n buf) in
    if ltb i (length buf) then rest else all_sent out
send_loop (interrupted ∷ calls) buf i out =
    let rest = send_loop calls buf i out in if ltb i (length buf) then rest else all_sent out
send_loop (failed ∷ calls) buf i out = if ltb i (length buf) then error out else all_sent out

unfoldable pub sendall : List Call → List ℕ → Sent
unfolding send_loop
sendall calls buf = send_loop calls buf 0 []

-- What a call of read for one byte does.
pub data Read : Type 0 where
  byte : (c : ℕ) → Read
  eof : Read
  read_interrupted read_failed : Read

-- What a call of send for one byte does: it returns 1, 0 or -1.
pub data Send : Type 0 where
  sent_one sent_none send_failed : Send

-- How `send_file` ends: its result, and what was sent.
pub data Served : Type 0 where
  returns : (code : ℕ) (out : List ℕ) → Served
  returns_error : (out : List ℕ) → Served  -- -1
  waits : (out : List ℕ) → Served

-- The inner `while`: whether the byte went out, and the calls of send that are left; nothing
-- where no call returns.
pub data Push : Type 0 where
  pushed : (left : List Send) → Push
  push_failed : Push
  push_waits : Push

unfoldable pub push_byte : List Send → Push
push_byte [] = push_waits
push_byte (sent_one ∷ sends) = pushed sends
push_byte (sent_none ∷ sends) = push_byte sends
push_byte (send_failed ∷ sends) = push_failed

-- The outer `while`.
unfoldable pub file_loop : List Read → List Send → List ℕ → Served
unfolding push_byte
file_loop [] sends out = waits out
file_loop (byte c ∷ reads) sends out = elim (push_byte sends) [
  | pushed left ↦ file_loop reads left (out ++ c ∷ [])
  | push_failed ↦ returns 1 out
  | push_waits ↦ waits out
]
file_loop (eof ∷ reads) sends out = returns 1 out
file_loop (read_interrupted ∷ reads) sends out = file_loop reads sends out
file_loop (read_failed ∷ reads) sends out = returns_error out

-- `opens` says whether `open` succeeds.
unfoldable pub send_file : Bool → List Read → List Send → Served
unfolding file_loop
send_file opens reads sends = if opens then file_loop reads sends [] else returns_error []

-- BUF_SIZE
abbrev pub buf_size : ℕ
buf_size = 512

-- How the `while` of fwrite_copy.c ends, with what was handed to `dst_stream`.
pub data Blocks : Type 0 where
  all_read : (dst : List ℕ) → Blocks
  not_written : (dst : List ℕ) → Blocks
  out_of_rounds : Blocks

-- The `while` on the bytes that are left, with rounds as fuel: fread hands over a whole block or
-- nothing. `writes n` says whether fwrite succeeds behind `n` bytes.
unfoldable pub copy_blocks : ℕ → (ℕ → Bool) → List ℕ → List ℕ → Blocks
copy_blocks zero writes src dst = out_of_rounds
copy_blocks (suc rounds) writes src dst =
    let rest = copy_blocks rounds writes (drop buf_size src) (dst ++ take buf_size src) in
    if leb buf_size (length src)
    then (if writes (length dst) then rest else not_written dst)
    else all_read dst

-- How fwrite_copy.c ends: with its exit code, and the new file if it was created.
pub data Copied : Type 0 where
  copied : (code : ℕ) (file : Option (List ℕ)) → Copied
  never : Copied

-- What fopen gives for the source: its bytes, and whether an error stands behind them.
pub record Source : Type 0 where
  pub bytes : List ℕ
  pub fails : Bool

-- Behind the `while`: ferror and both fclose.
unfoldable pub end_copy : Source → Bool → Bool → Blocks → Copied
end_copy src closes_src closes_dst (all_read dst) =
    copied (if src.fails then 1 else if closes_src && closes_dst then 0 else 1) (some dst)
end_copy src closes_src closes_dst (not_written dst) = copied 1 (some dst)
end_copy src closes_src closes_dst out_of_rounds = never

-- `opens` and `fdopens` say whether open and fdopen succeed.
unfoldable pub copy_file : ℕ → ℕ → Option Source → Bool → Bool → (ℕ → Bool) → Bool → Bool → Copied
unfolding copy_blocks end_copy
copy_file rounds argc none opens fdopens writes closes_src closes_dst = copied 1 none
copy_file rounds argc (some src) opens fdopens writes closes_src closes_dst =
    if not (argc == 3)
    then copied 1 none
    else if not opens
    then copied 1 none
    else if not fdopens
    then copied 1 (some [])
    else end_copy src closes_src closes_dst (copy_blocks rounds writes src.bytes [])
