-- ===== src/Buffers.antt =====
-- Allocated blocks of bytes, as the functions that read lines and files fill and enlarge them.
-- What a block holds before it is written is arbitrary.
pub mod Holds
pub mod Shell
pub mod Server
pub mod Reply
pub mod Tokens
pub mod Stream
mod Tests
use linux_system_programming.Prelude.{
  ℕ, zero, suc, ◌-◌, Option, none, some, List, [], ◌∷◌, ◌++◌, ltb, if◌then◌else◌, length, set,
  replicate,
}

-- `buf[i] = v`; nothing for a write outside of the block.
unfoldable pub put_byte : List ℕ → ℕ → ℕ → Option (List ℕ)
put_byte buf i v = if ltb i (length buf) then some (set buf i v) else none

-- A larger `realloc`: the bytes stay, and `junk` lies behind them.
unfoldable pub enlarge : ℕ → List ℕ → ℕ → List ℕ
enlarge junk buf size = buf ++ replicate (size - length buf) junk

-- for(int i=0; i<len; ++i) tmp[i] = buf[i];
unfoldable pub copy_bytes : ℕ → List ℕ → List ℕ → List ℕ
copy_bytes zero buf tmp = tmp
copy_bytes (suc len) (b ∷ buf) (t ∷ tmp) = b ∷ copy_bytes len buf tmp
copy_bytes (suc len) [] tmp = tmp
copy_bytes (suc len) (b ∷ buf) [] = []

-- Bytes written from `buf + n` on, one after the other; nothing for a write outside of the block.
unfoldable pub put_bytes : List ℕ → ℕ → List ℕ → Option (List ℕ)
unfolding put_byte
put_bytes buf n [] = some buf
put_bytes buf n (c ∷ cs) = elim (put_byte buf n c) [ none ↦ none | some b ↦ put_bytes b (suc n) cs ]
