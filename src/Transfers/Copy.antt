-- ===== src/Transfers/Copy.antt =====
-- 03-buffered-io/fwrite_copy.c: what the new file has.
use linux_system_programming.Prelude.{
  ℕ, zero, suc, ◌+◌, ◌*◌, ◌<◌, ◌≡◌, refl, ap, ◌∙◌, Bool, true, false, some, if◌then◌else◌, List, [],
  ◌∷◌, ◌++◌, arith, leb, length, take, drop, append_assoc, append-nil, length-drop,
}
use linux_system_programming.Transfers.{
  buf_size, all_read, copy_blocks, copied, Source, end_copy, copy_file,
}

pub take-add : (m k n : ℕ) (l : List ℕ) → n ≡ m + k → take m l ++ take k (drop m l) ≡ take n l
take-add zero k n l e = ap (λ i. take i l) (omega (arith, e))
take-add (suc m) k zero l e = ground (arith, e)
take-add (suc m) zero (suc n) [] e = refl
take-add (suc m) (suc k) (suc n) [] e = refl
take-add (suc m) k (suc n) (x ∷ l) e = ap (x ∷◌) (take-add m k n l (omega (arith, e)))

abbrev pub all_succeed : ℕ → Bool
all_succeed n = true

copy_blocks-take :
    (rounds k rest : ℕ) (src dst : List ℕ)
    → length src ≡ buf_size * k + rest
    → rest < buf_size
    → k < rounds
    → copy_blocks rounds all_succeed src dst ≡ all_read (dst ++ take (buf_size * k) src)
unfolding copy_blocks
copy_blocks-take zero k rest src dst e small enough = absurd (omega (arith, enough))
copy_blocks-take (suc rounds) zero rest src dst e small enough =
    let stop : leb buf_size (length src) ≡ false = ground (arith, e) in
    rw stop (ap all_read (rw append-nil refl))
copy_blocks-take (suc rounds) (suc k) rest src dst e small enough =
    let more : leb buf_size (length src) ≡ true = ground (arith, e) in
    rw more (
      copy_blocks-take rounds k rest (drop buf_size src) (dst ++ take buf_size src)
        (length-drop buf_size src ∙ omega (arith, e)) small (omega arith)
      ∙ ap all_read (
          append_assoc dst (take buf_size src) (take (buf_size * k) (drop buf_size src))
          ∙ ap (dst ++◌) (take-add buf_size (buf_size * k) (buf_size * suc k) src (omega arith))))

-- A file of `k` whole blocks and fewer than `buf_size` bytes more, where every call but the reading
-- of the source succeeds, with more rounds than whole blocks: the new file has the whole blocks, and
-- the bytes behind them are lost, though the program returns 0 unless reading has failed.
pub copy_file-whole :
    (rounds k rest : ℕ) (src : Source)
    → length src.bytes ≡ buf_size * k + rest
    → rest < buf_size
    → k < rounds
    → copy_file rounds 3 (some src) true true all_succeed true true
      ≡ copied (if src.fails then 1 else 0) (some (take (buf_size * k) src.bytes))
unfolding copy_file end_copy
copy_file-whole rounds k rest src e small enough =
    ap (end_copy src true true) (copy_blocks-take rounds k rest src.bytes [] e small enough)
