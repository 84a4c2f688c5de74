-- ===== src/Transfers/Short.antt =====
-- What `write_all` and `sendall` send when the kernel takes less than it is given.
use linux_system_programming.Prelude.{
  ℕ, ◌+◌, ◌-◌, ◌<◌, ◌≤◌, ◌≡◌, refl, ap, ◌∙◌, List, [], ◌∷◌, ◌++◌, arith, ltb, true, false, length,
  take, map, append_assoc, append-nil,
}
use linux_system_programming.Transfers.{
  Call, took, interrupted, all_sent, write_loop, write_all, send_loop, sendall,
}

abbrev pub sum : List ℕ → ℕ
sum [] = 0
sum (n ∷ ns) = n + sum ns

abbrev pub AllPositive : List ℕ → Type 0
AllPositive [] = Unit
AllPositive (n ∷ ns) = (0 < n) × AllPositive ns

-- The first n₁ bytes, the first n₂ bytes, … of one block.
abbrev pub prefixes : List ℕ → List ℕ → List ℕ
prefixes buf [] = []
prefixes buf (n ∷ ns) = take n buf ++ prefixes buf ns

write_loop_end :
    (calls : List Call) (buf out : List ℕ) (len : ℕ)
    → len ≡ 0
    → write_loop calls buf len out ≡ all_sent out
unfolding write_loop
write_loop_end [] buf out len e = rw e refl
write_loop_end (took n ∷ calls) buf out len e = rw e refl
write_loop_end (interrupted ∷ calls) buf out len e = rw e refl
write_loop_end (Call.failed ∷ calls) buf out len e = rw e refl

write_loop-prefixes :
    (ns : List ℕ) (calls : List Call) (buf out : List ℕ) (len : ℕ)
    → AllPositive ns
    → sum ns ≡ len
    → write_loop (map took ns ++ calls) buf len out ≡ all_sent (out ++ prefixes buf ns)
unfolding write_loop
write_loop-prefixes [] calls buf out len pos e =
    write_loop_end calls buf out len (omega arith) ∙ ap all_sent (rw append-nil refl)
write_loop-prefixes (n ∷ ns) calls buf out len pos e =
    let more : ltb 0 len ≡ true = ground (arith, pos.0) in
    rw more (
      write_loop-prefixes ns calls buf (out ++ take n buf) (len - n) pos.1 (omega (arith, pos.0))
      ∙ ap all_sent (append_assoc out (take n buf) (prefixes buf ns)))

-- If the calls of write take n₁, n₂, … bytes, which make up the length of the block, `write_all`
-- returns 0, and what was written is the first n₁ bytes of the block, then its first n₂ bytes,
-- and so on: the block itself only if one call takes all.
pub write_all-prefixes :
    (ns : List ℕ) (calls : List Call) (buf : List ℕ)
    → AllPositive ns
    → sum ns ≡ length buf
    → write_all (map took ns ++ calls) buf ≡ all_sent (prefixes buf ns)
unfolding write_all
write_all-prefixes ns calls buf pos e = write_loop-prefixes ns calls buf [] (length buf) pos e

send_loop_end :
    (calls : List Call) (buf out : List ℕ) (i : ℕ)
    → ltb i (length buf) ≡ false
    → send_loop calls buf i out ≡ all_sent out
unfolding send_loop
send_loop_end [] buf out i e = rw e refl
send_loop_end (took n ∷ calls) buf out i e = rw e refl
send_loop_end (interrupted ∷ calls) buf out i e = rw e refl
send_loop_end (Call.failed ∷ calls) buf out i e = rw e refl

-- The calls after which `sendall` stops: each begins while `i` is below the length, and the last
-- one takes it there.
abbrev pub Reaches : ℕ → ℕ → List ℕ → Type 0
Reaches len i [] = len ≤ i
Reaches len i (n ∷ ns) = (i < len) × Reaches len (i + n) ns

send_loop-prefixes :
    (ns : List ℕ) (calls : List Call) (buf out : List ℕ) (i : ℕ)
    → Reaches (length buf) i ns
    → send_loop (map took ns ++ calls) buf i out ≡ all_sent (out ++ prefixes buf ns)
unfolding send_loop
send_loop-prefixes [] calls buf out i reaches =
    send_loop_end calls buf out i (ground (arith, reaches)) ∙ ap all_sent (rw append-nil refl)
send_loop-prefixes (n ∷ ns) calls buf out i reaches =
    let more : ltb i (length buf) ≡ true = ground (arith, reaches.0) in
    rw more (
      send_loop-prefixes ns calls buf (out ++ take n buf) (i + n) reaches.1
      ∙ ap all_sent (append_assoc out (take n buf) (prefixes buf ns)))

-- If the calls of send take n₁, n₂, … bytes, the last of which brings their sum to the length of
-- the buffer, `sendall` returns 0, and what was sent is the first n₁ bytes of the buffer, then
-- its first n₂ bytes, and so on: every call begins at the front again.
pub sendall-prefixes :
    (ns : List ℕ) (calls : List Call) (buf : List ℕ)
    → Reaches (length buf) 0 ns
    → sendall (map took ns ++ calls) buf ≡ all_sent (prefixes buf ns)
unfolding sendall
sendall-prefixes ns calls buf reaches = send_loop-prefixes ns calls buf [] 0 reaches
