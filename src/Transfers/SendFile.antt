-- ===== src/Transfers/SendFile.antt =====
-- What `send_file` puts on the socket.
use linux_system_programming.Prelude.{
  ℕ, zero, suc, ◌<◌, ◌≡◌, refl, ap, subst, ◌∙◌, sym, true, arith, length, take, List, [], ◌∷◌, ◌++◌,
  append_assoc, append-nil,
}
use linux_system_programming.Transfers.{
  Read, byte, eof, read_interrupted, Send, sent_one, sent_none, send_failed, returns, pushed,
  push_failed, push_byte, file_loop, send_file,
}

-- The calls of read hand over the bytes of `file`, with any number of interruptions, and then
-- the end of the file.
pub data Yields : List Read → List ℕ → Type 0 where
  at_end : {reads : List Read} → Yields (eof ∷ reads) []
  again :
      {reads : List Read} {file : List ℕ}
      → Yields reads file
      → Yields (read_interrupted ∷ reads) file
  next_byte :
      {reads : List Read} {file : List ℕ} (c : ℕ)
      → Yields reads file
      → Yields (byte c ∷ reads) (c ∷ file)

-- The calls of send take `n` bytes, with any number of calls that take none.
pub data Takes : List Send → ℕ → Type 0 where
  taken : {sends : List Send} → Takes sends 0
  none_yet : {sends : List Send} {n : ℕ} → Takes sends n → Takes (sent_none ∷ sends) n
  one_more : {sends : List Send} {n : ℕ} → Takes sends n → Takes (sent_one ∷ sends) (suc n)

-- They take `n` bytes and fail at the next one.
pub data FailsAt : List Send → ℕ → Type 0 where
  fails_now : {sends : List Send} → FailsAt (send_failed ∷ sends) 0
  none_yet : {sends : List Send} {n : ℕ} → FailsAt sends n → FailsAt (sent_none ∷ sends) n
  one_more : {sends : List Send} {n : ℕ} → FailsAt sends n → FailsAt (sent_one ∷ sends) (suc n)

push_byte-Takes :
    {sends : List Send} {n m : ℕ}
    → Takes sends m
    → m ≡ suc n
    → (left : List Send) × (push_byte sends ≡ pushed left) × Takes left n
unfolding push_byte
push_byte-Takes taken e = ground (arith, e)
push_byte-Takes (none_yet accepts) e = push_byte-Takes accepts e
push_byte-Takes {sends = sent_one ∷ sends} (one_more accepts) e =
    (sends, refl, subst (Takes sends) (omega (arith, e)) accepts)

push_byte-FailsAt :
    {sends : List Send} {n m : ℕ}
    → FailsAt sends m
    → m ≡ suc n
    → (left : List Send) × (push_byte sends ≡ pushed left) × FailsAt left n
unfolding push_byte
push_byte-FailsAt fails_now e = ground (arith, e)
push_byte-FailsAt (none_yet fails) e = push_byte-FailsAt fails e
push_byte-FailsAt {sends = sent_one ∷ sends} (one_more fails) e =
    (sends, refl, subst (FailsAt sends) (omega (arith, e)) fails)

push_byte-fails :
    {sends : List Send} {m : ℕ} → FailsAt sends m → m ≡ 0 → push_byte sends ≡ push_failed
unfolding push_byte
push_byte-fails fails_now e = refl
push_byte-fails (none_yet fails) e = push_byte-fails fails e
push_byte-fails (one_more fails) e = ground (arith, e)

file_loop_byte :
    (c : ℕ) (reads : List Read) (sends left : List Send) (out : List ℕ)
    → push_byte sends ≡ pushed left
    → file_loop (byte c ∷ reads) sends out ≡ file_loop reads left (out ++ c ∷ [])
unfolding file_loop
file_loop_byte c reads sends left out e = rw (file_loop, e) refl

file_loop_fails :
    (c : ℕ) (reads : List Read) (sends : List Send) (out : List ℕ)
    → push_byte sends ≡ push_failed
    → file_loop (byte c ∷ reads) sends out ≡ returns 1 out
unfolding file_loop
file_loop_fails c reads sends out e = rw (file_loop, e) refl

file_loop-Takes :
    {reads : List Read} {file : List ℕ} (sends : List Send) (out : List ℕ)
    → Yields reads file
    → Takes sends (length file)
    → file_loop reads sends out ≡ returns 1 (out ++ file)
unfolding file_loop
file_loop-Takes sends out at_end accepts = ap (returns 1) (sym (append-nil out))
file_loop-Takes sends out (again yields) accepts = file_loop-Takes sends out yields accepts
file_loop-Takes sends out (next_byte {reads = reads} {file = file} c yields) accepts =
    let (left, e, rest) = push_byte-Takes accepts refl in
    file_loop_byte c reads sends left out e
    ∙ file_loop-Takes left (out ++ c ∷ []) yields rest
    ∙ ap (returns 1) (append_assoc out (c ∷ []) file)

file_loop-FailsAt :
    {reads : List Read} {file : List ℕ} (sends : List Send) (out : List ℕ) (n : ℕ)
    → Yields reads file
    → FailsAt sends n
    → n < length file
    → file_loop reads sends out ≡ returns 1 (out ++ take n file)
unfolding file_loop
file_loop-FailsAt sends out n at_end fails below = ground (arith, below)
file_loop-FailsAt sends out n (again yields) fails below =
    file_loop-FailsAt sends out n yields fails below
file_loop-FailsAt sends out zero (next_byte {reads = reads} c yields) fails below =
    file_loop_fails c reads sends out (push_byte-fails fails refl)
    ∙ ap (returns 1) (sym (append-nil out))
file_loop-FailsAt sends out (suc n) (next_byte {reads = reads} {file = file} c yields) fails below =
    let (left, e, rest) = push_byte-FailsAt fails refl in
    file_loop_byte c reads sends left out e
    ∙ file_loop-FailsAt left (out ++ c ∷ []) n yields rest (omega (arith, below))
    ∙ ap (returns 1) (append_assoc out (c ∷ []) (take n file))

-- With calls of read that hand over the file and calls of send that take all its bytes, in the
-- end, `send_file` sends the bytes of the file in order and returns 1.
pub send_file_all :
    (reads : List Read) (file : List ℕ) (sends : List Send)
    → Yields reads file
    → Takes sends (length file)
    → send_file true reads sends ≡ returns 1 file
unfolding send_file
send_file_all reads file sends yields accepts = file_loop-Takes sends [] yields accepts

-- If send fails at the byte after the first `n` bytes of the file, `send_file` has sent those
-- `n` bytes and returns 1 too, so that a caller cannot tell it from a file that was sent.
pub send_file_cut :
    (reads : List Read) (file : List ℕ) (sends : List Send) (n : ℕ)
    → Yields reads file
    → FailsAt sends n
    → n < length file
    → send_file true reads sends ≡ returns 1 (take n file)
unfolding send_file
send_file_cut reads file sends n yields fails below =
    file_loop-FailsAt sends [] n yields fails below
