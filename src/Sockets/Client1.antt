-- ===== src/Sockets/Client1.antt =====
-- 00-network-programming/examples/client1.c: a TCP client asks each address in turn.
use linux_system_programming.Prelude.{
  ℕ, zero, suc, ◌+◌, ◌*◌, ◌<◌, ◌≤◌, ◌≡◌, true, false, none, some, List, [], ◌∷◌, arith, ℤ, pos,
  length,
}
use linux_system_programming.Kernel.{
  AddrInfo, Call, socket, connect, recv, close, Reply, ret, error, as_int, failed, Event, Outcome,
  done, exits, waits, Sys, pure, logged, invoke, ◌>>=◌, ◌>>◌,
}
use linux_system_programming.Kernel.Count.{same, opened, closed}
use linux_system_programming.Sockets.Text.{shown_text, shown_text-fits}

-- RECVSIZE
abbrev pub recvsize : ℕ
recvsize = 512

-- What a call of `request` returns: -1, or 0 with the text that it shows; or a write behind `buf`.
pub data Answer : Type 0 where
  refused : Answer
  answered : (text : List ℕ) → Answer
  overrun : Answer

unfoldable pub try_close : ℤ → Sys (Unit {0})
try_close sd = invoke (close sd) >> pure tt

-- The text in `buf`, and what `request` does with it.
unfoldable pub show_answer : ℕ → ℤ → List ℕ → Sys Answer
unfolding try_close shown_text
show_answer junk sd bytes = elim (shown_text (recvsize + 1) junk bytes) [
  | none ↦ pure overrun
  | some text ↦ try_close sd >> pure (answered text)
]

-- What follows `recv`, which returns -1, 0 or a number of bytes.
unfoldable pub take_answer : ℕ → ℤ → Reply → Sys Answer
unfolding show_answer
take_answer junk sd (error e) = pure refused
take_answer junk sd (ret zero bytes) = pure refused
take_answer junk sd (ret (suc n) bytes) = show_answer junk sd bytes

unfoldable pub request : ℕ → AddrInfo → Sys Answer
unfolding take_answer try_close
request junk info = invoke (socket info.family info.socktype) >>= λ sd. elim (failed sd) [
  | true ↦ pure refused
  | false ↦ invoke (connect (as_int sd) info.addr) >>= λ connected. elim (failed connected) [
    | true ↦ try_close (as_int sd) >> pure refused
    | false ↦ invoke (recv (as_int sd)) >>= λ answer. take_answer junk (as_int sd) answer
  ]
]

-- The `for` of `main`: the answer of the first address that gives one.
unfoldable pub request_loop : ℕ → List AddrInfo → Sys Answer
unfolding request
request_loop junk [] = pure refused
request_loop junk (info ∷ res) = request junk info >>= λ a. elim a [
  | refused ↦ request_loop junk res
  | answered text ↦ pure (answered text)
  | overrun ↦ pure overrun
]

-- How often a recv on `d` failed or found the connection closed.
abbrev pub drops : ℕ → Call → Reply → ℕ
drops d (Call.recv sd) (error e) = same d sd
drops d (Call.recv sd) (ret zero bytes) = same d sd
drops d (Call.recv sd) (ret (suc n) bytes) = 0
drops d _ r = 0

abbrev pub dropped : ℕ → List Event → ℕ
dropped d [] = 0
dropped d (e ∷ log) = drops d e.call e.reply + dropped d log

-- recv hands over no more bytes than it is asked for.
abbrev pub Fit : List Reply → Type 0
Fit [] = Unit
Fit (ret n bytes ∷ replies) = (length bytes ≤ recvsize) × Fit replies
Fit (error e ∷ replies) = Fit replies

-- Between two logs `d` was handed out as often as it was closed or dropped.
abbrev pub Drops : ℕ → List Event → List Event → Type 0
Drops d before after =
    opened d after + closed d before + dropped d before
    ≡ opened d before + closed d after + dropped d after

-- How `request_loop` ends, with `k` replies.
abbrev pub Asks : ℕ → ℕ → List Reply → List Event → Outcome Answer → Type 0
Asks d k replies log (done refused rest log') = Drops d log log'
Asks d k replies log (done (answered text) rest log') = Drops d log log'
Asks d k replies log (done overrun rest log') = ⊥
Asks d k replies log (exits code log') = ⊥
Asks d k replies log (waits log') = length replies < k

Asks-later :
    (d k k' : ℕ) (replies replies' : List Reply) (log log' : List Event) (o : Outcome Answer)
    → Drops d log log'
    → length replies + k' ≤ length replies' + k
    → Asks d k' replies' log' o
    → Asks d k replies log o
Asks-later d k k' replies replies' log log' (done refused rest log'') l le e = omega (arith, l, e)
Asks-later d k k' replies replies' log log' (done (answered t) rest log'') l le e =
    omega (arith, l, e)
Asks-later d k k' replies replies' log log' (done overrun rest log'') l le e = e
Asks-later d k k' replies replies' log log' (exits code log'') l le e = e
Asks-later d k k' replies replies' log log' (waits log'') l le e = omega (arith, le, e)

Fit-tail : (r : Reply) (replies : List Reply) → Fit (r ∷ replies) → Fit replies
Fit-tail (ret n l) replies fit = fit.1
Fit-tail (error e) replies fit = fit

-- For any replies, with recv handing over at most RECVSIZE bytes, `request_loop` writes nothing
-- behind its array, and closes every socket that it opens but those on which recv fails or finds
-- the connection closed: those stay open. It returns if there are four replies for each address.
pub request_loop-Asks :
    (d junk : ℕ) (res : List AddrInfo) (replies : List Reply) (log : List Event)
    → Fit replies
    → Asks d (4 * length res) replies log (request_loop junk res replies log)
unfolding request_loop request take_answer show_answer
request_loop-Asks d junk [] replies log fit = omega arith
request_loop-Asks d junk (info ∷ res) [] log fit = omega arith
request_loop-Asks d junk (info ∷ res) (error e ∷ replies) log fit =
    let log' = logged (socket info.family info.socktype) (error e) log in
    Asks-later d (4 * suc (length res)) (4 * length res) (error e ∷ replies) replies log log'
      (request_loop junk res replies log') (omega arith) (omega arith)
      (request_loop-Asks d junk res replies log' fit)
request_loop-Asks d junk (info ∷ res) (ret n l ∷ []) log fit = omega arith
request_loop-Asks d junk (info ∷ res) (ret n l ∷ error e ∷ []) log fit = omega arith
request_loop-Asks d junk (info ∷ res) (ret n l ∷ error e ∷ shut ∷ replies) log fit =
    let log' = logged (close (pos n)) shut (
      logged (connect (pos n) info.addr) (error e)
        (logged (socket info.family info.socktype) (ret n l) log)) in
    Asks-later d (4 * suc (length res)) (4 * length res) (ret n l ∷ error e ∷ shut ∷ replies)
      replies log log' (request_loop junk res replies log') (omega arith) (omega arith)
      (request_loop-Asks d junk res replies log' (Fit-tail shut replies fit.1))
request_loop-Asks d junk (info ∷ res) (ret n l ∷ ret m l' ∷ []) log fit = omega arith
request_loop-Asks d junk (info ∷ res) (ret n l ∷ ret m l' ∷ error e ∷ replies) log fit =
    let log' = logged (recv (pos n)) (error e) (
      logged (connect (pos n) info.addr) (ret m l')
        (logged (socket info.family info.socktype) (ret n l) log)) in
    Asks-later d (4 * suc (length res)) (4 * length res) (ret n l ∷ ret m l' ∷ error e ∷ replies)
      replies log log' (request_loop junk res replies log') (omega arith) (omega arith)
      (request_loop-Asks d junk res replies log' fit.1.1)
request_loop-Asks d junk (info ∷ res) (ret n l ∷ ret m l' ∷ ret zero bytes ∷ replies) log fit =
    let log' = logged (recv (pos n)) (ret zero bytes) (
      logged (connect (pos n) info.addr) (ret m l')
        (logged (socket info.family info.socktype) (ret n l) log)) in
    Asks-later d (4 * suc (length res)) (4 * length res)
      (ret n l ∷ ret m l' ∷ ret zero bytes ∷ replies) replies log log'
      (request_loop junk res replies log') (omega arith) (omega arith)
      (request_loop-Asks d junk res replies log' fit.1.1.1)
request_loop-Asks d junk (info ∷ res) (ret n l ∷ ret m l' ∷ ret (suc k) bytes ∷ []) log fit =
    rw (shown_text-fits (recvsize + 1) junk bytes (omega (arith, fit.1.1.0)), show_answer)
      (omega arith)
request_loop-Asks d junk (info ∷ res) (ret n l ∷ ret m l' ∷ ret (suc k) bytes ∷ shut ∷ replies) log
      fit =
    rw (shown_text-fits (recvsize + 1) junk bytes (omega (arith, fit.1.1.0)), show_answer)
      (omega arith)
