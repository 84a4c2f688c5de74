-- ===== src/Sockets/Client2.antt =====
-- 00-network-programming/examples/client2.c: a TCP client of one address sends a text and shows
-- the answer.
use linux_system_programming.Prelude.{
  ℕ, zero, suc, ◌+◌, ◌<◌, ◌≤◌, ◌≡◌, refl, Bool, true, false, Option, none, some, List, [], ◌∷◌,
  arith, ℤ, pos, negsuc, minus_one, ltb, if◌then◌else◌, length,
}
use linux_system_programming.Kernel.{
  inet, stream, socket, connect, send, recv, close, Reply, ret, error, as_int, failed, Event, done,
  waits, value, Sys, pure, logged, invoke, ◌>>=◌,
}
use linux_system_programming.Transfers.Print.{until_nul}
use linux_system_programming.Sockets.{Sock}
use linux_system_programming.Sockets.Text.{shown_text, shown_text-fits}

-- RECVSIZE
abbrev pub recvsize : ℕ
recvsize = 512

-- `client_socket`: the client, or nothing where it returns 0. `parsed` is the host that inet_pton
-- reads in `ip`, `none` where it reads none.
unfoldable pub client_socket : (ℕ → ℕ) → Bool → Option ℕ → ℕ → Sys (Option Sock)
client_socket htons is_null parsed port = if is_null then pure none else (elim parsed [
  | none ↦ pure none
  | some host ↦ invoke (socket inet stream) >>= λ sd. elim (failed sd) [
    | true ↦ pure none
    | false ↦ pure (
        some (record {
          sd = as_int sd;
          addr = record { family = inet; host = host; port = htons port };
        }))
  ]
])

unfoldable pub client_connect : Sock → Sys ℕ
client_connect client = invoke (connect client.sd client.addr) >>= λ r. elim (failed r) [
  | true ↦ pure 0
  | false ↦ pure 1
]

-- The `while` of `client_sendall`: each send is given `buf` and `len` anew; the calls of send end it.
unfoldable pub send_loop : ℤ → List ℕ → ℕ → Sys ℤ
send_loop sd buf n [] log = if ltb n (length buf) then waits log else done (pos n) [] log
send_loop sd buf n (error e ∷ replies) log =
    if ltb n (length buf)
    then done minus_one replies (logged (send sd buf) (error e) log)
    else done (pos n) (error e ∷ replies) log
send_loop sd buf n (ret m l ∷ replies) log =
    let rest = send_loop sd buf (n + m) replies (logged (send sd buf) (ret m l) log) in
    if ltb n (length buf) then rest else done (pos n) (ret m l ∷ replies) log

unfoldable pub client_sendall : Sock → List ℕ → Sys ℤ
unfolding send_loop
client_sendall client buf = send_loop client.sd buf 0

unfoldable pub client_recv : Sock → Sys Reply
client_recv client = invoke (recv client.sd)

unfoldable pub client_close : Sock → Sys Reply
client_close client = invoke (close client.sd)

-- How `main` ends: with 1, with the text that it shows and its result, or with a write behind
-- `recv_buf`.
pub data Talk : Type 0 where
  gives_up : Talk
  shows : (text : List ℕ) (code : ℕ) → Talk
  overrun : Talk

-- The text of the answer, and `client_close`.
unfoldable pub show_answer : ℕ → Sock → Reply → Sys Talk
unfolding shown_text client_close
show_answer junk client (error e) = pure gives_up
show_answer junk client (ret n bytes) = elim (shown_text (recvsize + 1) junk bytes) [
  | none ↦ pure overrun
  | some text ↦ client_close client >>= λ r. pure (shows text (if failed r then 1 else 0))
]

-- What follows `client_socket`.
unfoldable pub converse : ℕ → List ℕ → Sock → Sys Talk
unfolding client_connect client_sendall client_recv show_answer
converse junk send_buf client = client_connect client >>= λ connected. elim connected [
  | zero ↦ pure gives_up
  | suc k ↦ client_sendall client send_buf >>= λ sent. elim sent [
    | pos n ↦ client_recv client >>= λ answer. show_answer junk client answer
    | negsuc n ↦ pure gives_up
  ]
]

-- `main`, with the host that inet_pton reads in "127.0.0.1" and the text to send.
unfoldable pub main : (ℕ → ℕ) → ℕ → Option ℕ → List ℕ → Sys Talk
unfolding client_socket converse
main htons junk parsed send_buf = client_socket htons false parsed 8888 >>= λ client. elim client [
  | none ↦ pure gives_up
  | some c ↦ converse junk send_buf c
]

send_once :
    (sd : ℤ) (text l l' : List ℕ) (m : ℕ) (replies : List Reply) (log : List Event)
    → 0 < length text
    → send_loop sd text 0 (ret (length text) l ∷ ret m l' ∷ replies) log
      ≡ done
          (pos (0 + length text))
          (ret m l' ∷ replies)
          (logged (send sd text) (ret (length text) l) log)
unfolding send_loop
send_once sd text l l' m replies log some_text =
    let more : ltb 0 (length text) ≡ true = ground arith in
    let all : ltb (0 + length text) (length text) ≡ false = ground arith in rw (more, all) refl

-- A connection on which one send takes the whole text, and an answer of at most RECVSIZE bytes:
-- `main` shows the answer up to its first NUL and returns 0 once the socket is closed.
pub main-shows_answer :
    (htons : ℕ → ℕ) (junk host : ℕ) (text bytes : List ℕ) (n m c : ℕ) (l l' l'' lc : List ℕ)
    (replies : List Reply) (log : List Event)
    → 0 < length text
    → length bytes ≤ recvsize
    → value (
        main htons junk
          (some host)
          text
          (ret n l
            ∷ ret m l'
            ∷ ret (length text) l''
            ∷ ret (length bytes) bytes
            ∷ ret c lc
            ∷ replies)
          log)
      ≡ some (shows (until_nul bytes) 0)
unfolding main client_socket converse client_connect client_sendall
main-shows_answer htons junk host text bytes n m c l l' l'' lc replies log some_text le =
    rw
      (
        converse,
        send_once (pos n) text l'' bytes (length bytes) (ret c lc ∷ replies)
            (logged (connect (pos n) (record { family = inet; host = host; port = htons 8888 }))
              (ret m l') (logged (socket inet stream) (ret n l) log))
            some_text,
        show_answer,
        shown_text-fits (recvsize + 1) junk bytes (omega (arith, le)),
      )
      refl
