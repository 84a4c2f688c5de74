-- ===== src/Sockets/Talker.antt =====
-- 00-network-programming/examples/talker.c: a UDP client sends a text and shows the answer.
use linux_system_programming.Prelude.{
  ℕ, zero, suc, ◌+◌, ◌≤◌, ◌≡◌, refl, true, false, Option, none, some, List, [], ◌∷◌, arith, length,
}
use linux_system_programming.Kernel.{
  AddrInfo, socket, sendto, recvfrom, Reply, ret, error, as_int, failed, Event, value, Sys, pure,
  logged, invoke, ◌>>=◌,
}
use linux_system_programming.Kernel.Count.{same, Ends, Ends-later}
use linux_system_programming.Transfers.Print.{until_nul}
use linux_system_programming.Sockets.{Sock}
use linux_system_programming.Sockets.Text.{shown_text, shown_text-fits}

-- RECVSIZE
abbrev pub recvsize : ℕ
recvsize = 2048

-- `init_with_first`: its result, and `client`.
unfoldable pub init_with_first : Sock → List AddrInfo → Sys (ℕ × Sock)
init_with_first client [] = pure (0, client)
init_with_first client (info ∷ res) = invoke (socket info.family info.socktype) >>= λ sd.
    elim (failed sd) [
      | true ↦ init_with_first client res
      | false ↦ pure (1, record { sd = as_int sd; addr = info.addr })
    ]

-- `found` is what getaddrinfo gives: the addresses, or none where it fails.
unfoldable pub init_udp_client : Sock → Option (List AddrInfo) → Sys (ℕ × Sock)
unfolding init_with_first
init_udp_client client none = pure (0, client)
init_udp_client client (some res) = init_with_first client res

-- How `main` ends: with 1, with 0 and the text that it shows, or with a write behind the array.
pub data Talk : Type 0 where
  gives_up : Talk
  shows : (text : List ℕ) → Talk
  overrun : Talk

-- printf of the answer.
unfoldable pub show_answer : ℕ → Reply → Talk
unfolding shown_text
show_answer junk (error e) = gives_up
show_answer junk (ret n bytes) = elim (shown_text (recvsize + 1) junk bytes) [
  | none ↦ overrun
  | some text ↦ shows text
]

-- sendto and recvfrom, with the text `hello` and the NUL behind it.
unfoldable pub exchange : ℕ → List ℕ → Sock → Sys Talk
unfolding show_answer
exchange junk hello client = invoke (sendto client.sd hello client.addr) >>= λ sent.
    elim (failed sent) [
      | true ↦ pure gives_up
      | false ↦ invoke (recvfrom client.sd) >>= λ answer. pure (show_answer junk answer)
    ]

-- `main` with two arguments.
unfoldable pub main : ℕ → List ℕ → Sock → Option (List AddrInfo) → Sys Talk
unfolding init_udp_client exchange
main junk hello client found = init_udp_client client found >>= λ r. elim r.0 [
  | zero ↦ pure gives_up
  | suc k ↦ exchange junk hello r.1
]

-- The socket that a success leaves open.
abbrev pub kept : ℕ → ℕ × Sock → ℕ
kept d (zero, client) = 0
kept d (suc k, client) = same d client.sd

-- `init_udp_client` opens one socket if it returns 1 and none if it returns 0, and it returns if
-- the kernel gives a reply for each address.
pub init_udp_client-Ends :
    (d : ℕ) (client : Sock) (res : List AddrInfo) (replies : List Reply) (log : List Event)
    → Ends (kept d) d (length res) replies log (init_udp_client client (some res) replies log)
unfolding init_udp_client init_with_first
init_udp_client-Ends d client [] replies log = omega arith
init_udp_client-Ends d client (info ∷ res) [] log = omega arith
init_udp_client-Ends d client (info ∷ res) (ret n l ∷ replies) log = omega arith
init_udp_client-Ends d client (info ∷ res) (error e ∷ replies) log =
    let log' = logged (socket info.family info.socktype) (error e) log in
    Ends-later (kept d) d (suc (length res)) (length res) (error e ∷ replies) replies log log'
      (init_with_first client res replies log') (omega arith) (omega arith)
      (init_udp_client-Ends d client res replies log')

-- If the first address gets a socket, the text is sent, and the answer has at most RECVSIZE bytes,
-- `main` shows the answer up to its first NUL.
pub main-shows :
    (junk : ℕ) (hello : List ℕ) (client : Sock) (info : AddrInfo) (res : List AddrInfo) (n m : ℕ)
    (l l' bytes : List ℕ) (replies : List Reply) (log : List Event)
    → length bytes ≤ recvsize
    → value (
        main junk hello client
          (some (info ∷ res))
          (ret n l ∷ ret m l' ∷ ret (length bytes) bytes ∷ replies)
          log)
      ≡ some (shows (until_nul bytes))
unfolding main
main-shows junk hello client info res n m l l' bytes replies log le =
    rw (shown_text-fits (recvsize + 1) junk bytes (omega (arith, le)), show_answer) refl
