-- ===== src/Sockets/Server.antt =====
-- 00-network-programming/examples/server.c: a TCP server that forks for each client.
use linux_system_programming.Prelude.{
  ℕ, zero, suc, ◌+◌, ◌<◌, ◌≡◌, Bool, true, false, ◌||◌, List, [], ◌∷◌, ℤ, length,
}
use linux_system_programming.Kernel.{
  inet, stream, Address, Call, socket, setsockopt, bind, listen, sigaction, accept, fork, send,
  close, Reply, ret, error, as_int, failed, Event, Outcome, done, exits, waits, Sys, pure, exit,
  invoke, ◌>>=◌, ◌>>◌,
}
use linux_system_programming.Kernel.Count.{same, opened, closed, Leaves}

-- PORT
abbrev pub port : ℕ
port = 8888

-- `init_serv`, with the host INADDR_ANY; `htons` turns a number into network byte order.
abbrev pub init_serv : (ℕ → ℕ) → Address
init_serv htons = record { family = inet; host = 0; port = htons port }

-- "hello world"
abbrev pub hello : List ℕ
hello = b'h' ∷ b'e' ∷ b'l' ∷ b'l' ∷ b'o' ∷ b' ' ∷ b'w' ∷ b'o' ∷ b'r' ∷ b'l' ∷ b'd' ∷ []

unfoldable pub try_close : ℤ → Sys (Unit {0})
try_close fd = invoke (close fd) >> pure tt

unfoldable pub reap_zombies : Sys Reply
reap_zombies = invoke sigaction

-- Where a process stands: the server in its loop, or a child that has returned 0.
pub data Process : Type 0 where
  serving : (sd : ℤ) → Process
  child_done : Process

-- What the child does.
unfoldable pub answer : ℤ → ℤ → Sys Process
unfolding try_close
answer sd cd = try_close sd >> (invoke (send cd hello) >> (try_close cd >> pure child_done))

-- The `while`, for a number of rounds. fork returns 0 in the child; the result of accept is not
-- tested.
unfoldable pub serve_loop : ℕ → ℤ → Sys Process
unfolding answer try_close
serve_loop zero sd = pure (serving sd)
serve_loop (suc rounds) sd = invoke (accept sd) >>= λ cd. invoke fork >>= λ pid. elim pid [
  | error e ↦ try_close (as_int cd) >> serve_loop rounds sd
  | ret n l ↦ elim n [
    | zero ↦ answer sd (as_int cd)
    | suc k ↦ try_close (as_int cd) >> serve_loop rounds sd
  ]
]

-- `return 1` where a call fails.
abbrev pub or_return : Call → Sys Process → Sys Process
or_return c next = invoke c >>= λ r. elim (failed r) [ true ↦ exit 1 | false ↦ next ]

-- `main` behind `socket`.
unfoldable pub set_up : (ℕ → ℕ) → ℕ → ℤ → Sys Process
unfolding serve_loop reap_zombies
set_up htons rounds sd = or_return (setsockopt sd) (
    or_return (bind sd (init_serv htons)) (
      or_return (listen sd)
        (reap_zombies >>= λ r. elim (failed r) [ true ↦ exit 1 | false ↦ serve_loop rounds sd ])))

unfoldable pub main : (ℕ → ℕ) → ℕ → Sys Process
unfolding set_up
main htons rounds = invoke (socket inet stream) >>= λ sd. elim (failed sd) [
  | true ↦ exit 1
  | false ↦ set_up htons rounds (as_int sd)
]

-- What a process leaves open.
abbrev pub left : ℕ → Process → ℕ
left d (serving sd) = same d sd
left d child_done = 0

-- One of the first five replies, to the calls before the `while`, is an error.
abbrev pub set_up_fails : ℕ → List Reply → Bool
set_up_fails zero replies = false
set_up_fails (suc n) [] = false
set_up_fails (suc n) (r ∷ replies) = failed r || set_up_fails n replies

-- How `main` ends, for the descriptor `d`: where it returns its first calls have succeeded, and `d`
-- is open as often as the process says; it exits with 1 just where one of them fails; and it waits
-- only if there were fewer than `k` replies.
abbrev pub Serves : ℕ → ℕ → List Reply → List Event → Outcome Process → Type 0
Serves d k replies log (done p rest log') =
    (set_up_fails 5 replies ≡ false) × Leaves d (left d p) log log'
Serves d k replies log (exits code log') = (code ≡ 1) × (set_up_fails 5 replies ≡ true)
Serves d k replies log (waits log') = length replies < k

-- How the `while` ends, which begins with `sd` open: it does not exit.
abbrev Keeps : ℕ → ℤ → ℕ → List Reply → List Event → Outcome Process → Type 0
Keeps d sd k replies log (done p rest log') =
    opened d log' + closed d log + same d sd ≡ opened d log + closed d log' + left d p
Keeps d sd k replies log (exits code log') = ⊥
Keeps d sd k replies log (waits log') = length replies < k
