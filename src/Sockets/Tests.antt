-- ===== src/Sockets/Tests.antt =====
-- Runs of the socket programs with a few replies of the kernel.
use linux_system_programming.Prelude.{
  ℕ, ◌≡◌, refl, Bool, true, false, none, some, List, [], ◌∷◌, ◌++◌, arith, pos, minus_one,
}
use linux_system_programming.Kernel.{
  inet, stream, Address, AddrInfo, Reply, ret, error, Event, Outcome, done, exits, value,
}
use linux_system_programming.Kernel.Count.{closed}
use linux_system_programming.Buffers.Shell.{at_eof, newline}
use linux_system_programming.Transfers.Print.{until_nul}
use linux_system_programming.Sockets.{Sock}
use linux_system_programming.Sockets.Listener
use linux_system_programming.Sockets.Messages
use linux_system_programming.Sockets.Client1
use linux_system_programming.Sockets.Client2
use linux_system_programming.Sockets.Server

abbrev loopback : Address
loopback = record { family = inet; host = 16777343; port = 47138 }

abbrev info : AddrInfo
info = record { family = inet; socktype = stream; addr = loopback }

abbrev unset : Sock
unset = record { sd = minus_one; addr = loopback }

-- The first address cannot be bound, the second one can.
abbrev second_bound : List Reply
second_bound = ret 3 [] ∷ error false ∷ ret 0 [] ∷ ret 4 [] ∷ ret 0 [] ∷ []

-- "yo", and "ok".
abbrev yo : List ℕ
yo = b'y' ∷ b'o' ∷ []

abbrev ok : List ℕ
ok = b'o' ∷ b'k' ∷ []

ok-IsLine : Messages.IsLine ok
ok-IsLine = record {
  whole = ground arith;
  text = ground arith;
  short = omega arith;
  fits = λ k. ground arith;
}

-- "yo" from the same peer; its second answer cannot be sent.
abbrev said : Bool → Messages.Message
said sends = record { peer = loopback; bytes = yo; sends = sends }

serve_forever-Exchange_example :
    Messages.serve_forever 7
      (some (said true) ∷ none ∷ some (said false) ∷ [])
      (ok ++ newline ∷ (ok ++ newline ∷ yo))
      at_eof
      []
    ≡ Messages.listening
        ((until_nul yo, some (loopback, ok ++ newline ∷ [])) ∷ (until_nul yo, none) ∷ [])
        yo
serve_forever-Exchange_example =
    Messages.serve_forever-Exchange 7 (some (said true) ∷ none ∷ some (said false) ∷ [])
      (ok ++ newline ∷ (ok ++ newline ∷ yo)) yo
      ((until_nul yo, some (loopback, ok ++ newline ∷ [])) ∷ (until_nul yo, none) ∷ []) at_eof
      (Messages.exchanged (said true) ok (omega arith) ok-IsLine (
        Messages.lost
          (Messages.exchanged (said false) ok (omega arith) ok-IsLine (Messages.nothing yo))))

-- The first server closes the connection with no answer, the second one answers.
abbrev second_answers : List Reply
second_answers = ret 3 [] ∷ ret 0 [] ∷ ret 0 [] ∷ ret 4 [] ∷ ret 0 [] ∷ ret 2 yo ∷ ret 0 [] ∷ []

request_loop-Asks_example :
    Client1.Asks 3 8 second_answers [] (Client1.request_loop 7 (info ∷ info ∷ []) second_answers [])
request_loop-Asks_example =
    Client1.request_loop-Asks 3 7 (info ∷ info ∷ []) second_answers [] (ground arith)

abbrev log_of : {A : Type 0} → Outcome A → List Event
log_of (done a rest log) = log
log_of (exits code log) = log
log_of (Outcome.waits log) = log

-- There the socket 3 is never closed.
silent_server_leaks :
    closed 3 (log_of (Client1.request_loop 7 (info ∷ info ∷ []) second_answers [])) ≡ 0
unfolding Client1.request_loop
silent_server_leaks = refl

-- A short send: the text is sent from its front again.
sends_again : value (Client2.client_sendall unset ok (ret 1 [] ∷ ret 1 [] ∷ []) []) ≡ some (pos 2)
unfolding Client2.client_sendall
sends_again = refl

-- Two clients are served.
abbrev two_clients : List Reply
two_clients =
    ret 3 []
    ∷ ret 0 []
    ∷ ret 0 []
    ∷ ret 0 []
    ∷ ret 0 []
    ∷ ret 4 []
    ∷ ret 100 []
    ∷ ret 0 []
    ∷ ret 4 []
    ∷ ret 101 []
    ∷ ret 0 []
    ∷ []
