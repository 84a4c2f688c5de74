-- ===== src/Chat/Client/Main.antt =====
-- The whole of `main`: its arguments, the list, the pipe, the connection, and the two threads.
use linux_system_programming.Prelude.{
  ℕ, zero, suc, ◌≤◌, ◌≡◌, refl, ap, false, Option, none, some, List, [], ◌∷◌, ◌++◌, arith, ltb,
  if◌then◌else◌, ℤ, pos, eq_int, length,
}
use linux_system_programming.Heap.{Heap}
use linux_system_programming.Chat.LList.{LNode, LList, llist_init}
use linux_system_programming.Kernel.{
  inet, stream, Address, socket, connect, pipe, close, Reply, ret, Event, failed, done, logged, Sys,
  pure, invoke, ◌>>=◌, ◌>>◌,
}
use linux_system_programming.Chat.Client
use linux_system_programming.Chat.Client.{
  Client, Progress, running, returned, stuck, crash, no_line, step, run,
}
use linux_system_programming.Chat.Client.Connect.{
  Tcpcon, as_ushort, inet6_addrstrlen, tcpcon_init, tcpcon_destroy,
}
use linux_system_programming.Chat.Client.Lines.{OneByOne, idle, run-OneByOne}

-- What `main` does behind its `while`; the socket is left open where fgets has failed.
unfoldable pub leave : Option Tcpcon → Progress → Sys Progress
unfolding tcpcon_destroy
leave con (returned zero c) = tcpcon_destroy con >> pure (returned 0 c)
leave con (returned (suc code) c) = pure (returned (suc code) c)
leave con (running c) = pure (running c)
leave con stuck = pure stuck
leave con crash = pure crash

-- The pipe and the connection, and then the events of both threads, whose calls of the kernel are
-- part of the events and not of the log; pthread_create does not fail.
unfoldable pub set_up : (ℕ → ℕ) → Tcpcon → Option ℕ → ℕ → List Client.Event → Client → Sys Progress
unfolding tcpcon_init run leave
set_up htons con parsed port events c = invoke pipe >>= λ r.
    if failed r
    then pure (returned 1 c)
    else tcpcon_init htons (some con) parsed port >>= λ t.
        if eq_int t.0 (pos 0) then leave t.1 (run events c) else pure (returned 1 c)

abbrev pub with_init : Option LList → Client → Client
with_init none c = c
with_init (some l) c = record c { queue = l }

-- `c` and `con` are the locals as they are at first.
unfoldable pub main :
    (ℕ → ℕ)
    → (List ℕ → Option ℕ)
    → (List ℕ → ℤ)
    → Tcpcon
    → List (List ℕ)
    → List Client.Event
    → Client
    → Sys Progress
unfolding llist_init set_up
main htons inet_pton atoi con (name ∷ ip ∷ port ∷ []) events c =
    if ltb inet6_addrstrlen (length ip)
    then pure (returned 1 c)
    else set_up htons con (inet_pton ip) (as_ushort (atoi port)) events
        (with_init (llist_init (some c.queue)).1 c)
main htons inet_pton atoi con [] events c = pure (returned 1 c)
main htons inet_pton atoi con (name ∷ []) events c = pure (returned 1 c)
main htons inet_pton atoi con (name ∷ ip ∷ []) events c = pure (returned 1 c)
main htons inet_pton atoi con (name ∷ ip ∷ port ∷ arg ∷ args) events c = pure (returned 1 c)

-- What a run goes on with.
abbrev continued : List Client.Event → Progress → Progress
continued events p = elim p [
  | running c ↦ run events c
  | returned code c ↦ returned code c
  | stuck ↦ stuck
  | crash ↦ crash
]

continued-append :
    (events more : List Client.Event) (d : Client) (p : Progress)
    → ((c : Client) → run events c ≡ running d → run (events ++ more) c ≡ run more d)
    → continued events p ≡ running d
    → continued (events ++ more) p ≡ run more d
continued-append events more d (running c) h e = h c e
continued-append events more d (returned code c) h e = cc
continued-append events more d stuck h e = cc
continued-append events more d crash h e = cc

run-append :
    (events more : List Client.Event) (c d : Client)
    → run events c ≡ running d
    → run (events ++ more) c ≡ run more d
unfolding run
run-append [] more c d e = ap (run more) cc
run-append (event ∷ events) more c d e =
    continued-append events more d (step event c) (λ k. run-append events more k d) e

-- The calls of a session, the last one first.
abbrev pub session_log : Address → Reply → Reply → ℕ → List ℕ → Reply → List Event → List Event
session_log addr piped connected sd bytes closed log = logged (close (pos sd)) closed (
    logged (connect (pos sd) addr) connected
      (logged (socket inet stream) (ret sd bytes) (logged pipe piped log)))

module _ (htons : ℕ → ℕ) (inet_pton : List ℕ → Option ℕ) (atoi : List ℕ → ℤ) (con : Tcpcon) where
  -- With an address of at most INET6_ADDRSTRLEN bytes that inet_pton takes, a pipe and a connection:
  -- where each line of stdin is taken by one call of send, behind calls that signals
  -- interrupt, before the next one is typed, and select, recv and
  -- malloc do not fail until stdin ends, `main` returns 0. The server has then got the texts of the
  -- lines in order, each chunk was shown up to its first NUL, the queue is empty, and close was called
  -- with the socket, the only one.
  pub main-session :
      (name ip port : List ℕ) (host n k sd : ℕ) (b b' bytes : List ℕ) (closed : Reply)
      (replies : List Reply) (log : List Event) (events : List Client.Event) (sent shown : List ℕ)
      (queue : LList) (nodes : Heap LNode) (texts : Heap (List ℕ))
      → length ip ≤ inet6_addrstrlen
      → inet_pton ip ≡ some host
      → OneByOne events sent shown
      → (nodes' : Heap LNode) × (texts' : Heap (List ℕ)) × (main htons inet_pton atoi con
            (name ∷ ip ∷ port ∷ [])
            (events ++ no_line false ∷ [])
            (record (idle nodes texts [] []) { queue = queue })
            (ret n b ∷ ret sd bytes ∷ ret k b' ∷ closed ∷ replies)
            log
          ≡ done (returned 0 (idle nodes' texts' sent shown)) replies (
              session_log
                (record { family = inet; host = host; port = htons (as_ushort (atoi port)) })
                (ret n b)
                (ret k b')
                sd
                bytes
                closed
                log))
  unfolding main set_up leave step
  main-session name ip port host n k sd b b' bytes closed replies log events sent shown queue nodes
        texts le reads one =
      let (nodes', texts', e) = run-OneByOne nodes texts [] [] sent shown events one in
      let fits : ltb inet6_addrstrlen (length ip) ≡ false = ground (arith, le) in
      (
        nodes',
        texts',
        rw
            (
              fits,
              reads,
              run-append events (no_line false ∷ []) (idle nodes texts [] [])
                  (idle nodes' texts' sent shown) e,
              run,
            )
            refl,
      )
