-- ===== src/FileServer/Loop.antt =====
-- What `main` does for its clients, and which descriptors it leaves open.
use linux_system_programming.Prelude.{
  ℕ, ◌+◌, ◌<◌, ◌≡◌, refl, Bool, true, false, some, List, [], ◌∷◌, ◌++◌, arith, ℤ, pos, map, length,
}
use linux_system_programming.Kernel.{
  inet, stream, Address, Call, open_file, socket, bind, listen, accept, close, Reply, ret, error,
  as_int, Event, done, logged,
}
use linux_system_programming.Kernel.Count.{same, opened, closed}
use linux_system_programming.Buffers.Shell.{newline, NoNewline, always, most}
use linux_system_programming.Buffers.Server.{Recv, byte, Cut, read_line-request, read_line-cut}
use linux_system_programming.Transfers.{Read, Send, returns, returns_error, send_file}
use linux_system_programming.Transfers.SendFile.{Yields, Takes}
use linux_system_programming.Sockets.Text.{NoNul, until_nul-take}
use linux_system_programming.FileServer.{
  Visit, Handled, answered, no_request, serve_client, create_sock, init_sock, bind_sock,
  listen_sock, accept_client, close_client, serve_loop, main, serv_port,
}
use linux_system_programming.FileServer.Client.{handle_client-request, handle_client-sends}

-- Clients, the replies of the kernel to the calls of their rounds, and what each of them gets: its
-- file; nothing but a message on the server, where the file does not open; or nothing, where recv
-- fails or the connection is closed within the line. Names are short enough for the block, whose
-- size is an `int`.
pub data Serving : List Visit → List Reply → List Handled → Type 0 where
  over : Serving [] [] []
  gets :
      {cs : List Visit} {replies : List Reply} {hs : List Handled} (path file : List ℕ)
      (rest : List Recv) (reads : List Read) (sends : List Send) (accepted shut : Reply) (fd : ℕ)
      (bytes : List ℕ)
      → NoNewline path
      → NoNul path
      → length path < most
      → Yields reads file
      → Takes sends (length file)
      → Serving cs replies hs
      → Serving
          (record { recvs = map byte path ++ byte newline ∷ rest; reads = reads; sends = sends }
            ∷ cs)
          (accepted ∷ ret fd bytes ∷ shut ∷ replies)
          (answered (returns 1 file) false ∷ hs)
  no_file :
      {cs : List Visit} {replies : List Reply} {hs : List Handled} (path : List ℕ)
      (rest : List Recv) (reads : List Read) (sends : List Send) (accepted shut : Reply)
      (interrupted : Bool)
      → NoNewline path
      → NoNul path
      → length path < most
      → Serving cs replies hs
      → Serving
          (record { recvs = map byte path ++ byte newline ∷ rest; reads = reads; sends = sends }
            ∷ cs)
          (accepted ∷ error interrupted ∷ shut ∷ replies)
          (answered (returns_error []) true ∷ hs)
  cut_off :
      {cs : List Visit} {replies : List Reply} {hs : List Handled} (part : List ℕ) (r : Recv)
      (rest : List Recv) (reads : List Read) (sends : List Send) (accepted shut : Reply)
      → NoNewline part
      → length part < most
      → Cut r
      → Serving cs replies hs
      → Serving
          (record { recvs = map byte part ++ r ∷ rest; reads = reads; sends = sends } ∷ cs)
          (accepted ∷ shut ∷ replies)
          (no_request ∷ hs)

-- How often a call of open gave `d`.
abbrev pub file_of : ℕ → Call → ℤ → ℕ
file_of d (open_file path) fd = same d fd
file_of d _ fd = 0

abbrev pub files : ℕ → List Event → ℕ
files d [] = 0
files d (e ∷ log) = file_of d e.call (as_int e.reply) + files d log

-- Between two logs `d` was handed out as often as it was closed, but for `n` times and for the files.
abbrev pub Balanced : ℕ → ℕ → List Event → List Event → Type 0
Balanced d n before after =
    opened d after + closed d before + files d before
    ≡ opened d before + closed d after + files d after + n

serve_client-gets :
    (junk : ℕ) (path file : List ℕ) (rest : List Recv) (reads : List Read) (sends : List Send)
    (fd : ℕ) (bytes : List ℕ) (replies : List Reply) (log : List Event)
    → NoNewline path
    → NoNul path
    → Yields reads file
    → Takes sends (length file)
    → serve_client always junk
        (record { recvs = map byte path ++ byte newline ∷ rest; reads = reads; sends = sends })
        (ret fd bytes ∷ replies)
        log
      ≡ done (answered (returns 1 file) false) replies (logged (open_file path) (ret fd bytes) log)
unfolding serve_client
serve_client-gets junk path file rest reads sends fd bytes replies log line text yields takes =
    let (b, runs, begins) = read_line-request junk path rest line in
    rw
      (
        runs,
        serve_client,
        until_nul-take path b text begins,
        handle_client-sends junk (λ p. true) (λ p. reads) path file rest sends line text refl yields
            takes,
      )
      refl

serve_client-no_file :
    (junk : ℕ) (path : List ℕ) (rest : List Recv) (reads : List Read) (sends : List Send)
    (interrupted : Bool) (replies : List Reply) (log : List Event)
    → NoNewline path
    → NoNul path
    → serve_client always junk
        (record { recvs = map byte path ++ byte newline ∷ rest; reads = reads; sends = sends })
        (error interrupted ∷ replies)
        log
      ≡ done
          (answered (returns_error []) true)
          replies
          (logged (open_file path) (error interrupted) log)
unfolding serve_client send_file
serve_client-no_file junk path rest reads sends interrupted replies log line text =
    let (b, runs, begins) = read_line-request junk path rest line in
    rw
      (
        runs,
        serve_client,
        until_nul-take path b text begins,
        handle_client-request junk (λ p. false) (λ p. reads) path rest sends line text,
      )
      refl

serve_loop-Serving :
    (junk : ℕ) (sd : ℤ) (clients : List Visit) (replies rest : List Reply) (hs : List Handled)
    (log : List Event)
    → Serving clients replies hs
    → (log' : List Event) × (serve_loop always junk clients sd (replies ++ rest) log
        ≡ done hs rest log')
      × ((d : ℕ) → Balanced d 0 log log')
unfolding serve_loop accept_client close_client
serve_loop-Serving junk sd clients replies rest hs log over = (log, refl, λ d. omega arith)
serve_loop-Serving junk sd clients replies rest hs log
      (gets {cs} {replies = later} {hs = more} path file r reads sends accepted shut fd bytes line
        text short yields takes s) =
    let log' =
      logged (close (as_int accepted)) shut
        (logged (open_file path) (ret fd bytes) (logged (accept sd) accepted log)) in
    let (log'', runs, balanced) = serve_loop-Serving junk sd cs later rest more log' s in
    (
      log'',
      rw
          (
            serve_loop,
            serve_client-gets junk path file r reads sends fd bytes (shut ∷ (later ++ rest))
                (logged (accept sd) accepted log) line text yields takes,
            runs,
          )
          refl,
      λ d. omega (arith, balanced d),
    )
serve_loop-Serving junk sd clients replies rest hs log
      (no_file {cs} {replies = later} {hs = more} path r reads sends accepted shut interrupted line
        text short s) =
    let log' =
      logged (close (as_int accepted)) shut
        (logged (open_file path) (error interrupted) (logged (accept sd) accepted log)) in
    let (log'', runs, balanced) = serve_loop-Serving junk sd cs later rest more log' s in
    (
      log'',
      rw
          (
            serve_loop,
            serve_client-no_file junk path r reads sends interrupted (shut ∷ (later ++ rest))
                (logged (accept sd) accepted log) line text,
            runs,
          )
          refl,
      λ d. omega (arith, balanced d),
    )
serve_loop-Serving junk sd clients replies rest hs log
      (cut_off {cs} {replies = later} {hs = more} part r behind reads sends accepted shut line short
        cut s) =
    let log' = logged (close (as_int accepted)) shut (logged (accept sd) accepted log) in
    let (log'', runs, balanced) = serve_loop-Serving junk sd cs later rest more log' s in
    (
      log'',
      rw (serve_loop, serve_client, read_line-cut junk part r behind line cut, runs) refl,
      λ d. omega (arith, balanced d),
    )

-- Where socket, bind and listen succeed and there is memory: `main` answers each client in turn, a
-- name with the bytes of its file if open, read and send succeed, a name that does not open with
-- nothing and a message, and goes on behind a client that breaks off. Then every connection is
-- closed; what is open is the listening socket, with number `n`, and every file that was opened.
pub main-Serving :
    (junk : ℕ) (htons : ℕ → ℕ) (host n k m : ℕ) (l b b' : List ℕ) (clients : List Visit)
    (replies rest : List Reply) (hs : List Handled) (log : List Event)
    → Serving clients replies hs
    → (log' : List Event) × (main always junk htons
          (some host)
          clients
          (ret n l ∷ ret k b ∷ ret m b' ∷ (replies ++ rest))
          log
        ≡ done hs rest log')
      × ((d : ℕ) → Balanced d (same d (pos n)) log log')
unfolding main create_sock init_sock bind_sock listen_sock
main-Serving junk htons host n k m l b b' clients replies rest hs log s =
    let address : Address = record { family = inet; host = host; port = htons serv_port } in
    let log' =
      logged (listen (pos n)) (ret m b')
        (logged (bind (pos n) address) (ret k b) (logged (socket inet stream) (ret n l) log)) in
    let (log'', runs, balanced) = serve_loop-Serving junk (pos n) clients replies rest hs log' s in
    (log'', rw (main, runs) refl, λ d. omega (arith, balanced d))
