-- ===== src/FileServer.antt =====
-- 04-process-management/file_server.c: a TCP server that reads the name of a file and sends the
-- file.
pub mod Client
pub mod Loop
mod Tests
use linux_system_programming.Prelude.{
  ℕ, Bool, true, false, not, Option, none, some, List, [], ◌∷◌, ℤ, zero, suc,
}
use linux_system_programming.Kernel.{
  inet, stream, Address, Call, socket, bind, listen, accept, close, open_file, Reply, ret, error,
  as_int, failed, Outcome, Sys, pure, exit, invoke, and_then, ◌>>=◌, ◌>>◌,
}
use linux_system_programming.Buffers.Server.{
  Recv, Request, request, null_result, blocked, overrun, read_line,
}
use linux_system_programming.Transfers.{
  Read, Send, Served, returns, returns_error, waits, send_file,
}
use linux_system_programming.Transfers.Print.{until_nul}

-- What a call of `handle_client` does: no request comes; the file is sent, or not, and whether the
-- failure is reported; no request comes before the calls of recv end; or a write leaves the array.
pub data Handled : Type 0 where
  no_request : Handled
  answered : (result : Served) (reported : Bool) → Handled
  unfinished : Handled
  out_of_bounds : Handled

-- `if(ret == -1)`
abbrev pub is_error : Served → Bool
is_error (returns code out) = false
is_error (returns_error out) = true
is_error (waits out) = false

-- `opens path` says whether `open` succeeds, and `files path` what read gives then.
unfoldable pub handle_client :
    (ℕ → Bool) → ℕ → (List ℕ → Bool) → (List ℕ → List Read) → List Recv → List Send → Handled
unfolding read_line until_nul send_file
handle_client grants junk opens files recvs sends = elim (read_line grants junk recvs) [
  | request buf rest ↦
      let served = send_file (opens (until_nul buf)) (files (until_nul buf)) sends in
      answered served (is_error served)
  | null_result ↦ no_request
  | blocked ↦ unfinished
  | overrun ↦ out_of_bounds
]

-- struct server_sock, without the backlog, which is SERV_BACKLOG.
pub record ServerSock : Type 0 where
  pub sd : ℤ
  pub addr : Address

-- SERV_PORT
abbrev pub serv_port : ℕ
serv_port = 8888

unfoldable pub create_sock : Sys Reply
create_sock = invoke (socket inet stream)

-- `parsed` is the host that inet_pton reads in SERV_ADDR, `none` where it reads none.
unfoldable pub init_sock : (ℕ → ℕ) → ℤ → Option ℕ → ℕ → Option ServerSock
init_sock htons sd none port = none
init_sock htons sd (some host) port =
    some (record { sd = sd; addr = record { family = inet; host = host; port = htons port } })

unfoldable pub bind_sock : ServerSock → Sys Reply
bind_sock server = invoke (bind server.sd server.addr)

unfoldable pub listen_sock : ServerSock → Sys Reply
listen_sock server = invoke (listen server.sd)

unfoldable pub accept_client : ℤ → Sys ℤ
accept_client sd = invoke (accept sd) >>= λ r. pure (as_int r)

unfoldable pub close_client : ℤ → Sys Reply
close_client sd = invoke (close sd)

-- A round of the `while`: what recv gives, what read gives if the file opens, and what send gives.
pub record Visit : Type 0 where
  pub recvs : List Recv
  pub reads : List Read
  pub sends : List Send

-- `handle_client` with its call of open, the only one that changes the descriptors.
unfoldable pub serve_client : (ℕ → Bool) → ℕ → Visit → Sys Handled
unfolding handle_client read_line until_nul
serve_client grants junk c = elim (read_line grants junk c.recvs) [
  | request buf rest ↦ invoke (open_file (until_nul buf)) >>= λ r.
      pure (handle_client grants junk (λ path. not (failed r)) (λ path. c.reads) c.recvs c.sends)
  | null_result ↦ pure no_request
  | blocked ↦ pure unfinished
  | overrun ↦ pure out_of_bounds
]

abbrev pub hang : {A : Type 0} → Sys A
hang replies log = Outcome.waits log

-- The `while` of `main`, for a round with each client; where accept fails `client` is -1, and the
-- calls of recv fail. The result is what the calls of `handle_client` did.
unfoldable pub serve_loop : (ℕ → Bool) → ℕ → List Visit → ℤ → Sys (List Handled)
unfolding accept_client serve_client close_client
serve_loop grants junk [] sd = pure []
serve_loop grants junk (c ∷ cs) sd = accept_client sd >>= λ client.
    serve_client grants junk c >>= λ h. elim h [
      | unfinished ↦ hang
      | out_of_bounds ↦ pure (out_of_bounds ∷ [])
      | no_request ↦
          close_client client >> (serve_loop grants junk cs sd >>= λ hs. pure (no_request ∷ hs))
      | answered result reported ↦
          close_client client
          >> (serve_loop grants junk cs sd >>= λ hs. pure (answered result reported ∷ hs))
    ]

-- `main`; it returns 1, as here by `exit`, where a call fails.
unfoldable pub main : (ℕ → Bool) → ℕ → (ℕ → ℕ) → Option ℕ → List Visit → Sys (List Handled)
unfolding create_sock init_sock bind_sock listen_sock serve_loop
main grants junk htons parsed clients = create_sock >>= λ sd. elim (failed sd) [
  | true ↦ exit 1
  | false ↦ elim (init_sock htons (as_int sd) parsed serv_port) [
    | none ↦ exit 1
    | some server ↦ bind_sock server >>= λ bound. elim (failed bound) [
      | true ↦ exit 1
      | false ↦ listen_sock server >>= λ listening. elim (failed listening) [
        | true ↦ exit 1
        | false ↦ serve_loop grants junk clients server.sd
      ]
    ]
  ]
]
