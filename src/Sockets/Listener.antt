-- ===== src/Sockets/Listener.antt =====
-- 00-network-programming/examples/listener.c: how the server gets its socket.
use linux_system_programming.Prelude.{
  ℕ, zero, suc, true, false, Option, none, some, List, [], ◌∷◌, ℤ, ◌==◌, if◌then◌else◌,
}
use linux_system_programming.Kernel.{
  AddrInfo, socket, bind, close, as_int, failed, Sys, pure, invoke, ◌>>=◌, ◌>>◌,
}
use linux_system_programming.Kernel.Count.{same}
use linux_system_programming.Sockets.{Sock}

-- `close`, and a message if it fails.
unfoldable pub try_close : ℤ → Sys (Unit {0})
try_close fd = invoke (close fd) >> pure tt

-- The `for` of `init_with_first`: its result, and `serv`.
unfoldable pub first_loop : Sock → List AddrInfo → Sys (ℕ × Sock)
unfolding try_close
first_loop serv [] = pure (0, serv)
first_loop serv (info ∷ res) = invoke (socket info.family info.socktype) >>= λ sd.
    elim (failed sd) [
      | true ↦ first_loop serv res
      | false ↦ invoke (bind (as_int sd) info.addr) >>= λ bound. elim (failed bound) [
        | true ↦
            try_close (as_int sd) >> first_loop (record { sd = as_int sd; addr = serv.addr }) res
        | false ↦ pure (1, record { sd = as_int sd; addr = info.addr })
      ]
    ]

-- `none` is NULL.
unfoldable pub init_with_first : Option Sock → List AddrInfo → Sys (ℕ × Option Sock)
unfolding first_loop
init_with_first none res = pure (0, none)
init_with_first (some serv) res = first_loop serv res >>= λ r. pure (r.0, some r.1)

-- `found` is what getaddrinfo gives: the addresses, or none where it fails.
unfoldable pub udp_serv : Option Sock → Option (List AddrInfo) → Sys (ℕ × Option Sock)
unfolding init_with_first
udp_serv none found = pure (0, none)
udp_serv (some serv) none = pure (0, some serv)
udp_serv (some serv) (some res) =
    init_with_first (some serv) res >>= λ r. pure (if r.0 == 0 then 0 else 1, r.1)

-- The socket that a success leaves open.
abbrev kept : ℕ → ℕ × Sock → ℕ
kept d (zero, serv) = 0
kept d (suc k, serv) = same d serv.sd

-- The socket that `udp_serv` leaves open when it returns `r.0`.
abbrev pub serving : ℕ → ℕ × Option Sock → ℕ
serving d (zero, serv) = 0
serving d (suc k, none) = 0
serving d (suc k, some serv) = same d serv.sd
