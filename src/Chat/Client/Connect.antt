-- ===== src/Chat/Client/Connect.antt =====
-- How 00-network-programming/examples/chat/client.c gets its connection; the functions of these
-- names in 00-network-programming/examples/select_client.c are the same.
use linux_system_programming.Prelude.{
  ℕ, ◌-◌, ◌%◌, ◌^◌, Option, none, some, List, [], ◌∷◌, arith, ℤ, pos, negsuc, minus_one, eq_int,
  if◌then◌else◌,
}
use linux_system_programming.Kernel.{
  inet, stream, Address, socket, connect, close, Reply, ret, error, as_int, failed, Event, Sys,
  pure, invoke, ◌>>=◌,
}
use linux_system_programming.Kernel.Count.{same, Ends}

-- `tcpcon_t`
pub record Tcpcon : Type 0 where
  pub fd : ℤ
  pub addr : Address

-- INET6_ADDRSTRLEN
abbrev pub inet6_addrstrlen : ℕ
inet6_addrstrlen = 46

-- An `int` as an `unsigned short`.
abbrev pub as_ushort : ℤ → ℕ
as_ushort (pos n) = n % 2 ^ 16
as_ushort (negsuc n) = 2 ^ 16 - 1 - n % 2 ^ 16

-- `parsed` is the host that inet_pton reads, `none` where it reads none. The result comes with the
-- new `con`; `none` is NULL.
unfoldable pub tcpcon_config : (ℕ → ℕ) → Option Tcpcon → Option ℕ → ℕ → Sys (ℤ × Option Tcpcon)
tcpcon_config htons none parsed port = pure (minus_one, none)
tcpcon_config htons (some con) none port = pure (minus_one, some con)
tcpcon_config htons (some con) (some host) port = invoke (socket inet stream) >>= λ sd. pure (
  if failed sd then minus_one else pos 0,
  some (record { fd = as_int sd; addr = record { family = inet; host = host; port = htons port } }),
)

unfoldable pub tcpcon_destroy : Option Tcpcon → Sys ℤ
tcpcon_destroy none = pure minus_one
tcpcon_destroy (some con) = invoke (close con.fd) >>= λ r. pure (as_int r)

-- `connect`, and the results of `tcpcon_init`.
unfoldable pub tcpcon_connect : Option Tcpcon → Sys (ℤ × Option Tcpcon)
tcpcon_connect none = pure (minus_one, none)
tcpcon_connect (some con) =
    invoke (connect con.fd con.addr) >>= λ r. pure (if failed r then minus_one else pos 0, some con)

unfoldable pub tcpcon_init : (ℕ → ℕ) → Option Tcpcon → Option ℕ → ℕ → Sys (ℤ × Option Tcpcon)
unfolding tcpcon_config tcpcon_connect
tcpcon_init htons con parsed port = tcpcon_config htons con parsed port >>= λ r.
    if eq_int r.0 (pos 0) then tcpcon_connect r.1 else pure r

-- The descriptor in `con`.
abbrev pub held : ℕ → ℤ × Option Tcpcon → ℕ
held d (r, none) = 0
held d (r, some con) = same d con.fd

-- For any replies: where inet_pton reads an address, `tcpcon_init` opens the socket in `con` and no
-- other, whether it returns 0 or -1: where connect fails the socket stays open. It returns if the
-- kernel gives two replies.
pub tcpcon_init-Ends :
    (htons : ℕ → ℕ) (con : Tcpcon) (host port d : ℕ) (replies : List Reply) (log : List Event)
    → Ends (held d) d 2 replies log (tcpcon_init htons (some con) (some host) port replies log)
unfolding tcpcon_init
tcpcon_init-Ends htons con host port d [] log = omega arith
tcpcon_init-Ends htons con host port d (error e ∷ replies) log = omega arith
tcpcon_init-Ends htons con host port d (ret n l ∷ []) log = omega arith
tcpcon_init-Ends htons con host port d (ret n l ∷ error e ∷ replies) log = omega arith
tcpcon_init-Ends htons con host port d (ret n l ∷ ret m l' ∷ replies) log = omega arith
