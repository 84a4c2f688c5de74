-- ===== src/Sockets.antt =====
-- The programs of 00-network-programming/examples on sockets: which descriptors they open and
-- close, and what they return, for any replies of the kernel.
pub mod Text
pub mod Listener
pub mod Messages
pub mod Talker
pub mod Client1
pub mod Client2
pub mod Server
pub mod SelectClient
mod Tests
use linux_system_programming.Prelude.{ℤ}
use linux_system_programming.Kernel.{Address}

-- ServerSock of listener.c, ClientSock of talker.c.
pub record Sock : Type 0 where
  pub sd : ℤ
  pub addr : Address
