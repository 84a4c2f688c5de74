-- ===== src/Kernel.antt =====
-- How the programs meet the kernel: they make calls, whose replies are a list, and each call is
-- logged with its reply. What the kernel does is not modelled: the replies are arbitrary.
pub mod Count
use linux_system_programming.Prelude.{
  ℕ, Bool, true, false, Option, none, some, List, [], ◌∷◌, ℤ, pos, minus_one,
}

pub data Family : Type 0 where
  inet inet6 : Family

pub data SockType : Type 0 where
  stream dgram : SockType

-- An address; the port is in network byte order.
pub record Address : Type 0 where
  pub family : Family
  pub host : ℕ
  pub port : ℕ

-- struct addrinfo, without the pointer to the next one.
pub record AddrInfo : Type 0 where
  pub family : Family
  pub socktype : SockType
  pub addr : Address

-- The calls of which the order and the descriptors matter.
pub data Call : Type 0 where
  socket : (family : Family) (socktype : SockType) → Call
  bind connect : (sd : ℤ) (addr : Address) → Call
  setsockopt listen accept recv recvfrom close : (sd : ℤ) → Call
  send : (sd : ℤ) (bytes : List ℕ) → Call
  sendto : (sd : ℤ) (bytes : List ℕ) (addr : Address) → Call
  fork sigaction waitpid wait pipe getcwd : Call
  dup : (fd : ℤ) → Call
  dup2 : (old new : ℤ) → Call
  execvp : (name : List ℕ) (args : List (List ℕ)) → Call
  chdir open_file : (name : List ℕ) → Call

-- What a call returns: a number, with the bytes that it hands over; or -1, with EINTR or another
-- error.
pub data Reply : Type 0 where
  ret : (n : ℕ) (bytes : List ℕ) → Reply
  error : (interrupted : Bool) → Reply

abbrev pub as_int : Reply → ℤ
as_int (ret n l) = pos n
as_int (error e) = minus_one

-- The test for -1.
abbrev pub failed : Reply → Bool
failed (ret n l) = false
failed (error e) = true

pub record Event : Type 0 where
  pub call : Call
  pub reply : Reply

-- How a run ends: with a value, by `exit`, or in a call that does not return; with the replies
-- that are left, and the log, the last call first.
pub data Outcome (A : Type 0) : Type 0 where
  done : (a : A) (replies : List Reply) (log : List Event) → Outcome A
  exits : (code : ℕ) (log : List Event) → Outcome A
  waits : (log : List Event) → Outcome A

abbrev pub value : {A : Type 0} → Outcome A → Option A
value (done a replies log) = some a
value (exits code log) = none
value (waits log) = none

abbrev pub Sys : Type 0 → Type 0
Sys A = List Reply → List Event → Outcome A

abbrev pub pure : {A : Type 0} → A → Sys A
pure a replies log = done a replies log

abbrev pub exit : {A : Type 0} → ℕ → Sys A
exit code replies log = exits code log

abbrev pub and_then : {A B : Type 0} → Outcome A → (A → Sys B) → Outcome B
and_then (done a replies log) f = f a replies log
and_then (exits code log) f = exits code log
and_then (waits log) f = waits log

infixl 5 ◌>>=◌ ◌>>◌
abbrev pub ◌>>=◌ : {A B : Type 0} → Sys A → (A → Sys B) → Sys B
◌>>=◌ m f replies log = and_then (m replies log) f

abbrev pub ◌>>◌ : {A B : Type 0} → Sys A → Sys B → Sys B
m >> k = m >>= λ _. k

abbrev pub logged : Call → Reply → List Event → List Event
logged c r log = record { call = c; reply = r } ∷ log

abbrev pub invoke : Call → Sys Reply
invoke c [] log = waits log
invoke c (r ∷ replies) log = done r replies (logged c r log)
