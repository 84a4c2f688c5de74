-- ===== src/Sockets/SelectClient.antt =====
-- 00-network-programming/examples/select_client.c: a TCP client shows what the server sends, while
-- `main` reads lines of stdin, which it shows and does not send.
pub mod Session
use linux_system_programming.Prelude.{
  ℕ, zero, suc, ◌+◌, ◌≤◌, ◌≡◌, refl, ap, ◌∙◌, Bool, true, false, Option, none, some, List, [], ◌∷◌,
  ◌++◌, arith, ℤ, pos, minus_one, eq_int, ltb, ◌==◌, if◌then◌else◌, length, append_assoc,
  append-nil,
}
use linux_system_programming.Kernel.{
  recv, Reply, ret, error, Event, done, waits, Sys, pure, logged, ◌>>=◌, ◌>>◌, value,
}
use linux_system_programming.Transfers.Print.{until_nul}
use linux_system_programming.Sockets.Text.{shown_text, shown_text-fits}
use linux_system_programming.Chat.Client.Connect.{
  Tcpcon, as_ushort, inet6_addrstrlen, tcpcon_init, tcpcon_destroy,
}

-- How `loop` ends: with its result and what it has shown, or with a write behind `rbuf`.
pub data Shown : Type 0 where
  shows : (code : ℤ) (text : List ℕ) → Shown
  overrun : Shown

-- The `while` of `loop`; the replies of recv end it.
unfoldable pub loop : ℕ → ℤ → List ℕ → Sys Shown
unfolding shown_text
loop junk fd out [] log = waits log
loop junk fd out (error e ∷ replies) log =
    done (shows minus_one out) replies (logged (recv fd) (error e) log)
loop junk fd out (ret zero bytes ∷ replies) log =
    done (shows (pos 0) out) replies (logged (recv fd) (ret zero bytes) log)
loop junk fd out (ret (suc n) bytes ∷ replies) log = elim (shown_text (512 + 1) junk bytes) [
  | none ↦ done overrun replies (logged (recv fd) (ret (suc n) bytes) log)
  | some text ↦ loop junk fd (out ++ text) replies (logged (recv fd) (ret (suc n) bytes) log)
]

-- `tcpinfo_t`, with every byte of `ip`
pub record Tcpinfo : Type 0 where
  pub ip : List ℕ
  pub port : ℕ

-- strncpy into an array of as many bytes as it may write; the text has no NUL.
unfoldable pub strncpy : ℕ → List ℕ → List ℕ
strncpy zero text = []
strncpy (suc n) [] = 0 ∷ strncpy n []
strncpy (suc n) (c ∷ text) = c ∷ strncpy n text

unfoldable pub tcpinfo_init : (List ℕ → ℤ) → List ℕ → List ℕ → Tcpinfo
unfolding strncpy
tcpinfo_init atoi ip port = record {
  ip = strncpy inet6_addrstrlen ip;
  port = as_ushort (atoi port);
}

-- The string in an array, `none` where no byte of it is NUL.
abbrev pub string_in : List ℕ → Option (List ℕ)
string_in [] = none
string_in (b ∷ bytes) =
    let rest = string_in bytes in
    if b == 0 then some [] else elim rest [ none ↦ none | some text ↦ some (b ∷ text) ]

-- How `main` ends: with its result and what it has printed of stdin, or where inet_pton is called
-- with an array that holds no string.
pub data Ended : Type 0 where
  ended : (code : ℕ) (out : List ℕ) → Ended
  no_string : Ended

-- "stdin: "
abbrev pub prefix : List ℕ
prefix = b's' ∷ b't' ∷ b'd' ∷ b'i' ∷ b'n' ∷ b':' ∷ b' ' ∷ []

-- The `while`, over what fgets gives.
unfoldable pub input_loop : List (List ℕ) → List ℕ → List ℕ
unfolding until_nul
input_loop [] out = out
input_loop (input ∷ inputs) out = input_loop inputs (out ++ (prefix ++ until_nul input))

-- What `main` does once fgets has no line: `is_error` is ferror(stdin).
unfoldable pub leave : Bool → Option Tcpcon → List ℕ → Sys Ended
unfolding tcpcon_destroy
leave true con out = pure (ended 1 out)
leave false con out = tcpcon_destroy con >> pure (ended 0 out)

-- The connection, and the lines of stdin; pthread_create does not fail.
unfoldable pub session :
    (ℕ → ℕ) → (List ℕ → Option ℕ) → Tcpcon → Tcpinfo → List (List ℕ) → Bool → Sys Ended
unfolding tcpcon_init input_loop leave
session htons inet_pton con info inputs is_error = elim (string_in info.ip) [
  | none ↦ pure no_string
  | some text ↦ tcpcon_init htons (some con) (inet_pton text) info.port >>= λ r.
      if eq_int r.0 (pos 0) then leave is_error r.1 (input_loop inputs []) else pure (ended 1 [])
]

-- `main`, without what its other thread shows.
unfoldable pub main :
    (ℕ → ℕ)
    → (List ℕ → Option ℕ)
    → (List ℕ → ℤ)
    → Tcpcon
    → List (List ℕ)
    → List (List ℕ)
    → Bool
    → Sys Ended
unfolding tcpinfo_init session
main htons inet_pton atoi con (name ∷ ip ∷ port ∷ []) inputs is_error =
    if ltb inet6_addrstrlen (length ip)
    then pure (ended 1 [])
    else session htons inet_pton con (tcpinfo_init atoi ip port) inputs is_error
main htons inet_pton atoi con [] inputs is_error = pure (ended 1 [])
main htons inet_pton atoi con (name ∷ []) inputs is_error = pure (ended 1 [])
main htons inet_pton atoi con (name ∷ ip ∷ []) inputs is_error = pure (ended 1 [])
main htons inet_pton atoi con (name ∷ ip ∷ port ∷ arg ∷ args) inputs is_error = pure (ended 1 [])

-- What recv gives: chunks that are neither empty nor above 512 bytes, with their texts up to a NUL.
pub data Chunks : List Reply → List ℕ → Type 0 where
  none_left : Chunks [] []
  chunk :
      {replies : List Reply} {text : List ℕ} (n : ℕ) (bytes : List ℕ)
      → length bytes ≡ suc n
      → length bytes ≤ 512
      → Chunks replies text
      → Chunks (ret (suc n) bytes ∷ replies) (until_nul bytes ++ text)

-- `loop` shows what stands before the first NUL of each chunk, in order, writes nothing behind its
-- array, and returns 0 when the server has closed the connection.
pub loop-Chunks :
    (junk : ℕ) (fd : ℤ) (replies rest : List Reply) (out text : List ℕ) (log : List Event)
    → Chunks replies text
    → value (loop junk fd out (replies ++ ret 0 [] ∷ rest) log) ≡ some (shows (pos 0) (out ++ text))
unfolding loop
loop-Chunks junk fd replies rest out text log none_left =
    ap (λ l. some (shows (pos 0) l)) (rw (append-nil out) refl)
loop-Chunks junk fd replies rest out text log
      (chunk {replies = more} {text = later} n bytes e le c) =
    rw (shown_text-fits (512 + 1) junk bytes (omega (arith, le)), loop)
      (loop-Chunks junk fd more rest (out ++ until_nul bytes) later
          (logged (recv fd) (ret (suc n) bytes) log) c
        ∙ ap (λ l. some (shows (pos 0) l)) (append_assoc out (until_nul bytes) later))
