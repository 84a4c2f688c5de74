-- ===== src/FileServer/Client.antt =====
-- What `handle_client` sends for a request.
use linux_system_programming.Prelude.{
  ℕ, ◌<◌, ◌≡◌, refl, ap, ◌∙◌, Bool, true, false, List, ◌∷◌, ◌++◌, map, length, take,
}
use linux_system_programming.Buffers.Shell.{newline, NoNewline, always}
use linux_system_programming.Buffers.Server.{Recv, byte, read_line-request}
use linux_system_programming.Transfers.{Read, Send, returns, send_file}
use linux_system_programming.Transfers.SendFile.{
  Yields, Takes, FailsAt, send_file_all, send_file_cut,
}
use linux_system_programming.Sockets.Text.{NoNul, until_nul-take}
use linux_system_programming.FileServer.{answered, is_error, handle_client}

-- A request line names a file that opens: what `send_file` does with that file is what happens.
pub handle_client-request :
    (junk : ℕ) (opens : List ℕ → Bool) (files : List ℕ → List Read) (path : List ℕ)
    (rest : List Recv) (sends : List Send)
    → NoNewline path
    → NoNul path
    → handle_client always junk opens files (map byte path ++ byte newline ∷ rest) sends
      ≡ answered
          (send_file (opens path) (files path) sends)
          (is_error (send_file (opens path) (files path) sends))
unfolding handle_client
handle_client-request junk opens files path rest sends line text =
    let (b, runs, begins) = read_line-request junk path rest line in
    rw (runs, handle_client, until_nul-take path b text begins) refl

-- A client sends the name of a file, of any length and with no NUL in it, and a line feed, with
-- memory for the name. If the file opens, read hands it over and send takes every byte in the end,
-- the client gets the bytes of that file in order.
pub handle_client-sends :
    (junk : ℕ) (opens : List ℕ → Bool) (files : List ℕ → List Read) (path file : List ℕ)
    (rest : List Recv) (sends : List Send)
    → NoNewline path
    → NoNul path
    → opens path ≡ true
    → Yields (files path) file
    → Takes sends (length file)
    → handle_client always junk opens files (map byte path ++ byte newline ∷ rest) sends
      ≡ answered (returns 1 file) false
handle_client-sends junk opens files path file rest sends line text opened yields takes_all =
    let sent : send_file (opens path) (files path) sends ≡ returns 1 file =
      ap (λ o. send_file o (files path) sends) opened
      ∙ send_file_all (files path) file sends yields takes_all in
    handle_client-request junk opens files path rest sends line text
    ∙ ap (λ s. answered s (is_error s)) sent

-- If instead send fails behind the first `n` bytes, the client has those `n` bytes, and
-- `handle_client` reports nothing.
pub handle_client-silent :
    (junk : ℕ) (opens : List ℕ → Bool) (files : List ℕ → List Read) (path file : List ℕ)
    (rest : List Recv) (sends : List Send) (n : ℕ)
    → NoNewline path
    → NoNul path
    → opens path ≡ true
    → Yields (files path) file
    → FailsAt sends n
    → n < length file
    → handle_client always junk opens files (map byte path ++ byte newline ∷ rest) sends
      ≡ answered (returns 1 (take n file)) false
handle_client-silent junk opens files path file rest sends n line text opened yields fails below =
    let sent : send_file (opens path) (files path) sends ≡ returns 1 (take n file) =
      ap (λ o. send_file o (files path) sends) opened
      ∙ send_file_cut (files path) file sends n yields fails below in
    handle_client-request junk opens files path rest sends line text
    ∙ ap (λ s. answered s (is_error s)) sent
