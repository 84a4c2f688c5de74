-- ===== src/FileServer/Tests.antt =====
-- A request for a small file.
use linux_system_programming.Prelude.{
  ℕ, ◌≡◌, refl, Bool, true, false, some, List, [], ◌∷◌, ◌++◌, arith, pos, map,
}
use linux_system_programming.Kernel.{Reply, ret, error, Event, done}
use linux_system_programming.Kernel.Count.{same}
use linux_system_programming.Buffers.Shell.{newline, always}
use linux_system_programming.Buffers.Server.{byte, closed, closing}
use linux_system_programming.Transfers.{Read, eof, sent_one, sent_none, returns, returns_error}
use linux_system_programming.Transfers.SendFile.{at_end, next_byte, taken, none_yet, one_more}
use linux_system_programming.FileServer.{Visit, Handled, answered, no_request, handle_client, main}
use linux_system_programming.FileServer.Client.{handle_client-sends}
use linux_system_programming.FileServer.Loop.{
  Serving, over, gets, no_file, cut_off, Balanced, main-Serving,
}

-- "a.c", and what is in it.
abbrev name : List ℕ
name = b'a' ∷ b'.' ∷ b'c' ∷ []

abbrev contents : List ℕ
contents = b'h' ∷ b'i' ∷ []

abbrev all_open : List ℕ → Bool
all_open path = true

abbrev disk : List ℕ → List Read
disk path = Read.byte b'h' ∷ Read.byte b'i' ∷ eof ∷ []

handle_client-sends_example :
    handle_client always 7 all_open disk
      (map byte name ++ byte newline ∷ [])
      (sent_one ∷ sent_none ∷ sent_one ∷ [])
    ≡ answered (returns 1 contents) false
handle_client-sends_example =
    handle_client-sends 7 all_open disk name contents [] (sent_one ∷ sent_none ∷ sent_one ∷ [])
      (ground arith) (ground arith) refl (next_byte b'h' (next_byte b'i' at_end))
      (one_more (none_yet (one_more taken)))

-- A client that gets the file, one that names a file that does not open, and one that breaks off.
abbrev asks : Visit
asks = record {
  recvs = map byte name ++ byte newline ∷ [];
  reads = disk name;
  sends = sent_one ∷ sent_none ∷ sent_one ∷ [];
}

abbrev breaks_off : Visit
breaks_off = record { recvs = map byte name ++ closed ∷ []; reads = []; sends = [] }

abbrev visits : List Visit
visits = asks ∷ asks ∷ breaks_off ∷ []

abbrev replies : List Reply
replies =
    ret 4 [] ∷ ret 5 [] ∷ ret 0 [] ∷ ret 4 [] ∷ error false ∷ ret 0 [] ∷ ret 4 [] ∷ ret 0 [] ∷ []

abbrev handled : List Handled
handled = answered (returns 1 contents) false ∷ answered (returns_error []) true ∷ no_request ∷ []

visits-Serving : Serving visits replies handled
visits-Serving =
    gets name contents [] (disk name) asks.sends (ret 4 []) (ret 0 []) 5 [] (ground arith)
      (ground arith) (omega arith) (next_byte b'h' (next_byte b'i' at_end))
      (one_more (none_yet (one_more taken)))
      (no_file name [] (disk name) asks.sends (ret 4 []) (ret 0 []) false (ground arith)
        (ground arith) (omega arith)
        (cut_off name closed [] [] [] (ret 4 []) (ret 0 []) (ground arith) (omega arith) closing
          over))

main-Serving_example :
    (log' : List Event) × (main always 7
        (λ n. n)
        (some 16777343)
        visits
        (ret 3 [] ∷ ret 0 [] ∷ ret 0 [] ∷ (replies ++ []))
        []
      ≡ done handled [] log')
    × ((d : ℕ) → Balanced d (same d (pos 3)) [] log')
main-Serving_example =
    main-Serving 7 (λ n. n) 16777343 3 0 0 [] [] [] visits replies [] handled [] visits-Serving
