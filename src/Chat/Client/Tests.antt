-- ===== src/Chat/Client/Tests.antt =====
-- Two lines, sent one by one in a whole session, and together.
use linux_system_programming.Prelude.{
  ℕ, ◌≡◌, refl, false, none, some, pos, minus_one, List, [], ◌∷◌, ◌++◌, arith, length,
}
use linux_system_programming.Heap.{Heap}
use linux_system_programming.Chat.LList.{LNode, empty}
use linux_system_programming.Transfers.{Call, took, interrupted, all_sent, sendall}
use linux_system_programming.Transfers.Print.{until_nul}
use linux_system_programming.Chat.Client.{
  Event, typed, turn, pipe_ready, received, no_line, run, returned, crash,
}
use linux_system_programming.Chat.Client.Lines.{
  TakesAll, takes, again, OneByOne, over, line, chunk, idle,
}
use linux_system_programming.Kernel.{inet, ret, done}
use linux_system_programming.Chat.Client.Connect.{Tcpcon}
use linux_system_programming.Chat.Client.Main.{main, session_log, main-session}
use linux_system_programming.Chat.Client.Crash.{run-crash}

abbrev no_nodes : Heap LNode
no_nodes a = none

abbrev no_texts : Heap (List ℕ)
no_texts a = none

-- "hi" and "yo", with their line feeds.
abbrev hi : List ℕ
hi = b'h' ∷ b'i' ∷ 10 ∷ []

abbrev yo : List ℕ
yo = b'y' ∷ b'o' ∷ 10 ∷ []

-- One call of send that takes all three bytes, behind one that is interrupted.
abbrev sends : List Call
sends = interrupted ∷ took 3 ∷ []

whole : (cs : List ℕ) → length cs ≡ 3 → sendall sends cs ≡ all_sent cs
unfolding sendall
whole (a ∷ b ∷ c ∷ []) e = refl
whole [] e = absurd (omega (arith, e))
whole (a ∷ []) e = absurd (omega (arith, e))
whole (a ∷ b ∷ []) e = absurd (omega (arith, e))
whole (a ∷ b ∷ c ∷ d ∷ cs) e = absurd (omega (arith, e))

hi_text : length (until_nul hi) ≡ 3
unfolding until_nul
hi_text = refl

hi-TakesAll : TakesAll (length (until_nul hi)) sends
unfolding until_nul
hi-TakesAll = again (takes [])

yo-TakesAll : TakesAll (length (until_nul yo)) sends
unfolding until_nul
yo-TakesAll = again (takes [])

abbrev talk : List Event
talk =
    typed 1 100 hi
    ∷ turn (pipe_ready sends)
    ∷ turn (received yo)
    ∷ typed 2 101 yo
    ∷ turn (pipe_ready sends)
    ∷ []

talk-OneByOne : OneByOne talk (until_nul hi ++ (until_nul yo ++ [])) (until_nul yo ++ [])
talk-OneByOne =
    line 1 100 hi sends (omega arith) (omega arith) hi-TakesAll
      (chunk yo (omega arith) (line 2 101 yo sends (omega arith) (omega arith) yo-TakesAll over))

-- "::1" stands for any address, and the port is 80.
abbrev argv : List (List ℕ)
argv = (b'c' ∷ []) ∷ (b':' ∷ b':' ∷ b'1' ∷ []) ∷ (b'8' ∷ b'0' ∷ []) ∷ []

abbrev con : Tcpcon
con = record { fd = minus_one; addr = record { family = inet; host = 0; port = 0 } }

main-session_example :
    (nodes' : Heap LNode) × (texts' : Heap (List ℕ)) × (main
        (λ n. n)
        (λ ip. some 16777343)
        (λ port. pos 80)
        con
        argv
        (talk ++ no_line false ∷ [])
        (record (idle no_nodes no_texts [] []) { queue = empty })
        (ret 0 [] ∷ ret 5 [] ∷ ret 0 [] ∷ ret 0 [] ∷ [])
        []
      ≡ done
          (returned 0
            (idle nodes' texts' (until_nul hi ++ (until_nul yo ++ [])) (until_nul yo ++ [])))
          []
          (session_log
            (record { family = inet; host = 16777343; port = 80 })
            (ret 0 [])
            (ret 0 [])
            5
            []
            (ret 0 [])
            []))
main-session_example =
    main-session (λ n. n) (λ ip. some 16777343) (λ port. pos 80) con (b'c' ∷ [])
      (b':' ∷ b':' ∷ b'1' ∷ []) (b'8' ∷ b'0' ∷ []) 16777343 0 0 5 [] [] [] (ret 0 []) [] [] talk
      (until_nul hi ++ (until_nul yo ++ [])) (until_nul yo ++ []) empty no_nodes no_texts
      (omega arith) refl talk-OneByOne

run-crash_example :
    run
      (typed 1 100 hi ∷ typed 2 101 yo ∷ turn (pipe_ready sends) ∷ turn (pipe_ready sends) ∷ [])
      (idle no_nodes no_texts [] [])
    ≡ crash
run-crash_example =
    run-crash no_nodes no_texts [] [] 1 2 100 101 hi yo (until_nul hi) sends sends [] (omega arith)
      (omega arith) (omega arith) (omega arith) (omega arith) (omega arith)
      (whole (until_nul hi) hi_text)
