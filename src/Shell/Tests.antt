-- ===== src/Shell/Tests.antt =====
-- A session of two lines.
use linux_system_programming.Prelude.{ℕ, ◌≡◌, refl, some, List, [], ◌∷◌, arith}
use linux_system_programming.Kernel.{ret, value}
use linux_system_programming.Buffers.Shell.{at_eof}
use linux_system_programming.Buffers.Tokens.{Realloc, in_place}
use linux_system_programming.Shell.{exit_name, Strtok, left, ezsh_loop}
use linux_system_programming.Shell.Session.{IsCommand, enough, typed, session, ezsh_loop-session}

-- "ls", and a strtok for lines of one word: the word stands at the address 1000.
abbrev ls : List ℕ
ls = b'l' ∷ b's' ∷ []

abbrev one_word : Strtok
one_word = record { tokens = λ cs. 1000 ∷ []; text = λ cs a. cs }

abbrev unmoved : ℕ → Realloc
unmoved n = in_place 1000

ls-IsCommand : IsCommand one_word ls
ls-IsCommand = record {
  whole = ground arith;
  short = omega arith;
  string = ground arith;
  addresses = ground arith;
  few = omega arith;
}

exit-IsCommand : IsCommand one_word exit_name
exit-IsCommand = record {
  whole = ground arith;
  short = omega arith;
  string = ground arith;
  addresses = ground arith;
  few = omega arith;
}

ezsh_loop-session_example :
    ezsh_loop (enough 7 unmoved) one_word at_eof 3 (typed (ls ∷ exit_name ∷ []) [])
    ≡ session one_word at_eof (ls ∷ exit_name ∷ []) []
ezsh_loop-session_example =
    ezsh_loop-session 7 unmoved one_word at_eof (ls ∷ exit_name ∷ []) [] 3
      (ls-IsCommand, (exit-IsCommand, tt)) (ground arith) (omega arith) (omega arith)

-- The shell waits for `ls`, and leaves.
leaves :
    value (session one_word at_eof (ls ∷ exit_name ∷ []) [] (ret 100 [] ∷ ret 100 [] ∷ []) [])
    ≡ some (left [])
unfolding session
leaves = refl
