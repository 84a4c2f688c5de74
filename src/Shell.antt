-- ===== src/Shell.antt =====
-- 04-process-management/shell.c: the loop that reads a line, splits it and runs the command. An
-- array of arguments is a list of addresses with 0 for NULL, and `text a` is the string at `a`.
pub mod Words
pub mod Session
mod Tests
use linux_system_programming.Prelude.{
  ℕ, zero, suc, Bool, true, false, ◌&&◌, Option, none, some, List, [], ◌∷◌, ℤ, map, ◌==◌,
  if◌then◌else◌, get_or,
}
use linux_system_programming.Kernel.{
  Call, fork, execvp, waitpid, chdir, Reply, ret, error, failed, Sys, pure, exit, invoke, and_then,
  ◌>>=◌, ◌>>◌,
}
use linux_system_programming.Buffers.Shell.{Ending, Line, line, exits, overrun, ezsh_read_line}
use linux_system_programming.Buffers.Tokens.{
  Realloc, Split, split, split_exits, dangling, ezsh_split_line,
}
use linux_system_programming.Transfers.Print.{until_nul}

-- strcmp(s, t) == 0
abbrev pub same_text : List ℕ → List ℕ → Bool
same_text [] [] = true
same_text [] (y ∷ t) = false
same_text (x ∷ s) [] = false
same_text (x ∷ s) (y ∷ t) = (x == y) && same_text s t

-- builtin_names
abbrev pub cd : List ℕ
cd = b'c' ∷ b'd' ∷ []

abbrev pub help : List ℕ
help = b'h' ∷ b'e' ∷ b'l' ∷ b'p' ∷ []

abbrev pub exit_name : List ℕ
exit_name = b'e' ∷ b'x' ∷ b'i' ∷ b't' ∷ []

-- The result of chdir is only reported.
unfoldable pub ezsh_cd : (ℕ → List ℕ) → List ℕ → Sys ℕ
ezsh_cd text argv = elim (get_or argv 1 0) [
  | zero ↦ pure 1
  | suc a ↦ invoke (chdir (text (suc a))) >> pure 1
]

unfoldable pub ezsh_help : Sys ℕ
ezsh_help = pure 1

unfoldable pub ezsh_exit : Sys ℕ
ezsh_exit = pure 0

-- fork returns 0 in the child; execvp returns only if it fails.
unfoldable pub ezsh_launch : (ℕ → List ℕ) → List ℕ → Sys ℕ
unfolding until_nul
ezsh_launch text argv = invoke fork >>= λ pid. elim pid [
  | error e ↦ exit 1
  | ret n l ↦ elim n [
    | zero ↦ invoke (execvp (text (get_or argv 0 0)) (map text (until_nul argv))) >> exit 1
    | suc k ↦ invoke waitpid >>= λ r. elim (failed r) [ true ↦ exit 1 | false ↦ pure 1 ]
  ]
]

unfoldable pub ezsh_execute : (ℕ → List ℕ) → List ℕ → Sys ℕ
unfolding ezsh_cd ezsh_help ezsh_exit ezsh_launch
ezsh_execute text argv = elim (get_or argv 0 0) [
  | zero ↦ pure 1
  | suc a ↦
      if same_text (text (suc a)) cd
      then ezsh_cd text argv
      else (if same_text (text (suc a)) help
          then ezsh_help
          else (if same_text (text (suc a)) exit_name then ezsh_exit else ezsh_launch text argv))
]

-- What malloc and realloc do: whether malloc has n bytes, what a block holds, whether it has the
-- array of tokens, and what realloc does.
pub record Memory : Type 0 where
  pub grants : ℕ → Bool
  pub junk : ℕ
  pub array : Bool
  pub reallocs : ℕ → Realloc

-- What strtok does with a line: the addresses that its calls return, and the strings there.
pub record Strtok : Type 0 where
  pub tokens : List ℕ → List ℕ
  pub text : List ℕ → ℕ → List ℕ

-- How `ezsh_loop` ends: with status 0, not yet, or with a write outside of a block.
pub data Ended : Type 0 where
  left : (stdin : List ℕ) → Ended
  running : (stdin : List ℕ) → Ended
  fault : Ended

-- One round of the `do` for the string in `line`: the status, or nothing after a write outside of
-- the array.
unfoldable pub run_string : Memory → Strtok → List ℕ → Sys (Option ℕ)
unfolding ezsh_split_line ezsh_execute
run_string m s string = elim (ezsh_split_line m.array m.reallocs m.junk (s.tokens string)) [
  | split argv ↦ ezsh_execute (s.text string) argv >>= λ status. pure (some status)
  | split_exits code ↦ exit code
  | Split.overrun ↦ pure none
  | dangling ↦ pure none
]

unfoldable pub run_line : Memory → Strtok → List ℕ → Sys (Option ℕ)
unfolding run_string until_nul
run_line m s buf = run_string m s (until_nul buf)

-- `ezsh_loop`, for a number of rounds.
unfoldable pub ezsh_loop : Memory → Strtok → Ending → ℕ → List ℕ → Sys Ended
unfolding ezsh_read_line run_line
ezsh_loop m s end zero stdin = pure (running stdin)
ezsh_loop m s end (suc rounds) stdin = elim (ezsh_read_line m.grants m.junk stdin end) [
  | line buf rest ↦ run_line m s buf >>= λ status. elim status [
    | none ↦ pure fault
    | some n ↦ elim n [ zero ↦ pure (left rest) | suc k ↦ ezsh_loop m s end rounds rest ]
  ]
  | exits code ↦ exit code
  | Line.overrun ↦ pure fault
]
