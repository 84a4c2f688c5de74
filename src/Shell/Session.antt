-- ===== src/Shell/Session.antt =====
-- The loop with its blocks and arrays runs the commands that the lines stand for.
use linux_system_programming.Prelude.{
  ℕ, zero, suc, ◌<◌, ◌≤◌, ◌≡◌, refl, ap, fun_ext, ◌∙◌, true, Option, none, some, List, [], ◌∷◌,
  ◌++◌, arith, map, length, take,
}
use linux_system_programming.Kernel.{Outcome, done, exits, waits, Sys, pure, exit, and_then, ◌>>=◌}
use linux_system_programming.Buffers.Shell.{
  Ending, exit_code, newline, NoNewline, always, most, capinit, ezsh_read_line-line,
  ezsh_read_line-exits,
}
use linux_system_programming.Buffers.Tokens.{Realloc, ezsh_split_line-split}
use linux_system_programming.Sockets.Text.{NoNul, until_nul-take}
use linux_system_programming.Shell.{
  Memory, Strtok, Ended, left, fault, run_string, run_line, ezsh_loop,
}
use linux_system_programming.Shell.Words.{command, execute-command}

-- A line that the shell can take: of at most 2 ^ 30 bytes, with no line feed and no NUL in it, and split by strtok in at
-- most seven words, whose addresses are not NULL.
pub record IsCommand (s : Strtok) (cs : List ℕ) : Type 0 where
  pub whole : NoNewline cs
  pub short : length cs ≤ most
  pub string : NoNul cs
  pub addresses : NoNul (s.tokens cs)
  pub few : length (s.tokens cs) < capinit

abbrev pub words : Strtok → List ℕ → List (List ℕ)
words s cs = map (s.text cs) (s.tokens cs)

-- Memory that does not run out.
abbrev pub enough : ℕ → (ℕ → Realloc) → Memory
enough junk reallocs = record { grants = always; junk = junk; array = true; reallocs = reallocs }

run_string-command :
    (junk : ℕ) (reallocs : ℕ → Realloc) (s : Strtok) (cs : List ℕ)
    → IsCommand s cs
    → run_string (enough junk reallocs) s cs
      ≡ (command (words s cs) >>= λ status. pure (some status))
unfolding run_string
run_string-command junk reallocs s cs c =
    let (argv, runs, holds) = ezsh_split_line-split reallocs junk (s.tokens cs) c.few in
    rw (runs, run_string)
      (ap (λ (m : Sys ℕ). m >>= λ status. pure (some status))
        (execute-command (s.text cs) (s.tokens cs) argv c.addresses holds))

run_line-command :
    (junk : ℕ) (reallocs : ℕ → Realloc) (s : Strtok) (cs buf : List ℕ)
    → IsCommand s cs
    → take (suc (length cs)) buf ≡ cs ++ 0 ∷ []
    → run_line (enough junk reallocs) s buf
      ≡ (command (words s cs) >>= λ status. pure (some status))
unfolding run_line
run_line-command junk reallocs s cs buf c begins =
    ap (run_string (enough junk reallocs) s) (until_nul-take cs buf c.string begins)
    ∙ run_string-command junk reallocs s cs c

-- What follows a command: the loop ends at status 0.
abbrev go_on : List ℕ → Sys Ended → ℕ → Sys Ended
go_on rest next zero = pure (left rest)
go_on rest next (suc k) = next

after_status :
    (o : Outcome ℕ) (rest : List ℕ) (next : Sys Ended)
    → and_then {A = Option ℕ} (and_then o (λ n. pure (some n))) (λ status. elim status [
      | none ↦ pure fault
      | some n ↦ elim n [ zero ↦ pure (left rest) | suc k ↦ next ]
    ])
      ≡ and_then o (go_on rest next)
after_status (done zero replies log) rest next = refl
after_status (done (suc n) replies log) rest next = refl
after_status (exits code log) rest next = refl
after_status (waits log) rest next = refl

-- stdin with these lines, and no line feed behind the last one.
abbrev pub typed : List (List ℕ) → List ℕ → List ℕ
typed [] rest = rest
typed (cs ∷ lines) rest = cs ++ newline ∷ typed lines rest

abbrev pub AllCommands : Strtok → List (List ℕ) → Type 0
AllCommands s [] = Unit
AllCommands s (cs ∷ lines) = IsCommand s cs × AllCommands s lines

-- The commands one after the other, until one has status 0 or stdin ends.
unfoldable pub session : Strtok → Ending → List (List ℕ) → List ℕ → Sys Ended
unfolding command
session s end [] rest = exit (exit_code end)
session s end (cs ∷ lines) rest =
    command (words s cs) >>= go_on (typed lines rest) (session s end lines rest)

-- For lines that the shell can take, at most 2 ^ 30 bytes behind the last one, and memory for all: `ezsh_loop` makes the same calls
-- as `session`, which runs the command of each line in order, leaves at `exit` and exits at the end
-- of stdin, where what stands behind the last line feed is dropped; rounds for all lines and one
-- more are enough.
pub ezsh_loop-session :
    (junk : ℕ) (reallocs : ℕ → Realloc) (s : Strtok) (end : Ending) (lines : List (List ℕ))
    (rest : List ℕ) (rounds : ℕ)
    → AllCommands s lines
    → NoNewline rest
    → length rest ≤ most
    → length lines < rounds
    → ezsh_loop (enough junk reallocs) s end rounds (typed lines rest) ≡ session s end lines rest
unfolding ezsh_loop session
ezsh_loop-session junk reallocs s end lines rest zero c free short lt = absurd (omega (arith, lt))
ezsh_loop-session junk reallocs s end [] rest (suc rounds) c free short lt =
    rw (ezsh_loop, ezsh_read_line-exits junk rest end free short) refl
ezsh_loop-session junk reallocs s end (cs ∷ lines) rest (suc rounds) c free short lt =
    let (buf, runs, begins) =
      ezsh_read_line-line junk cs (typed lines rest) end c.0.whole c.0.short in
    let later =
      ezsh_loop-session junk reallocs s end lines rest rounds c.1 free short (omega (arith, lt)) in
    rw (ezsh_loop, runs, run_line-command junk reallocs s cs buf c.0 begins)
      (fun_ext λ replies. fun_ext λ log.
        after_status (command (words s cs) replies log) (typed lines rest)
          (ezsh_loop (enough junk reallocs) s end rounds (typed lines rest))
        ∙ ap
            (λ (next : Sys Ended).
              and_then (command (words s cs) replies log) (go_on (typed lines rest) next))
            later)
