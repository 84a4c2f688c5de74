-- ===== src/Processes/Pipeline.antt =====
-- 04-process-management/shell_pipe.c: `ls -la` writes into a pipe from which `cat` reads, one after
-- the other.
use linux_system_programming.Prelude.{ℕ, ◌≡◌, ◌≢◌, ◌∙◌, none, some, List, [], ◌∷◌, ◌++◌}
use linux_system_programming.Processes.{
  File, Table, at, put, World, Proc, pure, ◌>>=◌, ◌>>◌, or_exit, dup, dup2, pipe, close, spawn,
  other_call,
}
use linux_system_programming.Processes.Table.{at-put_ne}
use linux_system_programming.Processes.Rules.{
  Spec, pure-Spec, Spec-bind, dup2-Spec, close-Spec, spawn-Spec, other_call-Spec,
}

-- struct Descriptors
pub record Descriptors : Type 0 where
  pub pd : ℕ
  pub sd : ℕ
  pub bd : ℕ

unfoldable pub dup2_try : ℕ → ℕ → Proc (Unit {0})
unfolding dup2
dup2_try old new = or_exit (dup2 old new) >> pure tt

unfoldable pub fork_exec : List ℕ → List (List ℕ) → Proc (Unit {0})
unfolding spawn
fork_exec file argv = or_exit (spawn file argv)

unfoldable pub wait_try : Proc (Unit {0})
unfolding other_call
wait_try = or_exit other_call

unfoldable pub cmd_try : List ℕ → List (List ℕ) → Descriptors → Proc (Unit {0})
unfolding dup2_try fork_exec wait_try close
cmd_try file argv des =
    dup2_try des.pd des.sd
    >> (fork_exec file argv >> (wait_try >> (dup2_try des.bd des.sd >> or_exit (close des.pd))))

abbrev pub ls : List ℕ
ls = b'l' ∷ b's' ∷ []

abbrev pub la : List ℕ
la = b'-' ∷ b'l' ∷ b'a' ∷ []

abbrev pub cat : List ℕ
cat = b'c' ∷ b'a' ∷ b't' ∷ []

unfoldable pub main : Proc (Unit {0})
unfolding dup pipe cmd_try
main = do
  in_d ← or_exit (dup 0)
  out_d ← or_exit (dup 1)
  pd ← or_exit pipe
  cmd_try ls (ls ∷ la ∷ []) (record { pd = pd.1; sd = 1; bd = out_d })
  cmd_try cat (cat ∷ []) (record { pd = pd.0; sd = 0; bd = in_d })

-- The table that a child gets from `cmd_try`, the one that is left, and the world.
abbrev pub lent : Descriptors → File → Table → Table
lent des f t = put t des.sd (some f)

abbrev pub restored : Descriptors → File → File → Table → Table
restored des f g t = put (put (lent des f t) des.sd (some g)) des.pd none

abbrev pub ran : List ℕ → List (List ℕ) → Descriptors → File → File → World → World
ran file argv des f g w = record {
  table = restored des f g w.table;
  children = w.children ++ record { name = file; args = argv; table = lent des f w.table } ∷ [];
}

pub cmd_try-Spec :
    (P : Unit {0} → World → Type 0) (file : List ℕ) (argv : List (List ℕ)) (des : Descriptors)
    (w : World) (f g : File)
    → des.sd ≢ des.pd
    → des.sd ≢ des.bd
    → at w.table des.pd ≡ some f
    → at w.table des.bd ≡ some g
    → P tt (ran file argv des f g w)
    → Spec P 5 (cmd_try file argv des) w
unfolding cmd_try dup2_try fork_exec wait_try
cmd_try-Spec P file argv des w f g nf ng ef eg p =
    let t = lent des f w.table in
    let back : at t des.bd ≡ some g = at-put_ne w.table des.sd des.bd (some f) ng ∙ eg in
    let kept : at (put t des.sd (some g)) des.pd ≡ some f =
      at-put_ne t des.sd des.pd (some g) nf ∙ at-put_ne w.table des.sd des.pd (some f) nf ∙ ef in
    Spec-bind P 1 4 _ _ w (
      Spec-bind _ 1 0 _ _ w (
        dup2-Spec _ w des.pd des.sd f ef (
          pure-Spec _ tt _ (
            Spec-bind P 1 3 _ _ _ (
              spawn-Spec _ _ file argv (
                Spec-bind P 1 2 _ _ _ (
                  other_call-Spec _ _ (
                    Spec-bind P 1 1 _ _ _ (
                      Spec-bind _ 1 0 _ _ _ (
                        dup2-Spec _ _ des.bd des.sd g back
                          (pure-Spec _ tt _ (close-Spec P _ des.pd f kept p))))))))))))
