-- ===== src/Processes/Redirect.antt =====
-- 04-process-management/fork_exec.c: the standard output and error go to `out.txt`, then `ls` runs.
use linux_system_programming.Prelude.{
  ℕ, ◌≡◌, refl, ◌∙◌, Bool, true, Option, none, some, List, [], ◌∷◌, arith, ◌==◌, if◌then◌else◌,
}
use linux_system_programming.Processes.{
  File, named, Table, at, put, Child, World, done, Proc, pure, ◌>>=◌, ◌>>◌, or_exit, dup, close,
  open_file, spawn, other_call,
}
use linux_system_programming.Processes.Table.{at-put}
use linux_system_programming.Processes.Rules.{close-then}

abbrev pub out_txt : List ℕ
out_txt = b'o' ∷ b'u' ∷ b't' ∷ b'.' ∷ b't' ∷ b'x' ∷ b't' ∷ []

abbrev bin_ls : List ℕ
bin_ls = b'/' ∷ b'b' ∷ b'i' ∷ b'n' ∷ b'/' ∷ b'l' ∷ b's' ∷ []

abbrev ls : List ℕ
ls = b'l' ∷ b's' ∷ []

-- `none` for -1.
unfoldable pub redirect_outerr : Proc (Option (Unit {0}))
unfolding close open_file dup
redirect_outerr = do
  close 1
  close 2
  fd ← open_file out_txt
  elim fd [ none ↦ pure none | some n ↦ dup 1 >> pure (some tt) ]

-- `waitpid` with the exit status printed; an error is only reported.
unfoldable pub wait_print : Proc (Unit {0})
unfolding other_call
wait_print = other_call >> pure tt

-- `return 1` where the redirection fails; a `fork` that fails is reported and waited for.
unfoldable pub main : Proc (Unit {0})
unfolding redirect_outerr wait_print spawn
main = or_exit redirect_outerr >> (spawn bin_ls (ls ∷ []) >> wait_print)

abbrev redirected : Table → Table
redirected t = put (put t 1 (some (named out_txt))) 2 (some (named out_txt))

-- With 0 open and 1 and 2 closed, the calls that follow take 1 and 2.
open_dup-redirected :
    (f : File) (t : Table) (rest : List Bool) (kids : List Child)
    → (open_file out_txt >>= λ fd. elim fd [ none ↦ pure none | some n ↦ dup 1 >> pure (some tt) ])
        (true ∷ true ∷ rest)
        (record { table = put (put (some f ∷ t) 1 none) 2 none; children = kids })
      ≡ done (some tt) rest (record { table = redirected (some f ∷ t); children = kids })
unfolding open_file dup
open_dup-redirected f [] rest kids = refl
open_dup-redirected f (g ∷ []) rest kids = refl
open_dup-redirected f (g ∷ h ∷ t) rest kids = refl

-- What follows the two closes.
abbrev opened : Proc (Option (Unit {0}))
opened = open_file out_txt >>= λ fd. elim fd [ none ↦ pure none | some n ↦ dup 1 >> pure (some tt) ]

redirect_outerr-run :
    (c1 c2 : Bool) (rest : List Bool) (t : Table) (kids : List Child) (f : File)
    → at t 0 ≡ some f
    → redirect_outerr (c1 ∷ c2 ∷ true ∷ true ∷ rest) (record { table = t; children = kids })
      ≡ done (some tt) rest (record { table = redirected t; children = kids })
unfolding redirect_outerr
redirect_outerr-run c1 c2 rest [] kids f e = cc
redirect_outerr-run c1 c2 rest (none ∷ t) kids f e = cc
redirect_outerr-run c1 c2 rest (some g ∷ t) kids f e =
    close-then (close 2 >> opened) 1 c1 (c2 ∷ true ∷ true ∷ rest)
      (record { table = some g ∷ t; children = kids })
    ∙ (close-then opened 2 c2 (true ∷ true ∷ rest)
          (record { table = put (some g ∷ t) 1 none; children = kids })
        ∙ open_dup-redirected g t rest kids)

-- Where standard input is open, the file can be opened and `dup` succeeds, then 1 and 2 both stand
-- for the file, 0 and what is above 2 stays, and this does not depend on the two closes.
pub redirect_outerr-both :
    (c1 c2 : Bool) (rest : List Bool) (w : World) (f : File)
    → at w.table 0 ≡ some f
    → (w' : World) × (redirect_outerr (c1 ∷ c2 ∷ true ∷ true ∷ rest) w ≡ done (some tt) rest w')
      × (w'.children ≡ w.children)
      × ((n : ℕ)
          → at w'.table n ≡ (
              if n == 1
              then some (named out_txt)
              else if n == 2
              then some (named out_txt)
              else at w.table n))
unfolding redirect_outerr
redirect_outerr-both c1 c2 rest w f e = (
  record { table = redirected w.table; children = w.children },
  redirect_outerr-run c1 c2 rest w.table w.children f e,
  refl,
  λ n. ground (
    arith,
    at-put (put w.table 1 (some (named out_txt))) 2 n (some (named out_txt)),
    at-put w.table 1 n (some (named out_txt)),
  ),
)
