-- ===== src/Processes/Daemon.antt =====
-- 04-process-management/daemon.c
use linux_system_programming.Prelude.{
  ◌&&◌, ◌||◌, drop, false, ℕ, zero, suc, ◌≡◌, refl, ap, ◌∙◌, Bool, true, Option, none, some, List,
  [], ◌∷◌, if◌then◌else◌,
}
use linux_system_programming.Processes.{
  exits, File, named, Table, put, Child, World, done, Proc, pure, exit, and_then, ◌>>◌, or_exit,
  dup, close, open_file, other_call,
}
use linux_system_programming.Processes.Rules.{close-then}

abbrev pub dev_null : List ℕ
dev_null = b'/' ∷ b'd' ∷ b'e' ∷ b'v' ∷ b'/' ∷ b'n' ∷ b'u' ∷ b'l' ∷ b'l' ∷ []

-- The loop, on `k` descriptors from `i` on.
unfoldable pub close_below : ℕ → ℕ → Proc (Unit {0})
unfolding close
close_below i zero = pure tt
close_below i (suc k) = close i >> close_below (suc i) k

-- The child of `main`: `fork` has returned 0 in it.
unfoldable pub main_child : Proc (Unit {0})
unfolding other_call close_below open_file dup
main_child = do
  or_exit other_call
  or_exit other_call
  close_below 0 3
  open_file dev_null
  dup 0
  dup 0
  pure tt

-- What `fork` returned: -1, the child's number, or 0.
pub data Fork : Type 0 where
  fails parent child : Fork

unfoldable pub main : Fork → Proc (Unit {0})
unfolding main_child
main fails = exit 255
main parent = exit 0
main child = main_child

-- /dev/null, where the call succeeded.
abbrev pub null_if : Bool → Option File
null_if ok = if ok then some (named dev_null) else none

-- The table behind the three calls, by whether they succeed: a dup takes the lowest descriptor that
-- is closed, and it fails where /dev/null was not opened.
abbrev pub detached : Bool → Bool → Bool → Table → Table
detached opens dup1 dup2 t =
    null_if opens
    ∷ (null_if (opens && (dup1 || dup2)) ∷ (null_if (opens && (dup1 && dup2)) ∷ drop 3 t))

closed_front :
    (t : Table) → put (put (put t 0 none) 1 none) 2 none ≡ none ∷ (none ∷ (none ∷ drop 3 t))
closed_front [] = refl
closed_front (f ∷ []) = refl
closed_front (f ∷ g ∷ []) = refl
closed_front (f ∷ g ∷ h ∷ t) = refl

redirected :
    (opens dup1 dup2 : Bool) (t : Table) (rest : List Bool) (kids : List Child)
    → (open_file dev_null >> (dup 0 >> (dup 0 >> pure tt)))
        (opens ∷ dup1 ∷ dup2 ∷ rest)
        (record { table = none ∷ (none ∷ (none ∷ drop 3 t)); children = kids })
      ≡ done tt rest (record { table = detached opens dup1 dup2 t; children = kids })
unfolding open_file dup
redirected false false false t rest kids = refl
redirected false false true t rest kids = refl
redirected false true false t rest kids = refl
redirected false true true t rest kids = refl
redirected true false false t rest kids = refl
redirected true false true t rest kids = refl
redirected true true false t rest kids = refl
redirected true true true t rest kids = refl

close_below-all :
    (c0 c1 c2 : Bool) (rest : List Bool) (t : Table) (kids : List Child)
    → close_below 0 3 (c0 ∷ c1 ∷ c2 ∷ rest) (record { table = t; children = kids })
      ≡ done tt rest (record { table = put (put (put t 0 none) 1 none) 2 none; children = kids })
unfolding close_below
close_below-all c0 c1 c2 rest t kids =
    close-then (close 1 >> (close 2 >> pure tt)) 0 c0 (c1 ∷ c2 ∷ rest)
      (record { table = t; children = kids })
    ∙ (close-then (close 2 >> pure tt) 1 c1 (c2 ∷ rest)
          (record { table = put t 0 none; children = kids })
        ∙ close-then (pure tt) 2 c2 rest
            (record { table = put (put t 0 none) 1 none; children = kids }))

-- The child of `main` exits with 1 where setsid or chdir fails. Else it returns, whatever else fails:
-- with every call successful 0, 1 and 2 are /dev/null; 1 is so where either dup succeeds, 2 where
-- both do, and without /dev/null all three are closed. The closes need not succeed, and what is above
-- 2 stays.
pub main-detached :
    (setsid chdir c0 c1 c2 opens dup1 dup2 : Bool) (rest : List Bool) (w : World)
    → main child (setsid ∷ chdir ∷ c0 ∷ c1 ∷ c2 ∷ opens ∷ dup1 ∷ dup2 ∷ rest) w ≡ (
        if setsid && chdir
        then done tt rest
            (record { table = detached opens dup1 dup2 w.table; children = w.children })
        else exits 1 w)
unfolding main main_child other_call
main-detached false chdir c0 c1 c2 opens dup1 dup2 rest w = refl
main-detached true false c0 c1 c2 opens dup1 dup2 rest w = refl
main-detached true true c0 c1 c2 opens dup1 dup2 rest w =
    ap (λ o. and_then o λ _. open_file dev_null >> (dup 0 >> (dup 0 >> pure tt)))
      (close_below-all c0 c1 c2 (opens ∷ dup1 ∷ dup2 ∷ rest) w.table w.children)
    ∙ ap
        (λ t.
          (open_file dev_null >> (dup 0 >> (dup 0 >> pure tt))) (opens ∷ dup1 ∷ dup2 ∷ rest)
            (record { table = t; children = w.children }))
        (closed_front w.table)
    ∙ redirected opens dup1 dup2 w.table rest w.children
