-- ===== src/Processes/Tests.antt =====
-- Runs of the programs of 04-process-management that change their table of descriptors.
use linux_system_programming.Prelude.{zero, suc, ◌≡◌, refl, true, false, none, some, [], ◌∷◌}
use linux_system_programming.Processes.{inherited, named, World, done, close, open_file, dup}
use linux_system_programming.Processes.Rules.{Spec}
use linux_system_programming.Processes.Pipeline as Pipeline
use linux_system_programming.Processes.Piped.{NoPipe, Piped, main-Piped}
use linux_system_programming.Processes.Redirect.{redirect_outerr, out_txt}
use linux_system_programming.Processes.Daemon.{Fork, child, dev_null, main-detached}
use linux_system_programming.Processes.Daemon as Daemon

abbrev of_a_shell : World
of_a_shell = record {
  table = some (inherited 0) ∷ some (inherited 1) ∷ some (inherited 2) ∷ [];
  children = [];
}

of_a_shell-NoPipe : NoPipe of_a_shell.table
of_a_shell-NoPipe zero = (λ e. cc, λ e. cc)
of_a_shell-NoPipe (suc zero) = (λ e. cc, λ e. cc)
of_a_shell-NoPipe (suc (suc zero)) = (λ e. cc, λ e. cc)
of_a_shell-NoPipe (suc (suc (suc n))) = (λ e. cc, λ e. cc)

main-Piped_example :
    Spec (λ _ w'. Piped of_a_shell w' (inherited 0) (inherited 1)) 13 Pipeline.main of_a_shell
main-Piped_example = main-Piped of_a_shell (inherited 0) (inherited 1) refl refl of_a_shell-NoPipe

-- The second dup fails: 2 stays closed.
main-detached_example :
    Daemon.main child (true ∷ true ∷ true ∷ true ∷ false ∷ true ∷ true ∷ false ∷ []) of_a_shell
    ≡ done tt [] (record {
      table = some (named dev_null) ∷ (some (named dev_null) ∷ (none ∷ []));
      children = [];
    })
main-detached_example = main-detached true true true true false true true false [] of_a_shell

-- With standard input closed, `open` takes 0 and nothing stands for the two outputs; the function
-- returns 0 all the same.
redirects_nothing :
    redirect_outerr
      (true ∷ true ∷ true ∷ true ∷ [])
      (record { table = none ∷ some (inherited 1) ∷ some (inherited 2) ∷ []; children = [] })
    ≡ done (some tt) [] (record { table = some (named out_txt) ∷ none ∷ none ∷ []; children = [] })
unfolding redirect_outerr close open_file dup
redirects_nothing = refl
