-- ===== src/Shell/Words.antt =====
-- A shell with no blocks and no arrays: a command is a list of words.
use linux_system_programming.Prelude.{
  ℕ, zero, suc, ◌≡◌, refl, ap, ◌∙◌, true, false, List, [], ◌∷◌, ◌++◌, map, if◌then◌else◌, length,
  take,
}
use linux_system_programming.Kernel.{
  fork, execvp, waitpid, chdir, ret, error, failed, Sys, pure, exit, invoke, ◌>>=◌, ◌>>◌,
}
use linux_system_programming.Sockets.Text.{NoNul, until_nul-take}
use linux_system_programming.Shell.{
  same_text, cd, help, exit_name, ezsh_cd, ezsh_help, ezsh_exit, ezsh_launch, ezsh_execute,
}

-- fork, execvp in the child and waitpid in the shell.
unfoldable pub launch : List ℕ → List (List ℕ) → Sys ℕ
launch name words = invoke fork >>= λ pid. elim pid [
  | error e ↦ exit 1
  | ret n l ↦ elim n [
    | zero ↦ invoke (execvp name words) >> exit 1
    | suc k ↦ invoke waitpid >>= λ r. elim (failed r) [ true ↦ exit 1 | false ↦ pure 1 ]
  ]
]

unfoldable pub change_directory : List (List ℕ) → Sys ℕ
change_directory [] = pure 1
change_directory (path ∷ more) = invoke (chdir path) >> pure 1

-- The status of a command: 0 for `exit`, else 1.
unfoldable pub command : List (List ℕ) → Sys ℕ
unfolding launch change_directory
command [] = pure 1
command (name ∷ args) =
    if same_text name cd
    then change_directory args
    else (if same_text name help
        then pure 1
        else (if same_text name exit_name then pure 0 else launch name (name ∷ args)))

cd_words :
    (text : ℕ → List ℕ) (a : ℕ) (addresses argv : List ℕ)
    → NoNul addresses
    → take (suc (length addresses)) argv ≡ addresses ++ 0 ∷ []
    → ezsh_cd text (a ∷ argv) ≡ change_directory (map text addresses)
unfolding ezsh_cd change_directory
cd_words text a [] [] h e = refl
cd_words text a [] (zero ∷ argv) h e = refl
cd_words text a [] (suc x ∷ argv) h e = cc
cd_words text a (zero ∷ addresses) argv h e = absurd (h.0 refl)
cd_words text a (suc b ∷ addresses) [] h e = cc
cd_words text a (suc b ∷ addresses) (x ∷ argv) h e = let p : x ≡ suc b = cc in rw p refl

launch_words :
    (text : ℕ → List ℕ) (a : ℕ) (addresses argv : List ℕ)
    → NoNul (a ∷ addresses)
    → take (suc (suc (length addresses))) (a ∷ argv) ≡ a ∷ addresses ++ 0 ∷ []
    → ezsh_launch text (a ∷ argv) ≡ launch (text a) (map text (a ∷ addresses))
unfolding ezsh_launch launch
launch_words text a addresses argv h e =
    ap (λ l. launch (text a) (map text l)) (until_nul-take (a ∷ addresses) (a ∷ argv) h e)

execute_words :
    (text : ℕ → List ℕ) (a : ℕ) (addresses argv : List ℕ)
    → NoNul (suc a ∷ addresses)
    → take (suc (length addresses)) argv ≡ addresses ++ 0 ∷ []
    → ezsh_execute text (suc a ∷ argv) ≡ command (map text (suc a ∷ addresses))
unfolding ezsh_execute command ezsh_help ezsh_exit
execute_words text a addresses argv h e =
    rw
      (
        cd_words text (suc a) addresses argv h.1 e,
        launch_words text (suc a) addresses argv h (ap (suc a ∷◌) e),
      )
      refl

-- An array that begins with addresses and NULL stands for the words at these addresses.
pub execute-command :
    (text : ℕ → List ℕ) (addresses argv : List ℕ)
    → NoNul addresses
    → take (suc (length addresses)) argv ≡ addresses ++ 0 ∷ []
    → ezsh_execute text argv ≡ command (map text addresses)
unfolding ezsh_execute command ezsh_help ezsh_exit
execute-command text [] [] h e = refl
execute-command text [] (zero ∷ argv) h e = refl
execute-command text [] (suc x ∷ argv) h e = cc
execute-command text (zero ∷ addresses) argv h e = absurd (h.0 refl)
execute-command text (suc a ∷ addresses) [] h e = cc
execute-command text (suc a ∷ addresses) (x ∷ argv) h e =
    let p : x ≡ suc a = cc in
    let tails : take (suc (length addresses)) argv ≡ addresses ++ 0 ∷ [] = cc in
    ap (λ y. ezsh_execute text (y ∷ argv)) p ∙ execute_words text a addresses argv h tails
