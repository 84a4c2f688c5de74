-- ===== src/Ls/Tests.antt =====
-- A directory with two names.
use linux_system_programming.Prelude.{
  ℕ, ◌%◌, ◌≡◌, refl, Bool, false, Option, some, List, [], ◌∷◌, arith,
}
use linux_system_programming.Ls.{print_mode, listed, main}
use linux_system_programming.Ls.Letters.{mode_text, read_mode, read_mode-print_mode}
use linux_system_programming.Ls.Listing.{AllFit, lines, main-listed}

read_mode-print_mode_example :
    (print_mode 33188 ≡ mode_text 33188) × (read_mode (print_mode 33188) ≡ 33188 % 512)
read_mode-print_mode_example = read_mode-print_mode 33188

abbrev dir : List ℕ
dir = b'd' ∷ []

abbrev names : List (List ℕ)
names = (b'a' ∷ []) ∷ (b'b' ∷ b'c' ∷ b'.' ∷ b'c' ∷ []) ∷ []

-- Every path is that of a file with mode 0644.
abbrev stat_file : List ℕ → Option (Bool × ℕ)
stat_file path = some (false, 33188)

names-AllFit : AllFit 3 dir names
names-AllFit = omega arith

main-listed_example :
    main 4 7 stat_file dir names (9 ∷ 9 ∷ 9 ∷ 9 ∷ []) ≡ listed (lines stat_file dir names)
main-listed_example =
    main-listed 3 7 stat_file dir names (9 ∷ 9 ∷ 9 ∷ 9 ∷ []) (omega arith) names-AllFit refl
