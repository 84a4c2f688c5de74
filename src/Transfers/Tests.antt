-- ===== src/Transfers/Tests.antt =====
-- Transfers of a few bytes.
use linux_system_programming.Prelude.{
  ℕ, ◌≡◌, refl, true, false, some, take, arith, replicate, List, [], ◌∷◌,
}
use linux_system_programming.Transfers.{
  took, interrupted, failed, write_all, error, Source, copied, copy_file,
}
use linux_system_programming.Transfers.Copy.{all_succeed, copy_file-whole}
use linux_system_programming.Transfers.Print.{until_nul, texts}

abbrev three : List ℕ
three = 1 ∷ 2 ∷ 3 ∷ []

write_all_fails : write_all (interrupted ∷ took 1 ∷ failed ∷ []) three ≡ error (1 ∷ [])
unfolding write_all
write_all_fails = refl

-- "ab" with a NUL behind it and a byte that is not shown, and "c".
abbrev chunks : List (List ℕ)
chunks = (97 ∷ 98 ∷ 0 ∷ 120 ∷ []) ∷ (99 ∷ []) ∷ []

nul_cuts : texts chunks ≡ 97 ∷ 98 ∷ 99 ∷ []
unfolding until_nul
nul_cuts = refl

-- 513 bytes: one block, and a byte that is lost.
abbrev source : Source
source = record { bytes = replicate 513 7; fails = false }

copy_file-whole_example :
    copy_file 2 3 (some source) true true all_succeed true true
    ≡ copied 0 (some (take 512 source.bytes))
copy_file-whole_example = copy_file-whole 2 1 1 source refl (omega arith) (omega arith)
