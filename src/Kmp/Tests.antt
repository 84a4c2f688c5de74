-- ===== src/Kmp/Tests.antt =====
-- kmp.c on small texts.
use linux_system_programming.Prelude.{
  ℕ, ◌≡◌, refl, Bool, true, none, some, List, [], ◌∷◌, arith, ltb, ℤ, pos, minus_one, length,
  replicate,
}
use linux_system_programming.Kmp.{finished, write_failed, longer, build_prefix_table, find}
use linux_system_programming.Transfers.Print.{Chunk, chunk, at_eof, chunk_interrupted}
use linux_system_programming.Kmp.File.{finds, gives_up, main, Gives, gives_end, gives}
use linux_system_programming.Kmp.Load.{main-occurrences}
use linux_system_programming.Kmp.Fall.{IsTable}
use linux_system_programming.Kmp.Build.{build_prefix_table-IsTable}
use linux_system_programming.Kmp.Count.{occurrences}
use linux_system_programming.Kmp.Search.{reported}

-- "aba" in "ababaaba"
abbrev aba : List ℕ
aba = b'a' ∷ b'b' ∷ b'a' ∷ []

abbrev text : List ℕ
text = b'a' ∷ b'b' ∷ b'a' ∷ b'b' ∷ b'a' ∷ b'a' ∷ b'b' ∷ b'a' ∷ []

abbrev raw : List ℤ
raw = replicate 4 (pos 77)

abbrev always : ℕ → Bool
always n = true

aba_table : build_prefix_table raw aba ≡ some (minus_one ∷ pos 0 ∷ pos 0 ∷ pos 1 ∷ [])
unfolding build_prefix_table find
aba_table = refl

aba_found : find true always raw text aba ≡ some (finished 3)
unfolding find
aba_found = refl

-- The second write fails.
aba_cut : find true (λ n. ltb n 1) raw text aba ≡ some (write_failed 1)
unfolding find
aba_cut = refl

aba_longer : find true always raw (b'a' ∷ []) aba ≡ some longer
unfolding find
aba_longer = refl

-- The empty pattern is read beyond its NUL where the text has two NUL bytes.
empty_pattern_overrun : find true always (minus_one ∷ []) (0 ∷ 0 ∷ []) [] ≡ none
unfolding find
empty_pattern_overrun = refl

build_prefix_table-IsTable_example :
    (table : List ℤ) × (build_prefix_table raw aba ≡ some table) × IsTable aba table (length aba)
build_prefix_table-IsTable_example = build_prefix_table-IsTable raw aba refl

-- "ababaaba" in two chunks.
abbrev chunks : List Chunk
chunks =
    chunk (b'a' ∷ b'b' ∷ b'a' ∷ []) ∷ chunk (b'b' ∷ b'a' ∷ b'a' ∷ b'b' ∷ b'a' ∷ []) ∷ at_eof ∷ []

chunks-Gives : Gives chunks text
chunks-Gives =
    gives b'a' (b'b' ∷ b'a' ∷ []) (omega arith)
      (gives b'b' (b'a' ∷ b'a' ∷ b'b' ∷ b'a' ∷ []) (omega arith) gives_end)

main-occurrences_example :
    main true true true always 7 raw chunks aba ≡ finds (reported always 0 (occurrences aba text))
main-occurrences_example =
    main-occurrences always 7 raw chunks text aba chunks-Gives (omega arith) refl (omega arith)
      (omega arith)

-- An interrupted read ends the program.
interrupted_gives_up : main true true true always 7 raw (chunk_interrupted ∷ chunks) aba ≡ gives_up
unfolding main
interrupted_gives_up = refl
