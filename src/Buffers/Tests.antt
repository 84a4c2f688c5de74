-- ===== src/Buffers/Tests.antt =====
-- Lines of a few bytes.
use linux_system_programming.Prelude.{
  some, refl, true, replicate, ℕ, ◌≡◌, List, [], ◌∷◌, ◌++◌, arith, take,
}
use linux_system_programming.Buffers.{put_byte, enlarge}
use linux_system_programming.Buffers.Shell.{
  line, at_eof, newline, always, ezsh_read_line, ezsh_read_line-line, NoNewline,
}
use linux_system_programming.Buffers.Stream.{main, shows, fgetc_main-shows}
use linux_system_programming.Buffers.Tokens.{in_place, split, ezsh_split_line}

-- "cd"
abbrev two : List ℕ
two = 99 ∷ 100 ∷ []

-- "chmod x"
abbrev seven : List ℕ
seven = 99 ∷ 104 ∷ 109 ∷ 111 ∷ 100 ∷ 32 ∷ 120 ∷ []

two-NoNewline : NoNewline two
two-NoNewline = ground arith

seven-NoNewline : NoNewline seven
seven-NoNewline = ground arith

ezsh_read_line-line_example :
    (b : List ℕ) × (ezsh_read_line always 7 (seven ++ newline ∷ two) at_eof ≡ line b two)
    × (take 8 b ≡ seven ++ 0 ∷ [])
ezsh_read_line-line_example = ezsh_read_line-line 7 seven two at_eof seven-NoNewline (omega arith)

-- The addresses of eight tokens.
abbrev eight : List ℕ
eight = 101 ∷ 102 ∷ 103 ∷ 104 ∷ 105 ∷ 106 ∷ 107 ∷ 108 ∷ []

-- Where the array grows in place, the ninth cell holds the address of the array, not the token.
in_place_token :
    ezsh_split_line true (λ n. in_place 500) 0 (eight ++ 109 ∷ [])
    ≡ split (eight ++ 500 ∷ replicate 7 0)
unfolding ezsh_split_line put_byte enlarge
in_place_token = refl

fgetc_main-shows_example : main 7 2 (some (seven, at_eof)) ≡ shows seven at_eof
fgetc_main-shows_example = fgetc_main-shows 7 seven at_eof (omega arith)
