-- ===== src/Kmp.antt =====
-- 02-file-io/kmp.c: Knuth, Morris and Pratt's search for a pattern in a file.
pub mod Border
pub mod Fall
pub mod Build
pub mod Search
pub mod Count
pub mod File
pub mod Load
mod Tests
use linux_system_programming.Prelude.{
  ℕ, zero, suc, ◌+◌, ◌≡◌, Bool, true, false, Option, none, some, List, [], ◌∷◌, ◌++◌, ◌==◌, ltb,
  if◌then◌else◌, ℤ, pos, negsuc, minus_one, suc_int, eq_int, length, get_elem?, set,
}

-- What a chain of reads leaves: nothing, behind a read out of bounds or when the fuel is out.
infixl 5 ◌>>=◌
abbrev ◌>>=◌ : {A B : Type 0} → Option A → (A → Option B) → Option B
none >>= f = none
some a >>= f = f a

-- An array read at an `int`: out of bounds there is nothing.
abbrev pub read_at : {A : Type 0} → List A → ℤ → Option A
read_at xs (pos k) = get_elem? xs k
read_at xs (negsuc k) = none

-- The bytes of a pattern in memory, with the NUL behind them.
abbrev pub c_string : List ℕ → List ℕ
c_string p = p ++ 0 ∷ []

-- while (j != -1 && c != pattern[j]) j = A[j];
unfoldable pub fall : ℕ → List ℤ → List ℕ → ℕ → ℤ → Option ℤ
fall zero table pattern c j = none
fall (suc fuel) table pattern c j =
    let next : ℕ → Option ℤ = λ x. elim (c == x) [
      | true ↦ some j
      | false ↦ read_at table j >>= fall fuel table pattern c
    ] in
    if eq_int j minus_one then some j else read_at (c_string pattern) j >>= next

-- Rounds that end every run of the `while` above.
abbrev pub fall_fuel : List ℕ → ℕ
fall_fuel pattern = length pattern + 2

-- The `for` of `build_prefix_table` at index `i`, with `rounds` rounds left.
unfoldable pub build_loop : ℕ → List ℤ → List ℕ → ℕ → ℤ → Option (List ℤ)
build_loop zero table pattern i j = some table
build_loop (suc rounds) table pattern i j = read_at pattern (pos i) >>= λ c.
    fall (fall_fuel pattern) table pattern c j >>= λ k.
    build_loop rounds (set table (suc i) (suc_int k)) pattern (suc i) (suc_int k)

-- `build_prefix_table` on an array of m + 1 integers with whatever they hold.
unfoldable pub build_prefix_table : List ℤ → List ℕ → Option (List ℤ)
unfolding build_loop
build_prefix_table raw pattern =
    build_loop (length pattern) (set raw 0 minus_one) pattern 0 minus_one

-- How a search ends: the matches that were reported, and whether a write failed behind them.
pub data Report : Type 0 where
  longer : Report  -- the pattern is longer than the text
  not_opened : Report  -- `open` of the output file failed
  finished : (matches : ℕ) → Report
  write_failed : (matches : ℕ) → Report

-- The `for` of `kmp_search` over the text that is left. `writes n` says whether `write_all`
-- succeeds for the match behind the first `n`.
unfoldable pub search_loop : (ℕ → Bool) → List ℤ → List ℕ → List ℕ → ℤ → ℕ → Option Report
search_loop writes table pattern [] j matches = some (finished matches)
search_loop writes table pattern (c ∷ text) j matches =
    fall (fall_fuel pattern) table pattern c j >>= λ k.
    elim (eq_int (suc_int k) (pos (length pattern))) [
      | true ↦ elim (writes matches) [
        | true ↦ read_at table (pos (length pattern)) >>= λ a.
            search_loop writes table pattern text a (suc matches)
        | false ↦ some (write_failed matches)
      ]
      | false ↦ search_loop writes table pattern text (suc_int k) matches
    ]

-- `opens` says whether `open` of the output file succeeds.
unfoldable pub kmp_search : Bool → (ℕ → Bool) → List ℤ → List ℕ → List ℕ → Option Report
unfolding search_loop
kmp_search opens writes table pattern text =
    if opens then search_loop writes table pattern text (pos 0) 0 else some not_opened

-- `find`; `raw` is what the array `prefix_table` holds at first.
unfoldable pub find : Bool → (ℕ → Bool) → List ℤ → List ℕ → List ℕ → Option Report
unfolding build_prefix_table kmp_search fall
find opens writes raw text pattern =
    if ltb (length text) (length pattern)
    then some longer
    else (build_prefix_table raw pattern >>= λ table. kmp_search opens writes table pattern text)
