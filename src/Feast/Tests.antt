-- ===== src/Feast/Tests.antt =====
-- feast.c at concrete orders.
use linux_system_programming.Prelude.{
  ℕ, ◌≡◌, refl, ◌≤◌, true, false, some, List, [], ◌∷◌, arith, ℤ, pos, minus_one, length, map,
}
use linux_system_programming.Feast.{Platter, Stdin, number, serve_dishes, init_platters}
use linux_system_programming.Feast.Serve.{IsTable}
use linux_system_programming.Feast.Run.{serve_all, up_to_end, handed, serve_dishes-serve_all}
use linux_system_programming.Feast.Fetches.{occupied, misses, serve_dishes_fetches}

abbrev orders : List ℤ
orders = pos 1 ∷ pos 2 ∷ pos 1 ∷ pos 3 ∷ pos 4 ∷ pos 5 ∷ pos 6 ∷ []

abbrev lunch : Stdin
lunch = record { tokens = map number orders; blanks = false; eof = false }

abbrev platter : ℕ → ℕ → Platter
platter d u = record { dish = pos d; uses = pos u }

-- The sixth dish replaces dish 2, the first of the dishes with no use.
lunch_served :
    serve_dishes 9 minus_one lunch init_platters 0
    ≡ some (6, platter 1 1 ∷ platter 6 0 ∷ platter 3 0 ∷ platter 4 0 ∷ platter 5 0 ∷ [])
unfolding serve_dishes
lunch_served = refl

-- A line feed behind the last number: `next` keeps what it held, here 6, and that is served once
-- more.
lunch_with_newline :
    serve_dishes 9 (pos 6) (record lunch { blanks = true }) init_platters 0
    ≡ some (6, platter 1 1 ∷ platter 6 1 ∷ platter 3 0 ∷ platter 4 0 ∷ platter 5 0 ∷ [])
unfolding serve_dishes
lunch_with_newline = refl

serve_dishes-serve_all_example :
    serve_dishes 9 (pos 6) (record lunch { blanks = true }) init_platters 0
    ≡ some (serve_all (up_to_end (handed (pos 6) orders true)) init_platters 0)
serve_dishes-serve_all_example =
    serve_dishes-serve_all 9 (pos 6) orders true init_platters 0 (omega arith) (omega arith)

serve_dishes_fetches_example :
    (n : ℕ) × (ps : List Platter) × (serve_dishes 9 (pos 6) lunch init_platters 0 ≡ some (n, ps))
    × IsTable ps
    × (n ≡ misses (up_to_end (handed (pos 6) orders false)) init_platters)
    × (n ≤ length (up_to_end (handed (pos 6) orders false)))
    × (occupied ps ≤ n)
serve_dishes_fetches_example =
    serve_dishes_fetches 9 (pos 6) orders false (omega arith) (omega arith)
