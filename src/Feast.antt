-- ===== src/Feast.antt =====
-- 09-memory/feast.c: dishes on the five platters of a table, replaced by least frequent use.
pub mod Scan
pub mod Serve
pub mod Run
pub mod Fetches
mod Tests
use linux_system_programming.Prelude.{
  ℕ, zero, suc, ◌+◌, Bool, true, false, not, ◌&&◌, Option, none, some, List, [], ◌∷◌, if◌then◌else◌,
  ℤ, pos, minus_one, suc_int, eq_int, lt_int, set, get_or, replicate,
}

-- `platter`
pub record Platter : Type 0 where
  pub dish : ℤ
  pub uses : ℤ

-- TABLE_SPACE
abbrev pub table_space : ℕ
table_space = 5

abbrev pub empty_platter : Platter
empty_platter = record { dish = minus_one; uses = minus_one }

-- The table that `main` allocates and fills.
abbrev pub init_platters : List Platter
init_platters = replicate table_space empty_platter

-- The `for` of `serve_dishes` from index `i` on: `rest` is platters[i..], `least` the platter that
-- the pointer `least` is at and `u` its uses. The first result is `exists`.
unfoldable pub scan : ℤ → List Platter → ℕ → ℕ → ℤ → Option ℕ × ℕ
scan order [] i least u = (none, least)
scan order (p ∷ rest) i least u =
    let below = lt_int p.uses u in
    let next = scan order rest (suc i) (if below then i else least) (if below then p.uses else u) in
    if eq_int p.dish order then (some i, least) else next

-- What follows the `for`: the new table, and whether a dish was fetched.
unfoldable pub settle : List Platter → ℤ → Option ℕ × ℕ → List Platter × Bool
settle ps order (some i, least) =
    let p = get_or ps i empty_platter in (set ps i (record p { uses = suc_int p.uses }), false)
settle ps order (none, least) = (set ps least (record { dish = order; uses = pos 0 }), true)

-- One round of the `while` of `serve_dishes`, for an order that is not -1.
unfoldable pub serve_dish : List Platter → ℤ → List Platter × Bool
serve_dish ps order = settle ps order (scan order ps 0 0 (get_or ps 0 empty_platter).uses)

-- What stands between the blanks of stdin: a number, or text that does not begin with one.
pub data Token : Type 0 where
  number : (x : ℤ) → Token
  word : Token

-- stdin: the tokens left, whether blanks follow the last one, and the end-of-file indicator.
pub record Stdin : Type 0 where
  pub tokens : List Token
  pub blanks : Bool
  pub eof : Bool

abbrev pub is_nil {ℓ} : {A : Type ℓ} → List A → Bool
is_nil [] = true
is_nil (x ∷ xs) = false

-- scanf("%d", &next): it meets the end of the file behind the last number if no blank follows it.
-- With no token left it stores nothing, so `next` keeps the value `junk` that it had; nor does it at
-- a token that is no number, which stays where it is.
unfoldable pub read_number : ℤ → Bool → List Token → ℤ × Stdin
read_number junk blanks [] = (junk, record { tokens = []; blanks = blanks; eof = true })
read_number junk blanks (word ∷ ts) =
    (junk, record { tokens = word ∷ ts; blanks = blanks; eof = false })
read_number junk blanks (number x ∷ ts) =
    (x, record { tokens = ts; blanks = blanks; eof = is_nil ts && not blanks })

-- `get_next_dish_order`; `junk` is what the uninitialised `next` holds.
unfoldable pub get_next_dish_order : ℤ → Stdin → ℤ × Stdin
unfolding read_number
get_next_dish_order junk s = if s.eof then (minus_one, s) else read_number junk s.blanks s.tokens

-- `serve_dishes` on fuel: the fetches and the table that is left.
unfoldable pub serve_dishes : ℕ → ℤ → Stdin → List Platter → ℕ → Option (ℕ × List Platter)
unfolding serve_dish scan settle get_next_dish_order
serve_dishes zero junk s ps fetches = none
serve_dishes (suc fuel) junk s ps fetches =
    let (order, s') = get_next_dish_order junk s in
    let (ps', fetched) = serve_dish ps order in
    let rest = serve_dishes fuel junk s' ps' (if fetched then suc fetches else fetches) in
    if eq_int order minus_one then some (fetches, ps) else rest
