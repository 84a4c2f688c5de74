-- ===== src/Feast/Fetches.antt =====
-- The fetches of `serve_dishes`, and the table that it leaves.
use linux_system_programming.Prelude.{
  ℕ, zero, suc, ◌+◌, ◌<◌, ◌≤◌, ◌≡◌, refl, sym, ap, inl, inr, Bool, true, false, not, ◌||◌, int_max,
  map, some, List, [], ◌∷◌, arith, if◌then◌else◌, Bool-cases, ℤ, minus_one, eq_int, eq_int_iff,
  length, set, get_elem?, replicate,
}
use linux_system_programming.Feast.{
  Platter, number, serve_dish, serve_dishes, init_platters, empty_platter, table_space,
}
use linux_system_programming.Feast.Scan.{AbsentBelow}
use linux_system_programming.Feast.Serve.{
  Served, hit, miss, serve_dish-Served, IsTable, serve_dish-IsTable,
}
use linux_system_programming.Feast.Run.{serve_all, up_to_end, handed, NoEnd, serve_dishes-serve_all}

-- Platters with a dish.
unfoldable pub occupied : List Platter → ℕ
occupied [] = 0
occupied (p ∷ ps) = (if eq_int p.dish minus_one then 0 else 1) + occupied ps

up_to_end-NoEnd : (xs : List ℤ) → NoEnd (up_to_end xs)
unfolding up_to_end
up_to_end-NoEnd [] = tt
up_to_end-NoEnd (x ∷ xs) = elim (Bool-cases (eq_int x minus_one)) [
  | inl e ↦ rw e tt
  | inr e ↦ rw e ((λ q. grind (arith, (eq_int_iff x minus_one).1 q, e)), up_to_end-NoEnd xs)
]

occupied-set-le :
    (ps : List Platter) (i : ℕ) (new : Platter) → occupied (set ps i new) ≤ suc (occupied ps)
unfolding occupied
occupied-set-le [] i new = omega arith
occupied-set-le (p ∷ ps) zero new = ground arith
occupied-set-le (p ∷ ps) (suc i) new = omega (arith, occupied-set-le ps i new)

occupied-set_same :
    (ps : List Platter) (i : ℕ) (old new : Platter)
    → get_elem? ps i ≡ some old
    → new.dish ≡ old.dish
    → occupied (set ps i new) ≡ occupied ps
unfolding occupied
occupied-set_same [] i old new got e = refl
occupied-set_same (p ∷ ps) zero old new got e = let same : new.dish ≡ p.dish = cc in rw same refl
occupied-set_same (p ∷ ps) (suc i) old new got e =
    omega (arith, occupied-set_same ps i old new got e)

-- A new platter is taken only with a fetch.
occupied-Served :
    {order : ℤ} {ps : List Platter} {r : List Platter × Bool}
    → Served order ps r
    → occupied r.0 ≤ (if r.1 then suc (occupied ps) else occupied ps)
occupied-Served {ps} (hit j q got e) = omega (arith, occupied-set_same ps j q _ got refl)
occupied-Served {ps} (miss {l} ab lb) = occupied-set-le ps l _

-- A platter of the table has the dish.
abbrev pub on_table : ℤ → List Platter → Bool
on_table order [] = false
on_table order (p ∷ ps) = eq_int p.dish order || on_table order ps

-- The orders whose dish is on no platter when their turn comes.
abbrev pub misses : List ℤ → List Platter → ℕ
misses [] ps = 0
misses (order ∷ orders) ps =
    (if on_table order ps then 0 else 1) + misses orders (serve_dish ps order).0

on_table_at :
    (order : ℤ) (ps : List Platter) (j : ℕ) (q : Platter)
    → get_elem? ps j ≡ some q
    → q.dish ≡ order
    → on_table order ps ≡ true
on_table_at order [] j q got e = cc
on_table_at order (p ∷ ps) zero q got e =
    let same : p.dish ≡ order = cc in let hit = (eq_int_iff p.dish order).1 same in rw hit refl
on_table_at order (p ∷ ps) (suc j) q got e =
    let rest = on_table_at order ps j q got e in ground (arith, rest)

not_on_table :
    (order : ℤ) (ps : List Platter) → AbsentBelow order ps (length ps) → on_table order ps ≡ false
not_on_table order [] ab = refl
not_on_table order (p ∷ ps) ab =
    let rest = not_on_table order ps (λ k q lt got. ab (suc k) q (omega (arith, lt)) got) in
    elim (Bool-cases (eq_int p.dish order)) [
      | inl e ↦ absurd (ab 0 p (omega arith) refl ((eq_int_iff p.dish order).0 e))
      | inr e ↦ rw (e, rest) refl
    ]

-- A dish is fetched just where no platter has it.
fetched-Served :
    {order : ℤ} {ps : List Platter} {r : List Platter × Bool}
    → Served order ps r
    → r.1 ≡ not (on_table order ps)
fetched-Served {order} {ps} (hit j q got e) = rw (on_table_at order ps j q got e) refl
fetched-Served {order} {ps} (miss ab lb) = rw (not_on_table order ps ab) refl

-- The outcome of serving `orders` at `ps` after `n` fetches.
pub record Fed (orders : List ℤ) (ps : List Platter) (n : ℕ) (r : ℕ × List Platter) : Type 0 where
  pub table : IsTable r.1
  pub counted : r.0 ≡ n + misses orders ps
  pub grown : n ≤ r.0
  pub bounded : r.0 ≤ n + length orders
  pub filled : occupied r.1 + n ≤ occupied ps + r.0

Fed-cons :
    (x : ℤ) (xs : List ℤ) (ps ps' : List Platter) (fetched : Bool) (n : ℕ) (r : ℕ × List Platter)
    → occupied ps' ≤ (if fetched then suc (occupied ps) else occupied ps)
    → ps' ≡ (serve_dish ps x).0
    → fetched ≡ not (on_table x ps)
    → Fed xs ps' (if fetched then suc n else n) r
    → Fed (x ∷ xs) ps n r
Fed-cons x xs ps ps' true n r more next missed f = record {
  table = f.table;
  counted = ground (arith, f.counted, missed, ap (misses xs) next);
  grown = omega (arith, f.grown);
  bounded = omega (arith, f.bounded);
  filled = omega (arith, f.filled);
}
Fed-cons x xs ps ps' false n r more next missed f = record {
  table = f.table;
  counted = ground (arith, f.counted, missed, ap (misses xs) next);
  grown = f.grown;
  bounded = omega (arith, f.bounded);
  filled = omega (arith, f.filled);
}

serve_all-Fed :
    (orders : List ℤ) (ps : List Platter) (n : ℕ)
    → NoEnd orders
    → IsTable ps
    → Fed orders ps n (serve_all orders ps n)
unfolding serve_all
serve_all-Fed [] ps n ne t = record {
  table = t;
  counted = omega arith;
  grown = omega arith;
  bounded = omega arith;
  filled = omega arith;
}
serve_all-Fed (x ∷ xs) ps n ne t =
    Fed-cons x xs ps (serve_dish ps x).0 (serve_dish ps x).1 n _
      (occupied-Served (serve_dish-Served x ps (omega (arith, t.size)))) refl
      (fetched-Served (serve_dish-Served x ps (omega (arith, t.size))))
      (serve_all-Fed xs (serve_dish ps x).0 _ ne.1 (serve_dish-IsTable x ne.0 t))

pub init_platters-IsTable : IsTable init_platters
init_platters-IsTable = record {
  size = refl;
  shape = λ i q e. inl (sym (all_empty table_space i q e));
  distinct =
      λ i j p q e f same ne. absurd (ne (ap Platter.dish (sym (all_empty table_space i p e))));
}
  where
    all_empty :
        (k i : ℕ) (q : Platter)
        → get_elem? (replicate k empty_platter) i ≡ some q
        → empty_platter ≡ q
    all_empty zero i q e = cc
    all_empty (suc k) zero q e = cc
    all_empty (suc k) (suc i) q e = all_empty k i q e

-- `serve_dishes` on the table that `main` sets up, for an input of numbers and with rounds for it that
-- fit in an `int`: it returns; the table holds five platters and no dish twice; the fetches are the
-- orders whose dish was on no platter, at most the orders served, and at least the platters that hold
-- a dish at the end.
pub serve_dishes_fetches :
    (fuel : ℕ) (junk : ℤ) (xs : List ℤ) (blanks : Bool)
    → length xs + 1 < fuel
    → fuel ≤ int_max
    → (n : ℕ) × (ps : List Platter) × (serve_dishes fuel junk
          (record { tokens = map number xs; blanks = blanks; eof = false })
          init_platters
          0
        ≡ some (n, ps))
      × IsTable ps
      × (n ≡ misses (up_to_end (handed junk xs blanks)) init_platters)
      × (n ≤ length (up_to_end (handed junk xs blanks)))
      × (occupied ps ≤ n)
unfolding occupied
serve_dishes_fetches fuel junk xs blanks h few =
    let r = serve_all (up_to_end (handed junk xs blanks)) init_platters 0 in
    let f =
      serve_all-Fed (up_to_end (handed junk xs blanks)) init_platters 0 (up_to_end-NoEnd _)
        init_platters-IsTable in
    (
      r.0,
      r.1,
      serve_dishes-serve_all fuel junk xs blanks init_platters 0 h few,
      f.table,
      omega (arith, f.counted),
      omega (arith, f.bounded),
      omega (arith, f.filled),
    )
