-- ===== src/Feast/Serve.antt =====
-- One order of `serve_dishes`: which platter changes, and what every table keeps to.
use linux_system_programming.Prelude.{
  ℕ, ◌<◌, ◌≡◌, refl, sym, ap, subst, ◌∙◌, ◌≢◌, ◌⊎◌, inl, inr, Bool, true, false, Option, some, List,
  [], ◌∷◌, arith, ℤ, pos, negsuc, ◌≤ℤ◌, minus_one, suc_int, length, set, get_elem?, length-set,
  get_elem?-set_cases, lt-length_of_get_elem?, get_or-of_get_elem?,
}
use linux_system_programming.Feast.{Platter, table_space, empty_platter, settle, serve_dish}
use linux_system_programming.Feast.Scan.{
  AbsentBelow, LeastBelow, Found, present, absent, scan-Found_all,
}

-- What serving an order makes of a table: a use more of the platter that holds the dish, or the
-- dish in place of the first platter of fewest uses.
pub data Served (order : ℤ) (ps : List Platter) : List Platter × Bool → Type 0 where
  hit :
      (j : ℕ) (q : Platter)
      → get_elem? ps j ≡ some q
      → q.dish ≡ order
      → Served order ps (set ps j (record q { uses = suc_int q.uses }), false)
  miss :
      {l : ℕ} {u : ℤ}
      → AbsentBelow order ps (length ps)
      → LeastBelow ps (length ps) l u
      → Served order ps (set ps l (record { dish = order; uses = pos 0 }), true)

settle-Served :
    (order : ℤ) (ps : List Platter) {r : Option ℕ × ℕ}
    → Found order ps r
    → Served order ps (settle ps order r)
unfolding settle
settle-Served order ps (present {j} q got e ab) =
    rw (get_or-of_get_elem? ps j empty_platter q got) (hit j q got e)
settle-Served order ps (absent ab lb) = miss ab lb

-- Serving an order at a table that is not empty adds a use to the platter with the dish, if there
-- is one, and fetches nothing; else it fetches the dish and puts it, with no use, in place of the
-- first platter of fewest uses.
pub serve_dish-Served :
    (order : ℤ) (ps : List Platter) → 0 < length ps → Served order ps (serve_dish ps order)
unfolding serve_dish
serve_dish-Served order [] h = absurd (omega arith)
serve_dish-Served order (p ∷ ps) h = settle-Served order (p ∷ ps) (scan-Found_all order p ps)

-- A platter is empty, or holds a dish with a count that is no longer -1.
abbrev pub IsPlatter : Platter → Type 0
IsPlatter q = (q ≡ empty_platter) ⊎ ((q.dish ≢ minus_one) × (pos 0 ≤ℤ q.uses))

pub record IsTable (ps : List Platter) : Type 0 where
  pub size : length ps ≡ table_space
  pub shape : (i : ℕ) (q : Platter) → get_elem? ps i ≡ some q → IsPlatter q
  pub distinct :
      (i j : ℕ) (p q : Platter)
      → get_elem? ps i ≡ some p
      → get_elem? ps j ≡ some q
      → p.dish ≡ q.dish
      → p.dish ≢ minus_one
      → i ≡ j

suc_int_nonneg : (z : ℤ) → pos 0 ≤ℤ z → pos 0 ≤ℤ suc_int z
suc_int_nonneg (pos n) h = omega arith
suc_int_nonneg (negsuc n) h = absurd (omega arith)

module _ {ps : List Platter} (t : IsTable ps) where
  -- A platter that is written may hold its old dish, or one that no platter holds.
  set-IsTable :
      (i : ℕ) (old new : Platter)
      → get_elem? ps i ≡ some old
      → IsPlatter new
      → ((new.dish ≡ old.dish) ⊎ AbsentBelow new.dish ps (length ps))
      → IsTable (set ps i new)
  set-IsTable i old new got ok which = record {
    size = length-set ps i new ∙ t.size;
    shape = λ j q e. elim (look j q e) [
      | inl here ↦ subst IsPlatter here.1 ok
      | inr there ↦ t.shape j q there.1
    ];
    distinct = λ j k p q ep eq same ne. elim (look j p ep) [
      | inl hp ↦ elim (look k q eq) [
        | inl hq ↦ sym hp.0 ∙ hq.0
        | inr hq ↦ absurd (clash k q hq.0 hq.1 (ap Platter.dish hp.1 ∙ same) (λ e. ne (same ∙ e)))
      ]
      | inr hp ↦ elim (look k q eq) [
        | inl hq ↦ absurd (clash j p hp.0 hp.1 (ap Platter.dish hq.1 ∙ sym same) ne)
        | inr hq ↦ t.distinct j k p q hp.1 hq.1 same ne
      ]
    ];
  }
    where
      inside : i < length ps
      inside = lt-length_of_get_elem? ps i old got

      look :
          (j : ℕ) (q : Platter)
          → get_elem? (set ps i new) j ≡ some q
          → ((i ≡ j) × (new ≡ q)) ⊎ ((i ≢ j) × (get_elem? ps j ≡ some q))
      look j q e = get_elem?-set_cases ps i j new q inside e

      clash :
          (k : ℕ) (q : Platter)
          → i ≢ k
          → get_elem? ps k ≡ some q
          → new.dish ≡ q.dish
          → q.dish ≢ minus_one
          → ⊥
      clash k q apart e same ne = elim which [
        | inl as_before ↦
            apart (
              t.distinct i k old q got e (sym as_before ∙ same)
                (λ z. ne (sym same ∙ as_before ∙ z)))
        | inr gone ↦ gone k q (lt-length_of_get_elem? ps k q e) e (sym same)
      ]

  Served-IsTable :
      {order : ℤ} {r : List Platter × Bool} → order ≢ minus_one → Served order ps r → IsTable r.0
  Served-IsTable ne (hit j q got e) =
      set-IsTable j q _ got
        (elim (t.shape j q got) [
          | inl empty ↦ absurd (ne (sym e ∙ ap Platter.dish empty))
          | inr full ↦ inr (full.0, suc_int_nonneg q.uses full.1)
        ])
        (inl refl)
  Served-IsTable ne (miss {l} ab lb) =
      set-IsTable l lb.platter _ lb.here (inr (ne, omega arith)) (inr ab)

-- A table of five platters on which no dish lies twice stays one when an order is served.
pub serve_dish-IsTable :
    {ps : List Platter} (order : ℤ)
    → order ≢ minus_one
    → IsTable ps
    → IsTable (serve_dish ps order).0
serve_dish-IsTable {ps} order ne t =
    Served-IsTable t ne (serve_dish-Served order ps (omega (arith, t.size)))
