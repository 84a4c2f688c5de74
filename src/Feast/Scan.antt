-- ===== src/Feast/Scan.antt =====
-- The search of `serve_dishes` for the order and for the platter that is used least.
use linux_system_programming.Prelude.{
  ℕ, suc, ◌+◌, ◌<◌, ◌≡◌, refl, ◌≢◌, inl, inr, true, false, Option, none, some, List, [], ◌∷◌, arith,
  sym, ap, ◌∙◌, subst, ◌==◌, ==_iff, if◌then◌else◌, Bool-cases, ℤ, ◌≤ℤ◌, eq_int, lt_int, eq_int_iff,
  length, get_elem?,
}
use linux_system_programming.Feast.{Platter, scan}

-- No platter below index `i` holds the order.
abbrev pub AbsentBelow : ℤ → List Platter → ℕ → Type 0
AbsentBelow order ps i = (k : ℕ) (q : Platter) → k < i → get_elem? ps k ≡ some q → q.dish ≢ order

-- Platter `l` has `u` uses, as few as any below index `i`, and fewer than those before it.
pub record LeastBelow (ps : List Platter) (i l : ℕ) (u : ℤ) : Type 0 where
  pub platter : Platter
  pub here : get_elem? ps l ≡ some platter
  pub count : platter.uses ≡ u
  pub fewest : (k : ℕ) (q : Platter) → k < i → get_elem? ps k ≡ some q → u ≤ℤ q.uses
  pub first : (k : ℕ) (q : Platter) → k < l → get_elem? ps k ≡ some q → lt_int u q.uses ≡ true

-- What the search finds: the first platter with the order, or its absence and the first platter
-- of fewest uses.
pub data Found (order : ℤ) (ps : List Platter) : Option ℕ × ℕ → Type 0 where
  present :
      {j l : ℕ} (q : Platter)
      → get_elem? ps j ≡ some q
      → q.dish ≡ order
      → AbsentBelow order ps j
      → Found order ps (some j, l)
  absent :
      {l : ℕ} {u : ℤ}
      → AbsentBelow order ps (length ps)
      → LeastBelow ps (length ps) l u
      → Found order ps (none, l)

-- `rest` is `ps` from index `i` on.
record Suffix (ps : List Platter) (i : ℕ) (rest : List Platter) : Type 0 where
  get : (k j : ℕ) → i + k ≡ j → get_elem? ps j ≡ get_elem? rest k

module _ {ps : List Platter} {p : Platter} {rest : List Platter} {i : ℕ}
    (at : Suffix ps i (p ∷ rest)) where
  head_at : get_elem? ps i ≡ some p
  head_at = at.get 0 i (omega arith)

  Suffix-suc : Suffix ps (suc i) rest
  Suffix-suc = record { get = λ k j e. at.get (suc k) j (omega arith) }

  AbsentBelow-suc :
      {order : ℤ}
      → AbsentBelow order ps i
      → eq_int p.dish order ≡ false
      → AbsentBelow order ps (suc i)
  AbsentBelow-suc {order} ab ne k q lt got e = elim (Bool-cases (k == i)) [
    | inl eq ↦
        let k_i : k ≡ i = (==_iff k i).0 eq in
        let same : some p ≡ some q = sym head_at ∙ ap (get_elem? ps) (sym k_i) ∙ got in
        let hit : p.dish ≡ order = cc in
        let both : true ≡ false = sym ((eq_int_iff p.dish order).1 hit) ∙ ne in cc
    | inr neq ↦ ab k q (ground arith) got e
  ]

  LeastBelow-suc :
      {l : ℕ} {u : ℤ}
      → LeastBelow ps i l u
      → let below = lt_int p.uses u in
        LeastBelow ps (suc i) (if below then i else l) (if below then p.uses else u)
  LeastBelow-suc {l} {u} b = elim (Bool-cases (lt_int p.uses u)) [
    | inl lt ↦ rw lt (record {
      platter = p;
      here = head_at;
      count = refl;
      fewest = λ k q h got. elim (Bool-cases (k == i)) [
        | inl eq ↦
            let k_i : k ≡ i = (==_iff k i).0 eq in
            let same : some p ≡ some q = sym head_at ∙ ap (get_elem? ps) (sym k_i) ∙ got in
            let uses_eq : p.uses ≡ q.uses = cc in rw uses_eq (omega arith)
        | inr neq ↦ ground (arith, b.fewest k q (ground arith) got)
      ];
      first = λ k q h got. ground (arith, b.fewest k q h got);
    })
    | inr ge ↦ rw ge (record {
      platter = b.platter;
      here = b.here;
      count = b.count;
      fewest = λ k q h got. elim (Bool-cases (k == i)) [
        | inl eq ↦
            let k_i : k ≡ i = (==_iff k i).0 eq in
            let same : some p ≡ some q = sym head_at ∙ ap (get_elem? ps) (sym k_i) ∙ got in
            let uses_eq : p.uses ≡ q.uses = cc in rw (← uses_eq) (ground arith)
        | inr neq ↦ b.fewest k q (ground arith) got
      ];
      first = b.first;
    })
  ]

scan-Found :
    (order : ℤ) (ps rest : List Platter) (i l : ℕ) (u : ℤ)
    → Suffix ps i rest
    → i + length rest ≡ length ps
    → AbsentBelow order ps i
    → LeastBelow ps i l u
    → Found order ps (scan order rest i l u)
unfolding scan
scan-Found order ps [] i l u at size ab lb =
    let end : i ≡ length ps = omega arith in
    absent (subst (AbsentBelow order ps) end ab) (subst (λ n. LeastBelow ps n l u) end lb)
scan-Found order ps (p ∷ rest) i l u at size ab lb = elim (Bool-cases (eq_int p.dish order)) [
  | inl hit ↦ rw hit (present p (head_at at) ((eq_int_iff p.dish order).0 hit) ab)
  | inr miss ↦ rw miss (
      scan-Found order ps rest (suc i) _ _ (Suffix-suc at) (omega arith)
        (AbsentBelow-suc at ab miss) (LeastBelow-suc at lb))
]

-- The search from the head of a table, as `serve_dish` makes it.
pub scan-Found_all :
    (order : ℤ) (p : Platter) (ps : List Platter)
    → Found order (p ∷ ps) (scan order (p ∷ ps) 0 0 p.uses)
scan-Found_all order p ps =
    scan-Found order (p ∷ ps) (p ∷ ps) 0 0 p.uses
      (record { get = λ k j e. let e' : k ≡ j = omega arith in rw e' }) (omega arith)
      (λ k q h. absurd (omega arith))
      (record {
        platter = p;
        here = refl;
        count = refl;
        fewest = λ k q h. absurd (omega arith);
        first = λ k q h. absurd (omega arith);
      })
