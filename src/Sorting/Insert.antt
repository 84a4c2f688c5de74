-- ===== src/Sorting/Insert.antt =====
-- What the loops of insertion_sort do to the array.
use linux_system_programming.Prelude.{
  ℕ, zero, suc, ◌+◌, ◌≡◌, refl, ap, ◌∙◌, inl, inr, Bool, some, List, [], ◌∷◌, ◌++◌, arith,
  Bool-cases, if◌then◌else◌, length, get_elem?, set,
}
use linux_system_programming.Sorting.{shift_loop}

module _ {A : Type 0} where
  -- `r` in reverse, before `l`: the sorted part of the array is kept from its end on.
  abbrev pub rapp : List A → List A → List A
  rapp [] l = l
  rapp (s ∷ r) l = rapp r (s ∷ l)

  get_elem?-rapp :
      (r l : List A) (i n : ℕ) → n ≡ length r + i → get_elem? (rapp r l) n ≡ get_elem? l i
  get_elem?-rapp [] l i n e = ap (get_elem? l) (omega (arith, e))
  get_elem?-rapp (s ∷ r) l i n e = get_elem?-rapp r (s ∷ l) (suc i) n (omega (arith, e))

  set-rapp :
      (r l : List A) (i n : ℕ) (v : A) → n ≡ length r + i → set (rapp r l) n v ≡ rapp r (set l i v)
  set-rapp [] l i n v e = ap (λ m. set l m v) (omega (arith, e))
  set-rapp (s ∷ r) l i n v e = set-rapp r (s ∷ l) (suc i) n v (omega (arith, e))

  pub get_pre : (p l : List A) (i n : ℕ) → n ≡ length p + i → get_elem? (p ++ l) n ≡ get_elem? l i
  get_pre [] l i n e = ap (get_elem? l) (omega (arith, e))
  get_pre (x ∷ p) l i zero e = ground (arith, e)
  get_pre (x ∷ p) l i (suc n) e = get_pre p l i n (omega (arith, e))

  pub set_pre :
      (p l : List A) (i n : ℕ) (v : A) → n ≡ length p + i → set (p ++ l) n v ≡ p ++ set l i v
  set_pre [] l i n v e = ap (λ m. set l m v) (omega (arith, e))
  set_pre (x ∷ p) l i zero v e = ground (arith, e)
  set_pre (x ∷ p) l i (suc n) v e = ap (◌∷◌ x) (set_pre p l i n v (omega (arith, e)))

  pub get_hole :
      (p r l : List A) (h : A) (n : ℕ)
      → n ≡ length p + length r
      → get_elem? (p ++ rapp r (h ∷ l)) n ≡ some h
  get_hole p r l h n e =
      get_pre p (rapp r (h ∷ l)) (length r) n e
      ∙ get_elem?-rapp r (h ∷ l) 0 (length r) (omega arith)

  pub set_hole :
      (p r l : List A) (h v : A) (n : ℕ)
      → n ≡ length p + length r
      → set (p ++ rapp r (h ∷ l)) n v ≡ p ++ rapp r (v ∷ l)
  set_hole p r l h v n e =
      set_pre p (rapp r (h ∷ l)) (length r) n v e
      ∙ ap (p ++◌) (set-rapp r (h ∷ l) 0 (length r) v (omega arith))

  -- The element that the list in reverse begins with.
  abbrev pub lowest : A → List A → A
  lowest h [] = h
  lowest h (s ∷ r) = lowest s r

  pub get_lowest :
      (p r l : List A) (h : A) (n : ℕ)
      → n ≡ length p
      → get_elem? (p ++ rapp r (h ∷ l)) n ≡ some (lowest h r)
  get_lowest p [] l h n e = get_hole p [] l h n (omega (arith, e))
  get_lowest p (s ∷ r) l h n e = get_lowest p r (h ∷ l) s n e

module _ {A : Type 0} (gt : A → A → Bool) where
  -- Insertion into a list with the largest element first.
  unfoldable pub insert_desc : A → List A → List A
  insert_desc x [] = x ∷ []
  insert_desc x (s ∷ r) = let rest = insert_desc x r in if gt s x then s ∷ rest else x ∷ s ∷ r

  -- Whether the inner `for` ends at its first test, with `x` still to be placed.
  unfoldable pub shifted : List A → List A → A → A → List A → List A
  shifted p [] x h l = p ++ h ∷ l
  shifted p (s ∷ r) x h l =
      let rest = shifted p r x s (s ∷ l) in if gt s x then rest else p ++ rapp (s ∷ r) (x ∷ l)

  pub shift_loop-shifted :
      (p r l : List A) (h x : A) (a k : ℕ)
      → a ≡ length p
      → k ≡ length r
      → shift_loop gt a k x (p ++ rapp r (h ∷ l)) ≡ some (shifted p r x h l)
  unfolding shift_loop shifted
  shift_loop-shifted p [] l h x a zero ea ek = refl
  shift_loop-shifted p [] l h x a (suc k) ea ek = ground (arith, ek)
  shift_loop-shifted p (s ∷ r) l h x a zero ea ek = ground (arith, ek)
  shift_loop-shifted p (s ∷ r) l h x a (suc k) ea ek =
      let at = get_hole p r (h ∷ l) s (a + k) (omega (arith, ea, ek)) in
      elim (Bool-cases (gt s x)) [
        | inl more ↦
            let moved = set_hole p (s ∷ r) l h s (a + suc k) (omega (arith, ea, ek)) in
            rw (shift_loop, at, more, moved)
              (shift_loop-shifted p r (s ∷ l) s x a k ea (omega (arith, ek)))
        | inr stop ↦
            let put = set_hole p (s ∷ r) l h x (a + suc k) (omega (arith, ea, ek)) in
            rw (shift_loop, at, stop, put) refl
      ]
