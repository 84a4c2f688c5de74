-- ===== src/Sorting/Sorted.antt =====
-- insertion_sort sorts a part of the array and leaves the rest.
use linux_system_programming.Prelude.{
  ℕ, zero, suc, ◌+◌, ◌-◌, ◌<◌, ◌≡◌, refl, sym, subst, ap, ◌∙◌, inl, inr, Bool, true, false, some,
  List, [], ◌∷◌, ◌++◌, arith, Bool-cases, length, get_elem?, append-nil,
}
use mathlib.Core.List.{Perm, perm_middle}
use mathlib.Core.List.Perm
use linux_system_programming.Sorting.{place_first, sort_loop, insertion_sort}
use linux_system_programming.Sorting.Insert.{
  rapp, lowest, get_hole, set_hole, get_lowest, insert_desc, shifted, shift_loop-shifted,
}

abbrev pub All : {A : Type 0} → (A → Type 0) → List A → Type 0
All P [] = Unit
All P (x ∷ xs) = P x × All P xs

pub All-map :
    {A : Type 0} {P Q : A → Type 0} (xs : List A) → ((x : A) → P x → Q x) → All P xs → All Q xs
All-map [] f h = tt
All-map (x ∷ xs) f h = (f x h.0, All-map xs f h.1)

module _ {A : Type 0} (gt : A → A → Bool) where
  -- The first element is the greatest.
  abbrev pub Desc : List A → Type 0
  Desc [] = Unit
  Desc (s ∷ r) = All (λ y. gt y s ≡ false) r × Desc r

  -- No element is greater than a later one.
  abbrev pub Asc : List A → Type 0
  Asc [] = Unit
  Asc (x ∷ xs) = All (λ y. gt x y ≡ false) xs × Asc xs

  -- The comparison of a total preorder, as that of doubles without NaN.
  pub record Order : Type 0 where
    pub trans : (x y z : A) → gt x y ≡ false → gt y z ≡ false → gt x z ≡ false
    pub asym : (x y : A) → gt x y ≡ true → gt y x ≡ false

  abbrev Starts : A → A → List A → Type 0
  Starts h x [] = gt h x ≡ true
  Starts h x (s ∷ r) = Unit

  starts : (s x : A) (r : List A) → gt s x ≡ true → Starts s x r
  starts s x [] e = e
  starts s x (y ∷ r) e = tt

  lowest_le :
      (o : Order) (s x : A) (r : List A) → Desc (s ∷ r) → gt s x ≡ false → gt (lowest s r) x ≡ false
  lowest_le o s x [] d e = e
  lowest_le o s x (y ∷ r) d e = lowest_le o y x r d.1 (o.trans y s x d.0.0 e)

  shifted_more :
      (p r l : List A) (s h x : A)
      → gt s x ≡ true
      → shifted gt p (s ∷ r) x h l ≡ shifted gt p r x s (s ∷ l)
  unfolding shifted
  shifted_more p r l s h x e = rw e refl

  insert_desc_more :
      (r : List A) (s x : A) → gt s x ≡ true → insert_desc gt x (s ∷ r) ≡ s ∷ insert_desc gt x r
  unfolding insert_desc
  insert_desc_more r s x e = rw e refl

  shifted_stop :
      (p r l : List A) (s h x : A)
      → gt s x ≡ false
      → shifted gt p (s ∷ r) x h l ≡ p ++ rapp r (s ∷ x ∷ l)
  unfolding shifted
  shifted_stop p r l s h x e = rw e refl

  insert_desc_stop : (r : List A) (s x : A) → gt s x ≡ false → insert_desc gt x (s ∷ r) ≡ x ∷ s ∷ r
  unfolding insert_desc
  insert_desc_stop r s x e = rw e refl

  place_first_stays :
      (a : ℕ) (x y : A) (arr : List A)
      → get_elem? arr a ≡ some y
      → gt y x ≡ false
      → place_first gt a x arr ≡ some arr
  unfolding place_first
  place_first_stays a x y arr at e = rw (place_first, at, e) refl

  -- `arr[a] = tmp` where it is due: the element is in its place.
  place_first-insert :
      (o : Order) (p r l : List A) (h x : A) (a : ℕ)
      → a ≡ length p
      → Desc r
      → Starts h x r
      → place_first gt a x (shifted gt p r x h l) ≡ some (p ++ rapp (insert_desc gt x r) l)
  unfolding place_first shifted insert_desc
  place_first-insert o p [] l h x a ea d s =
      rw
        (
          place_first,
          get_hole p [] l h a (omega (arith, ea)),
          s,
          set_hole p [] l h x a (omega (arith, ea)),
        )
        refl
  place_first-insert o p (y ∷ r) l h x a ea d s = elim (Bool-cases (gt y x)) [
    | inl more ↦
        ap (place_first gt a x) (shifted_more p r l y h x more)
        ∙ place_first-insert o p r (y ∷ l) y x a ea d.1 (starts y x r more)
        ∙ ap (λ out. some (p ++ rapp out l)) (sym (insert_desc_more r y x more))
    | inr stop ↦
        let low = lowest_le o y x r d stop in
        ap (place_first gt a x) (shifted_stop p r l y h x stop)
        ∙ place_first_stays a x (lowest y r) (p ++ rapp r (y ∷ x ∷ l))
            (get_lowest p r (x ∷ l) y a ea) low
        ∙ ap (λ out. some (p ++ rapp out l)) (sym (insert_desc_stop r y x stop))
  ]

  length-insert_desc : (x : A) (r : List A) → length (insert_desc gt x r) ≡ suc (length r)
  unfolding insert_desc
  length-insert_desc x [] = refl
  length-insert_desc x (s ∷ r) = elim (Bool-cases (gt s x)) [
    | inl more ↦ rw more (ap suc (length-insert_desc x r))
    | inr stop ↦ rw stop refl
  ]

  insert_desc-All :
      (P : A → Type 0) (x : A) (r : List A) → P x → All P r → All P (insert_desc gt x r)
  unfolding insert_desc
  insert_desc-All P x [] px h = (px, tt)
  insert_desc-All P x (s ∷ r) px h = elim (Bool-cases (gt s x)) [
    | inl more ↦ rw more (h.0, insert_desc-All P x r px h.1)
    | inr stop ↦ rw stop (px, h)
  ]

  insert_desc-Desc : (o : Order) (x : A) (r : List A) → Desc r → Desc (insert_desc gt x r)
  unfolding insert_desc
  insert_desc-Desc o x [] d = (tt, tt)
  insert_desc-Desc o x (s ∷ r) d = elim (Bool-cases (gt s x)) [
    | inl more ↦ rw more (
      insert_desc-All (λ y. gt y s ≡ false) x r (o.asym s x more) d.0,
      insert_desc-Desc o x r d.1,
    )
    | inr stop ↦ rw stop ((stop, All-map r (λ y e. o.trans y s x e stop) d.0), d)
  ]

  insert_desc-Perm : (x : A) (r : List A) → Perm (insert_desc gt x r) (x ∷ r)
  unfolding insert_desc
  insert_desc-Perm x [] = Perm.rfl
  insert_desc-Perm x (s ∷ r) = elim (Bool-cases (gt s x)) [
    | inl more ↦ rw more (Perm.trans (Perm.cons s (insert_desc-Perm x r)) (Perm.swap x s r))
    | inr stop ↦ rw stop Perm.rfl
  ]

  -- The elements inserted one after the other.
  abbrev insert_all : List A → List A → List A
  insert_all [] r = r
  insert_all (x ∷ xs) r = insert_all xs (insert_desc gt x r)

  insert_all-Desc : (o : Order) (xs r : List A) → Desc r → Desc (insert_all xs r)
  insert_all-Desc o [] r d = d
  insert_all-Desc o (x ∷ xs) r d =
      insert_all-Desc o xs (insert_desc gt x r) (insert_desc-Desc o x r d)

  insert_all-Perm : (xs r : List A) → Perm (insert_all xs r) (xs ++ r)
  insert_all-Perm [] r = Perm.rfl
  insert_all-Perm (x ∷ xs) r =
      Perm.trans (insert_all-Perm xs (insert_desc gt x r))
        (Perm.trans (Perm.append_left xs (insert_desc-Perm x r)) (perm_middle xs r))

  Starts-some : (h x : A) (r : List A) → 0 < length r → Starts h x r
  Starts-some h x [] lt = absurd (omega (arith, lt))
  Starts-some h x (s ∷ r) lt = tt

  sort_loop-insert_all :
      (o : Order) (p r mid post : List A) (a k n : ℕ)
      → a ≡ length p
      → k ≡ length r
      → n ≡ length mid
      → 0 < length r
      → Desc r
      → sort_loop gt n a k (p ++ rapp r (mid ++ post)) ≡ some (p ++ rapp (insert_all mid r) post)
  unfolding sort_loop
  sort_loop-insert_all o p r [] post a k zero ea ek en lt d = refl
  sort_loop-insert_all o p r [] post a k (suc n) ea ek en lt d = ground (arith, en)
  sort_loop-insert_all o p r (x ∷ mid) post a k zero ea ek en lt d = ground (arith, en)
  sort_loop-insert_all o p r (x ∷ mid) post a k (suc n) ea ek en lt d =
      let reads = get_hole p r (mid ++ post) x (a + k) (omega (arith, ea, ek)) in
      let shifts = shift_loop-shifted gt p r (mid ++ post) x x a k ea ek in
      let places = place_first-insert o p r (mid ++ post) x x a ea d (Starts-some x x r lt) in
      let more = length-insert_desc x r in
      rw (sort_loop, reads, shifts, places)
        (sort_loop-insert_all o p (insert_desc gt x r) mid post a (suc k) n ea
          (omega (arith, ek, more)) (omega (arith, en)) (omega (arith, more))
          (insert_desc-Desc o x r d))

  rapp-append : (r l post : List A) → rapp r (l ++ post) ≡ rapp r l ++ post
  rapp-append [] l post = refl
  rapp-append (s ∷ r) l post = rapp-append r (s ∷ l) post

  rapp-Perm : (r l : List A) → Perm (rapp r l) (r ++ l)
  rapp-Perm [] l = Perm.rfl
  rapp-Perm (s ∷ r) l = Perm.trans (rapp-Perm r (s ∷ l)) (perm_middle r l)

  -- Every element of the first list is at most each of the second.
  abbrev Below : List A → List A → Type 0
  Below [] l = Unit
  Below (y ∷ r) l = All (λ z. gt y z ≡ false) l × Below r l

  Below-cons : (s : A) (r l : List A) → All (λ y. gt y s ≡ false) r → Below r l → Below r (s ∷ l)
  Below-cons s [] l h b = tt
  Below-cons s (y ∷ r) l h b = ((h.0, b.0), Below-cons s r l h.1 b.1)

  Below-nil : (r : List A) → Below r []
  Below-nil [] = tt
  Below-nil (y ∷ r) = (tt, Below-nil r)

  rapp-Asc : (r l : List A) → Desc r → Asc l → Below r l → Asc (rapp r l)
  rapp-Asc [] l d a b = a
  rapp-Asc (s ∷ r) l d a b = rapp-Asc r (s ∷ l) d.1 (b.0, a) (Below-cons s r l d.0 b.1)

insertion_sort_rounds :
    {A : Type 0} (gt : A → A → Bool) (arr : List A) (a b n : ℕ)
    → n ≡ b - (a + 1)
    → insertion_sort gt arr a b ≡ sort_loop gt n a 1 arr
unfolding insertion_sort
insertion_sort_rounds gt arr a b n e = ap (λ m. sort_loop gt m a 1 arr) (sym e)

-- For a comparison that orders the elements, `insertion_sort(arr, a, b)` ends with no access
-- outside of the array, and sorts the part from `a` to `b`, which is not empty: that part then
-- holds the same elements, none greater than a later one, and the rest of the array stays.
pub insertion_sort-Asc :
    {A : Type 0} (gt : A → A → Bool)
    → Order gt
    → (before part after : List A) → 0 < length part
    → (out : List A) × (insertion_sort gt
          (before ++ (part ++ after))
          (length before)
          (length before + length part)
        ≡ some (before ++ (out ++ after)))
      × Perm out part
      × Asc gt out
insertion_sort-Asc gt o before [] after lt = absurd (omega (arith, lt))
insertion_sort-Asc gt o before (x ∷ mid) after lt =
    let r = insert_all gt mid (x ∷ []) in
    (
      rapp r [],
      insertion_sort_rounds gt (before ++ rapp (x ∷ []) (mid ++ after)) (length before)
            (length before + length (x ∷ mid)) (length mid) (omega arith)
          ∙ sort_loop-insert_all gt o before (x ∷ []) mid after (length before) 1 (length mid) refl
              refl refl (omega arith) (tt, tt)
          ∙ ap (λ l. some (before ++ l)) (rapp-append gt r [] after),
      Perm.trans (subst (Perm (rapp r [])) (append-nil r) (rapp-Perm gt r [])) (
          Perm.trans (insert_all-Perm gt mid (x ∷ []))
            (subst (λ l. Perm (mid ++ x ∷ []) (x ∷ l)) (append-nil mid) (perm_middle mid []))),
      rapp-Asc gt r [] (insert_all-Desc gt o mid (x ∷ []) (tt, tt)) tt (Below-nil gt r),
    )
