-- ===== src/Sorting/Merge/Merged.antt =====
-- Two sorted lists merged.
use linux_system_programming.Prelude.{
  ◌≡◌, Bool, true, false, List, [], ◌∷◌, ◌++◌, append-nil, sym, subst,
}
use mathlib.Core.List.{Perm, perm_middle}
use mathlib.Core.List.Perm
use linux_system_programming.Sorting.Sorted.{All, All-map, Asc, Order}

-- The third list is what `merge` makes of the first two.
pub data Merged {A : Type 0} (gt : A → A → Bool) : List A → List A → List A → Type 0 where
  no_left : (ys : List A) → Merged gt [] ys ys
  no_right : (xs : List A) → Merged gt xs [] xs
  left :
      {x y : A} {xs ys zs : List A}
      → gt y x ≡ true
      → Merged gt xs (y ∷ ys) zs
      → Merged gt (x ∷ xs) (y ∷ ys) (x ∷ zs)
  right :
      {x y : A} {xs ys zs : List A}
      → gt y x ≡ false
      → Merged gt (x ∷ xs) ys zs
      → Merged gt (x ∷ xs) (y ∷ ys) (y ∷ zs)

module _ {A : Type 0} {gt : A → A → Bool} where
  pub Merged-Perm : {xs ys zs : List A} → Merged gt xs ys zs → Perm zs (xs ++ ys)
  Merged-Perm (no_left ys) = Perm.rfl
  Merged-Perm (no_right xs) = subst (Perm xs) (sym (append-nil xs)) Perm.rfl
  Merged-Perm (left {x} e m) = Perm.cons x (Merged-Perm m)
  Merged-Perm (right {x} {y} {xs} {ys} e m) =
      Perm.trans (Perm.cons y (Merged-Perm m)) (Perm.symm (perm_middle (x ∷ xs) ys))

  Merged-All :
      (P : A → Type 0) {xs ys zs : List A} → Merged gt xs ys zs → All P xs → All P ys → All P zs
  Merged-All P (no_left ys) a b = b
  Merged-All P (no_right xs) a b = a
  Merged-All P (left e m) a b = (a.0, Merged-All P m a.1 b)
  Merged-All P (right e m) a b = (b.0, Merged-All P m a b.1)

  pub Merged-Asc :
      (o : Order gt) {xs ys zs : List A} → Merged gt xs ys zs → Asc gt xs → Asc gt ys → Asc gt zs
  Merged-Asc o (no_left ys) a b = b
  Merged-Asc o (no_right xs) a b = a
  Merged-Asc o (left {x} {y} {xs} {ys} e m) a b =
      let less = o.asym y x e in
      (
        Merged-All (λ z. gt x z ≡ false) m a.0 (less, All-map ys (λ z f. o.trans x y z less f) b.0),
        Merged-Asc o m a.1 b,
      )
  Merged-Asc o (right {x} {y} {xs} {ys} e m) a b = (
    Merged-All (λ z. gt y z ≡ false) m (e, All-map xs (λ z f. o.trans y x z e f) a.0) b.0,
    Merged-Asc o m a b.1,
  )
