-- ===== src/Heap/Chain.antt =====
-- Chains of nodes that one of their fields links.
use linux_system_programming.Prelude.{
  ◌≡◌, refl, ◌≢◌, Bool, true, false, ◌||◌, Option, none, some, List, [], ◌∷◌, arith, ◌==◌,
}
use linux_system_programming.Heap.{Ptr, null, Heap, write, ok, load, free}

pub not_null : {p : Ptr} → p ≢ null → (p == null) ≡ false
not_null ne = ground arith

pub load-ok :
    {N : Type 0} (h : Heap N) {p : Ptr} {n : N} → p ≢ null → h p ≡ some n → load p h ≡ ok n h
unfolding load
load-ok h ne e = rw (not_null ne, e)

pub free-ok :
    {N : Type 0} (h : Heap N) {p : Ptr} {n : N}
    → p ≢ null
    → h p ≡ some n
    → free p h ≡ ok tt (write h p none)
unfolding free
free-ok h ne e = rw (not_null ne, e)

abbrev pub has : {N : Type 0} → Ptr → List (Ptr × N) → Bool
has a [] = false
has a ((p, _) ∷ xs) = (a == p) || has a xs

-- From `p` the field `link` leads through the distinct nodes `xs` to NULL.
pub data Chain {N : Type 0} (link : N → Ptr) (h : Heap N) : Ptr → List (Ptr × N) → Type 0 where
  nil : Chain link h null []
  cons :
      {p : Ptr} {n : N} {xs : List (Ptr × N)}
      → p ≢ null
      → h p ≡ some n
      → has p xs ≡ false
      → Chain link h (link n) xs
      → Chain link h p ((p, n) ∷ xs)

module _ {N : Type 0} {link : N → Ptr} {h : Heap N} where
  -- A chain outlives any change that spares its nodes.
  pub frame :
      {g : Heap N} {p : Ptr} {xs : List (Ptr × N)}
      → Chain link h p xs
      → ((a : Ptr) → has a xs ≡ true → g a ≡ h a)
      → Chain link g p xs
  frame nil same = nil
  frame (cons {p} ne e out c) same =
      cons ne (ground (arith, same p)) out (frame c λ a i. same a (ground arith))

  pub frame-write :
      {p : Ptr} {xs : List (Ptr × N)} (a : Ptr) (c : Option N)
      → Chain link h p xs
      → has a xs ≡ false
      → Chain link (write h a c) p xs
  unfolding write
  frame-write a c s out = frame s (ground arith)

  pub not-has_of_none :
      {p : Ptr} {xs : List (Ptr × N)} (a : Ptr) → Chain link h p xs → h a ≡ none → has a xs ≡ false
  not-has_of_none a nil unused = refl
  not-has_of_none a (cons ne e out c) unused = ground (arith, not-has_of_none a c unused)

  pub eq_of_nil : {p : Ptr} → Chain link h p [] → p ≡ null
  eq_of_nil nil = refl
