-- ===== src/SharedList/Free.antt =====
-- What `main` prints and frees of a list, after the joins.
use linux_system_programming.Prelude.{
  ℕ, zero, suc, ◌<◌, ◌≡◌, refl, none, List, [], ◌∷◌, arith, if◌then◌else◌, length,
}
use linux_system_programming.Heap.{Ptr, Heap, write, ok}
use linux_system_programming.Heap.Chain.{
  Chain, nil, cons, has, not_null, load-ok, free-ok, frame-write,
}
use linux_system_programming.SharedList.{Node, Shared, print_nodes, free_nodes, print_and_free}

abbrev pub Cells : Type 0
Cells = List (Ptr × Node)

abbrev pub elements : Cells → List ℕ
elements [] = []
elements ((p, n) ∷ xs) = n.element ∷ elements xs

print_nodes-elements :
    (fuel : ℕ) {h : Heap Node} {p : Ptr} {xs : Cells}
    → Chain Node.next h p xs
    → length xs < fuel
    → print_nodes fuel p h ≡ ok (elements xs) h
unfolding print_nodes
print_nodes-elements zero c enough = absurd (omega arith)
print_nodes-elements (suc fuel) nil enough = refl
print_nodes-elements (suc fuel) {h} (cons {p} {n} ne e out c) enough =
    rw (not_null ne, load-ok h ne e, print_nodes-elements fuel c (omega arith)) refl

-- `g` is `h` without the nodes `xs`.
abbrev pub Without : Cells → Heap Node → Heap Node → Type 0
Without xs h g = (a : Ptr) → g a ≡ (if has a xs then none else h a)

Without-cons :
    (h g : Heap Node) (p : Ptr) (n : Node) (xs : Cells) (a : Ptr)
    → g a ≡ (if has a xs then none else write h p none a)
    → g a ≡ (if has a ((p, n) ∷ xs) then none else h a)
unfolding write
Without-cons h g p n xs a e = ground arith

free_nodes-Without :
    (fuel : ℕ) {h : Heap Node} {p : Ptr} {xs : Cells}
    → Chain Node.next h p xs
    → length xs < fuel
    → (g : Heap Node) × (free_nodes fuel p h ≡ ok tt g) × Without xs h g
unfolding free_nodes
free_nodes-Without zero c enough = absurd (omega arith)
free_nodes-Without (suc fuel) {h} nil enough = (h, refl, λ a. refl)
free_nodes-Without (suc fuel) {h} (cons {p} {n} {xs} ne e out c) enough =
    let (g, runs, gone) = free_nodes-Without fuel (frame-write p none c out) (omega arith) in
    (
      g,
      rw (not_null ne, load-ok h ne e, free-ok h ne e) runs,
      λ a. Without-cons h g p n xs a (gone a),
    )

pub print_and_free-elements :
    (fuel : ℕ) (s : Shared) (xs : Cells)
    → Chain Node.next s.heap s.head xs
    → length xs < fuel
    → (g : Heap Node) × (print_and_free fuel s ≡ ok (elements xs) g) × Without xs s.heap g
unfolding print_and_free
print_and_free-elements fuel s xs c enough =
    let (g, runs, gone) = free_nodes-Without fuel c enough in
    (g, rw (print_nodes-elements fuel c enough, runs) refl, gone)
