-- ===== src/Chat/LList/Destroy.antt =====
-- `llist_destroy` frees the nodes that `next` leads to.
use linux_system_programming.Prelude.{
  ℕ, zero, suc, ◌<◌, ◌≡◌, refl, none, some, ◌∷◌, arith, if◌then◌else◌, pos, length,
}
use linux_system_programming.Heap.{Ptr, Heap, write, ok}
use linux_system_programming.Heap.Chain.{
  Chain, nil, cons, has, not_null, load-ok, free-ok, frame-write,
}
use linux_system_programming.Chat.LList.{LNode, LList, destroy_loop, llist_destroy}
use linux_system_programming.Chat.LList.Stack.{Cells, IsFront}

-- `g` is `h` without the nodes `xs`.
abbrev pub Without : Cells → Heap LNode → Heap LNode → Type 0
Without xs h g = (a : Ptr) → g a ≡ (if has a xs then none else h a)

Without-cons :
    (h g : Heap LNode) (p : Ptr) (n : LNode) (xs : Cells) (a : Ptr)
    → g a ≡ (if has a xs then none else write h p none a)
    → g a ≡ (if has a ((p, n) ∷ xs) then none else h a)
unfolding write
Without-cons h g p n xs a e = ground arith

destroy_loop-Without :
    (fuel : ℕ) {h : Heap LNode} {p : Ptr} {xs : Cells}
    → Chain LNode.next h p xs
    → length xs < fuel
    → (g : Heap LNode) × (destroy_loop fuel p h ≡ ok tt g) × Without xs h g
unfolding destroy_loop
destroy_loop-Without zero c enough = absurd (omega arith)
destroy_loop-Without (suc fuel) {h} nil enough = (h, refl, λ a. refl)
destroy_loop-Without (suc fuel) {h} (cons {p} {n} {xs} ne e out c) enough =
    let (g, runs, gone) = destroy_loop-Without fuel (frame-write p none c out) (omega arith) in
    (
      g,
      rw (not_null ne, load-ok h ne e, free-ok h ne e) runs,
      λ a. Without-cons h g p n xs a (gone a),
    )

-- With more rounds than nodes `llist_destroy` returns 0, frees exactly the nodes of the list, and
-- leaves `head`, `tail` and `size` as they were.
pub llist_destroy-Without :
    {fuel : ℕ} {h : Heap LNode} {l : LList} {xs : Cells}
    → IsFront h l xs
    → length xs < fuel
    → (g : Heap LNode) × (llist_destroy fuel (some l) h ≡ ok (pos 0, some l) g) × Without xs h g
unfolding llist_destroy
llist_destroy-Without {fuel} is enough =
    let (g, runs, gone) = destroy_loop-Without fuel is.chain enough in (g, rw runs refl, gone)
