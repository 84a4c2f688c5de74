-- ===== src/Chat/LList/Stack.antt =====
-- Used at one end only, the list is a stack: `addf` with `remf` over `next`, `addl` with `reml`
-- over `prev`.
use linux_system_programming.Prelude.{
  ◌≡◌, refl, ◌≢◌, none, some, List, [], ◌∷◌, arith, if◌then◌else◌, suc_int, pred_int, eq_int, ℤ,
  pos, length, ap,
}
use linux_system_programming.Heap.{Ptr, null, Heap, write, ok}
use linux_system_programming.Heap.Chain.{Chain, cons, frame-write, not-has_of_none}
use linux_system_programming.Chat.LList.Calls.{
  with_front, with_back, less_front, less_back, front_node, back_node, llist_addf-ok, llist_addl-ok,
  llist_remf-ok, llist_reml-ok,
}
use linux_system_programming.Chat.LList.{
  LNode, LList, llist_addf, llist_addl, llist_remf, llist_reml,
}

abbrev pub Cells : Type 0
Cells = List (Ptr × LNode)

-- The address of the last cell, NULL if there is none.
abbrev pub last_ptr : Cells → Ptr
last_ptr [] = null
last_ptr ((p, n) ∷ []) = p
last_ptr (x ∷ y ∷ ys) = last_ptr (y ∷ ys)

-- The cells from `head` on by `next`; `tail` is at the last.
pub record IsFront (h : Heap LNode) (l : LList) (xs : Cells) : Type 0 where
  pub chain : Chain LNode.next h l.head xs
  pub size : l.size ≡ pos (length xs)
  pub last : l.tail ≡ last_ptr xs

-- The cells from `tail` on by `prev`; `head` is at the last.
pub record IsBack (h : Heap LNode) (l : LList) (xs : Cells) : Type 0 where
  pub chain : Chain LNode.prev h l.tail xs
  pub size : l.size ≡ pos (length xs)
  pub last : l.head ≡ last_ptr xs

abbrev pub SameBut : Ptr → Heap LNode → Heap LNode → Type 0
SameBut p h g = (a : Ptr) → a ≢ p → g a ≡ h a

-- The other end of a list of `length xs` cells that gains a cell.
grown_last :
    (fresh old : Ptr) (n : LNode) (size : ℤ) (xs : Cells)
    → size ≡ pos (length xs)
    → old ≡ last_ptr xs
    → (if eq_int (suc_int size) (pos 1) then fresh else old) ≡ last_ptr ((fresh, n) ∷ xs)
grown_last fresh old n size [] e o = rw e refl
grown_last fresh old n size (x ∷ xs) e o = rw (e, o) (ground arith)

-- The other end of a list that loses its first cell.
shrunk_last :
    (old : Ptr) (c : Ptr × LNode) (size : ℤ) (xs : Cells)
    → size ≡ pos (length (c ∷ xs))
    → old ≡ last_ptr (c ∷ xs)
    → (if eq_int (pred_int size) (pos 0) then null else old) ≡ last_ptr xs
shrunk_last old c size [] e o = rw e refl
shrunk_last old c size (x ∷ xs) e o = rw (e, o) (ground arith)

module _ {h : Heap LNode} {l : LList} {xs : Cells} (fresh payload : Ptr) where
  -- Given memory, `llist_addf` returns 0 and puts a node with the payload in front of the list;
  -- it writes nothing else.
  pub llist_addf-push :
      IsFront h l xs
      → payload ≢ null
      → fresh ≢ null
      → h fresh ≡ none
      → (l' : LList) × (g : Heap LNode) × (llist_addf fresh (some l) payload h
          ≡ ok (pos 0, some l') g)
        × IsFront g l' ((fresh, front_node payload l) ∷ xs)
        × SameBut fresh h g
  unfolding write
  llist_addf-push is np nf unused =
      let out = not-has_of_none fresh is.chain unused in
      (
        with_front fresh l,
        write h fresh (some (front_node payload l)),
        llist_addf-ok h l np nf,
        record {
          chain = cons nf (ground arith) out (frame-write fresh _ is.chain out);
          size = ap suc_int is.size;
          last = grown_last fresh l.tail (front_node payload l) l.size xs is.size is.last;
        },
        ground arith,
      )

  -- Given memory, `llist_addl` returns 0 and puts a node with the payload behind the last, where
  -- `prev` leads back through the list; it writes nothing else.
  pub llist_addl-push :
      IsBack h l xs
      → payload ≢ null
      → fresh ≢ null
      → h fresh ≡ none
      → (l' : LList) × (g : Heap LNode) × (llist_addl fresh (some l) payload h
          ≡ ok (pos 0, some l') g)
        × IsBack g l' ((fresh, back_node payload l) ∷ xs)
        × SameBut fresh h g
  unfolding write
  llist_addl-push is np nf unused =
      let out = not-has_of_none fresh is.chain unused in
      (
        with_back fresh l,
        write h fresh (some (back_node payload l)),
        llist_addl-ok h l np nf,
        record {
          chain = cons nf (ground arith) out (frame-write fresh _ is.chain out);
          size = ap suc_int is.size;
          last = grown_last fresh l.head (back_node payload l) l.size xs is.size is.last;
        },
        ground arith,
      )

-- The first cell of a chain: what it holds, and the chain behind it once it is freed.
record Head {N : Type 0} (link : N → Ptr) (h : Heap N) (p : Ptr) (c : Ptr × N) (xs : List (Ptr × N))
    : Type 0 where
  same : c.0 ≡ p
  ne : p ≢ null
  holds : h p ≡ some c.1
  rest : Chain link (write h p none) (link c.1) xs

Chain-Head :
    {N : Type 0} {link : N → Ptr} {h : Heap N} {p : Ptr} {c : Ptr × N} {xs : List (Ptr × N)}
    → Chain link h p (c ∷ xs)
    → Head link h p c xs
Chain-Head (cons {p} ne e out c) = record {
  same = refl;
  ne = ne;
  holds = e;
  rest = frame-write p none c out;
}

module _ {h : Heap LNode} {l : LList} {c : Ptr × LNode} {xs : Cells} where
  -- `llist_remf` returns the payload of the first node, frees that node, and leaves the others.
  pub llist_remf-pop :
      IsFront h l (c ∷ xs)
      → (l' : LList) × (llist_remf (some l) h ≡ ok (c.1.payload, some l') (write h c.0 none))
        × IsFront (write h c.0 none) l' xs
  llist_remf-pop is =
      let f = Chain-Head is.chain in
      (
        less_front c.1.next l,
        rw f.same (llist_remf-ok h l f.ne f.holds),
        record {
          chain = rw f.same f.rest;
          size = ap pred_int is.size;
          last = shrunk_last l.tail c l.size xs is.size is.last;
        },
      )

  -- `llist_reml` returns the payload of the last node, frees that node, and leaves the others.
  pub llist_reml-pop :
      IsBack h l (c ∷ xs)
      → (l' : LList) × (llist_reml (some l) h ≡ ok (c.1.payload, some l') (write h c.0 none))
        × IsBack (write h c.0 none) l' xs
  llist_reml-pop is =
      let f = Chain-Head is.chain in
      (
        less_back c.1.prev l,
        rw f.same (llist_reml-ok h l f.ne f.holds),
        record {
          chain = rw f.same f.rest;
          size = ap pred_int is.size;
          last = shrunk_last l.head c l.size xs is.size is.last;
        },
      )
