-- ===== src/SharedList/Push.antt =====
-- Every statement of either thread keeps the invariant.
use linux_system_programming.Prelude.{
  ℕ, suc, ◌<◌, ◌≡◌, ◌≢◌, refl, sym, ap, subst, ◌∙◌, none, some, ◌∷◌, arith,
}
use linux_system_programming.Heap.{Ptr, null, Heap, write, ok}
use linux_system_programming.Heap.Chain.{Chain, cons, frame-write, not-has_of_none}
use linux_system_programming.SharedList.{
  Node, Shared, Pos, top, waiting, linking, heading, tailing, counting, posting, ended, rounds,
  set_next, set_tail,
}
use linux_system_programming.SharedList.Free.{Cells}
use linux_system_programming.SharedList.Invariant.{inside, last_ptr, Inv}
use linux_system_programming.SharedList.Keep.{
  keep_same, keep_outside, owns-unused, set_next-ok, ok_heap, last_ptr-cons, last_ptr_single,
  tail_if, uncounted-le,
}

module _ (s : Shared) (xs : Cells) (q : Pos) where
  pub allocates-Inv :
      (i : ℕ) (tmp junk : Ptr)
      → i < rounds
      → tmp ≢ null
      → s.heap tmp ≡ none
      → Inv s xs (top i) q
      → Inv
          (record s { heap = write s.heap tmp (some (record { element = i; next = junk })) })
          xs
          (waiting i tmp)
          q
  unfolding write
  allocates-Inv i tmp junk lt place unused v =
      let out = not-has_of_none tmp v.chain unused in
      let h = write s.heap tmp (some (record { element = i; next = junk })) in
      record {
        chain = frame-write tmp (some (record { element = i; next = junk })) v.chain out;
        one_inside = v.one_inside;
        size = v.size;
        tail = v.tail;
        at_p = (lt, junk, record { some_place = place; there = ground arith; apart = out });
        at_q =
            keep_same s (record s { heap = h }) xs q refl refl
              (λ a n e o. ground (arith, e, unused)) v.at_q;
        not_both = λ a o. ground (arith, o, owns-unused s xs q tmp v.at_q unused);
        no_leak = λ a e o1 o2. ground (arith, o1, v.no_leak a e refl o2);
        all = v.all;
        each = v.each;
      }

  pub malloc_fails-Inv :
      (i : ℕ)
      → i < rounds
      → Inv s xs (top i) q
      → Inv (record s { failed = i ∷ s.failed }) xs (top (suc i)) q
  malloc_fails-Inv i lt v = record {
    chain = v.chain;
    one_inside = v.one_inside;
    size = v.size;
    tail = v.tail;
    at_p = omega (arith, lt);
    at_q = keep_same s (record s { failed = i ∷ s.failed }) xs q refl refl (λ a n e o. e) v.at_q;
    not_both = λ a o. cc;
    no_leak = λ a e o1 o2. v.no_leak a e refl o2;
    all = omega (arith, v.all);
    each = λ k. ground (arith, v.each k);
  }

  pub exits-Inv : (i : ℕ) → ¬ (i < rounds) → Inv s xs (top i) q → Inv s xs ended q
  exits-Inv i ge v =
      let e : i ≡ rounds = omega (arith, ge, v.at_p) in
      record {
        chain = v.chain;
        one_inside = v.one_inside;
        size = v.size;
        tail = v.tail;
        at_p = tt;
        at_q = v.at_q;
        not_both = λ a o. cc;
        no_leak = λ a h o1 o2. v.no_leak a h refl o2;
        all = omega (arith, v.all, e);
        each = λ k. ground (arith, e, v.each k);
      }

  pub sem_wait-Inv :
      (i : ℕ) (tmp : Ptr) (k : ℕ)
      → s.sem ≡ suc k
      → Inv s xs (waiting i tmp) q
      → Inv (record s { sem = k }) xs (linking i tmp) q
  sem_wait-Inv i tmp k e v = record {
    chain = v.chain;
    one_inside = omega (arith, e, v.one_inside);
    size = v.size;
    tail = v.tail;
    at_p = v.at_p;
    at_q = keep_same s (record s { sem = k }) xs q refl refl (λ a n h o. h) v.at_q;
    not_both = v.not_both;
    no_leak = v.no_leak;
    all = v.all;
    each = v.each;
  }

  pub links-Inv :
      (i : ℕ) (tmp : Ptr) (h : Heap Node)
      → set_next tmp s.head s.heap ≡ ok tt h
      → Inv s xs (linking i tmp) q
      → Inv (record s { heap = h }) xs (heading i tmp) q
  unfolding write
  links-Inv i tmp h e v =
      let m = v.at_p.2 in
      let n : Node = record { element = i; next = s.head } in
      let eh : h ≡ write s.heap tmp (some n) =
        ok_heap (sym e ∙ set_next-ok s.heap xs i tmp v.at_p.1 s.head m) in
      let same : (a : Ptr) → a ≢ tmp → h a ≡ s.heap a =
        λ a ne. ap (λ (g : Heap Node). g a) eh ∙ ground arith in
      record {
        chain =
            subst (λ g. Chain Node.next g s.head xs) (sym eh)
              (frame-write tmp (some n) v.chain m.apart);
        one_inside = v.one_inside;
        size = v.size;
        tail = v.tail;
        at_p = (
          v.at_p.0,
          record {
            some_place = m.some_place;
            there = ap (λ (g : Heap Node). g tmp) eh ∙ ground arith;
            apart = m.apart;
          },
        );
        at_q =
            keep_outside s (record s { heap = h }) xs xs q (omega (arith, v.one_inside))
              (λ a n e o. same a (λ ea. ground (arith, ea, o, v.not_both a)) ∙ e) (λ a e o. e)
              v.at_q;
        not_both = v.not_both;
        no_leak = λ a e o1 o2. same a (λ ea. ground (arith, ea, o1)) ∙ v.no_leak a e o1 o2;
        all = v.all;
        each = v.each;
      }

  pub heads-Inv :
      (i : ℕ) (tmp : Ptr)
      → Inv s xs (heading i tmp) q
      → Inv
          (record s { head = tmp })
          ((tmp, record { element = i; next = s.head }) ∷ xs)
          (tailing i tmp)
          q
  heads-Inv i tmp v =
      let m = v.at_p.1 in
      let n : Node = record { element = i; next = s.head } in
      record {
        chain = cons m.some_place m.there m.apart v.chain;
        one_inside = v.one_inside;
        size = omega (arith, v.size);
        tail = λ pos. v.tail pos ∙ sym (last_ptr-cons (tmp, n) xs (omega (arith, pos, v.size)));
        at_p = (v.at_p.0, refl);
        at_q =
            keep_outside s (record s { head = tmp }) xs ((tmp, n) ∷ xs) q
              (omega (arith, v.one_inside)) (λ a n e o. e)
              (λ a e o. ground (arith, e, o, v.not_both a)) v.at_q;
        not_both = λ a o. cc;
        no_leak = λ a e o1 o2. v.no_leak a (ground (arith, e)) (ground (arith, e)) o2;
        all = omega (arith, v.all);
        each = λ k. ground (arith, v.each k);
      }

  pub tails-Inv :
      (i : ℕ) (tmp : Ptr) → Inv s xs (tailing i tmp) q → Inv (set_tail tmp s) xs (counting i) q
  tails-Inv i tmp v =
      let out : inside q ≡ 0 = omega (arith, v.one_inside) in
      let alone : s.size ≡ 0 → last_ptr xs ≡ tmp =
        λ e. last_ptr_single v.chain (omega (arith, e, v.size, uncounted-le q, out)) ∙ v.at_p.1 in
      record {
        chain = v.chain;
        one_inside = v.one_inside;
        size = v.size;
        tail = λ pos. ground (arith, pos, v.tail pos);
        at_p = (v.at_p.0, tail_if s.size tmp s.tail (last_ptr xs) alone v.tail);
        at_q = keep_outside s (set_tail tmp s) xs xs q out (λ a n e o. e) (λ a e o. e) v.at_q;
        not_both = v.not_both;
        no_leak = v.no_leak;
        all = v.all;
        each = v.each;
      }

  pub counts-Inv :
      (i : ℕ) → Inv s xs (counting i) q → Inv (record s { size = suc s.size }) xs (posting i) q
  counts-Inv i v = record {
    chain = v.chain;
    one_inside = v.one_inside;
    size = omega (arith, v.size);
    tail = λ pos. v.at_p.1;
    at_p = v.at_p.0;
    at_q = keep_same s (record s { size = suc s.size }) xs q refl refl (λ a n e o. e) v.at_q;
    not_both = v.not_both;
    no_leak = v.no_leak;
    all = v.all;
    each = v.each;
  }

  pub sem_post-Inv :
      (i : ℕ) → Inv s xs (posting i) q → Inv (record s { sem = suc s.sem }) xs (top (suc i)) q
  sem_post-Inv i v = record {
    chain = v.chain;
    one_inside = omega (arith, v.one_inside);
    size = v.size;
    tail = v.tail;
    at_p = omega (arith, v.at_p);
    at_q = keep_same s (record s { sem = suc s.sem }) xs q refl refl (λ a n e o. e) v.at_q;
    not_both = v.not_both;
    no_leak = v.no_leak;
    all = v.all;
    each = v.each;
  }
