-- ===== src/Chat/LList/Calls.antt =====
-- What each function of llist.c does where it does not fail.
use linux_system_programming.Prelude.{
  ◌≡◌, refl, ◌≢◌, some, if◌then◌else◌, pos, suc_int, pred_int, eq_int, none,
}
use linux_system_programming.Heap.{Ptr, null, Heap, write, ok, store}
use linux_system_programming.Heap.Chain.{not_null, load-ok, free-ok}
use linux_system_programming.Chat.LList.{
  LNode, LList, llist_addf, llist_addl, llist_remf, llist_reml,
}

-- The lists that the functions leave.
abbrev pub with_front : Ptr → LList → LList
with_front fresh l = record {
  head = fresh;
  tail = if eq_int (suc_int l.size) (pos 1) then fresh else l.tail;
  size = suc_int l.size;
}

abbrev pub with_back : Ptr → LList → LList
with_back fresh l = record {
  head = if eq_int (suc_int l.size) (pos 1) then fresh else l.head;
  tail = fresh;
  size = suc_int l.size;
}

abbrev pub less_front : Ptr → LList → LList
less_front next l = record {
  head = next;
  tail = if eq_int (pred_int l.size) (pos 0) then null else l.tail;
  size = pred_int l.size;
}

abbrev pub less_back : Ptr → LList → LList
less_back prev l = record {
  head = if eq_int (pred_int l.size) (pos 0) then null else l.head;
  tail = prev;
  size = pred_int l.size;
}

abbrev pub front_node : Ptr → LList → LNode
front_node payload l = record { payload = payload; next = l.head; prev = null }

abbrev pub back_node : Ptr → LList → LNode
back_node payload l = record { payload = payload; next = null; prev = l.tail }

module _ (h : Heap LNode) (l : LList) {fresh payload : Ptr} (np : payload ≢ null)
    (nf : fresh ≢ null) where
  pub llist_addf-ok :
      llist_addf fresh (some l) payload h
      ≡ ok (pos 0, some (with_front fresh l)) (write h fresh (some (front_node payload l)))
  unfolding llist_addf store
  llist_addf-ok = rw (not_null np, not_null nf) refl

  pub llist_addl-ok :
      llist_addl fresh (some l) payload h
      ≡ ok (pos 0, some (with_back fresh l)) (write h fresh (some (back_node payload l)))
  unfolding llist_addl store
  llist_addl-ok = rw (not_null np, not_null nf) refl

module _ (h : Heap LNode) (l : LList) {n : LNode} where
  pub llist_remf-ok :
      l.head ≢ null
      → h l.head ≡ some n
      → llist_remf (some l) h ≡ ok (n.payload, some (less_front n.next l)) (write h l.head none)
  unfolding llist_remf
  llist_remf-ok ne e = rw (not_null ne, load-ok h ne e, free-ok h ne e) refl

  pub llist_reml-ok :
      l.tail ≢ null
      → h l.tail ≡ some n
      → llist_reml (some l) h ≡ ok (n.payload, some (less_back n.prev l)) (write h l.tail none)
  unfolding llist_reml
  llist_reml-ok ne e = rw (not_null ne, load-ok h ne e, free-ok h ne e) refl
