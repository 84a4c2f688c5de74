-- ===== src/Chat/LList/Tests.antt =====
-- llist.c at concrete lists.
use linux_system_programming.Prelude.{[], ◌∷◌, pos, List, ◌≡◌, refl, Option, none, some}
use linux_system_programming.Heap.{
  Ptr, Heap, Run, Cmd, write, ok, fault, out_of_fuel, pure, ◌>>=◌, load, store, free,
}
use linux_system_programming.Chat.LList.Runs.{Op, addf, remf, no_nodes}
use linux_system_programming.Chat.LList.{
  LNode, LList, empty, llist_init, llist_addf, llist_addl, llist_remf, llist_reml,
}

-- The calls of llist_test.c, with malloc returning 1, 2 and 3: last in, first out.
unfoldable three_out : Cmd LNode (Ptr × Ptr × Ptr × Option LList)
unfolding llist_addf llist_remf store load free write llist_init
three_out = do
  (_, l) ← llist_addf 1 (llist_init (some empty)).1 100
  (_, l) ← llist_addf 2 l 101
  (_, l) ← llist_addf 3 l 102
  (a, l) ← llist_remf l
  (b, l) ← llist_remf l
  (c, l) ← llist_remf l
  pure (a, b, c, l)

abbrev Out : Type 0
Out = Ptr × Ptr × Ptr × Option LList

returned : {A : Type 0} → Run LNode A → Option A
returned (ok a g) = some a
returned fault = none
returned out_of_fuel = none

three_out_result : returned (three_out no_nodes) ≡ some (102, 101, 100, some empty)
unfolding three_out returned
three_out_result = refl

-- `addl` twice, `remf`, `reml`: `tail` is left at the node that `remf` freed, and the next
-- `llist_reml` reads it.
mixed_ends :
    (do
      (_, l) ← llist_addl 1 (some empty) 100
      (_, l) ← llist_addl 2 l 101
      (_, l) ← llist_remf l
      (_, l) ← llist_reml l
      llist_reml l)
      no_nodes
    ≡ fault
unfolding llist_addl llist_remf llist_reml store load free write
mixed_ends = refl

-- What stands in the `llist_t` before it is filled.
abbrev unset : LList
unset = record { head = 7; tail = 8; size = pos 9 }

-- Two nodes in, three attempts to take one, and the address of the second node once more.
abbrev calls : List Op
calls = addf 1 100 ∷ addf 2 101 ∷ remf ∷ remf ∷ remf ∷ addf 2 102 ∷ []
