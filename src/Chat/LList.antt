-- ===== src/Chat/LList.antt =====
-- llist.c and llist.h: a doubly linked list of void pointers. A `llist_t *` is an option, `none`
-- for NULL; a call returns the new list beside its result. `fresh` is what malloc returns.
pub mod Calls
pub mod Stack
pub mod Queue
pub mod Destroy
pub mod Runs
mod Tests
use linux_system_programming.Prelude.{
  ℕ, zero, suc, ◌||◌, Option, none, some, ◌==◌, if◌then◌else◌, ℤ, pos, negsuc, minus_one, suc_int,
  pred_int, eq_int,
}
use linux_system_programming.Heap.{
  Ptr, null, Cmd, out_of_fuel, pure, ◌>>=◌, ◌>>◌, load, store, free,
}

-- `lnode_t`
pub record LNode : Type 0 where
  pub payload : Ptr  -- `data`
  pub next : Ptr
  pub prev : Ptr

-- `llist_t`
pub record LList : Type 0 where
  pub head : Ptr
  pub tail : Ptr
  pub size : ℤ

-- A `llist_t` that `init` fills.
abbrev pub empty : LList
empty = record { head = null; tail = null; size = pos 0 }

unfoldable pub llist_init : Option LList → ℤ × Option LList
llist_init none = (minus_one, none)
llist_init (some l) = (pos 0, some empty)

-- The `while` of `llist_destroy`.
unfoldable pub destroy_loop : ℕ → Ptr → Cmd LNode (Unit {0})
destroy_loop zero node = λ _. out_of_fuel
destroy_loop (suc fuel) node =
    let rest = λ (n : LNode). destroy_loop fuel n.next in
    if node == null then pure tt else (load node >>= λ n. free node >> rest n)

unfoldable pub llist_destroy : ℕ → Option LList → Cmd LNode (ℤ × Option LList)
unfolding destroy_loop
llist_destroy fuel none = pure (minus_one, none)
llist_destroy fuel (some l) = destroy_loop fuel l.head >> pure (pos 0, some l)

unfoldable pub llist_addf : Ptr → Option LList → Ptr → Cmd LNode (ℤ × Option LList)
llist_addf fresh none payload = pure (minus_one, none)
llist_addf fresh (some l) payload =
    if payload == null || fresh == null then pure (minus_one, some l) else do
      store fresh (record { payload = payload; next = l.head; prev = null })
      let size = suc_int l.size
      pure (
        pos 0,
        some (record {
          head = fresh;
          tail = if eq_int size (pos 1) then fresh else l.tail;
          size = size;
        }),
      )

unfoldable pub llist_addl : Ptr → Option LList → Ptr → Cmd LNode (ℤ × Option LList)
llist_addl fresh none payload = pure (minus_one, none)
llist_addl fresh (some l) payload =
    if payload == null || fresh == null then pure (minus_one, some l) else do
      store fresh (record { payload = payload; next = null; prev = l.tail })
      let size = suc_int l.size
      pure (
        pos 0,
        some (record {
          head = if eq_int size (pos 1) then fresh else l.head;
          tail = fresh;
          size = size;
        }),
      )

-- The result NULL is `null`.
unfoldable pub llist_remf : Option LList → Cmd LNode (Ptr × Option LList)
llist_remf none = pure (null, none)
llist_remf (some l) = if l.head == null then pure (null, some l) else do
  n ← load l.head
  free l.head
  let size = pred_int l.size
  pure (
    n.payload,
    some (record {
      head = n.next;
      tail = if eq_int size (pos 0) then null else l.tail;
      size = size;
    }),
  )

unfoldable pub llist_reml : Option LList → Cmd LNode (Ptr × Option LList)
llist_reml none = pure (null, none)
llist_reml (some l) = if l.tail == null then pure (null, some l) else do
  n ← load l.tail
  free l.tail
  let size = pred_int l.size
  pure (
    n.payload,
    some (record {
      head = if eq_int size (pos 0) then null else l.head;
      tail = n.prev;
      size = size;
    }),
  )
