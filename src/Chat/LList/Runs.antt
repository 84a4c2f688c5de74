-- ===== src/Chat/LList/Runs.antt =====
-- A list that is only used at its front, from `llist_init` to `llist_destroy`.
use linux_system_programming.Prelude.{
  ◌≡◌, ◌≢◌, Bool, false, ◌||◌, Option, none, some, List, [], ◌∷◌, ◌==◌,
}
use linux_system_programming.Heap.{Ptr, null, Heap, Cmd, pure, ok, ◌>>=◌}
use linux_system_programming.Heap.Chain.{has}
use linux_system_programming.Chat.LList.{LNode, LList, llist_init, llist_addf, llist_remf}
use linux_system_programming.Chat.LList.Stack.{Cells, IsFront}

-- A call with a list that is not NULL; `fresh` is what malloc returns.
pub data Op : Type 0 where
  addf : (fresh payload : Ptr) → Op
  remf : Op

-- The payloads that the calls of llist_remf return, and the list.
unfoldable pub run : List Op → LList → Cmd LNode (List Ptr × Option LList)
unfolding llist_addf llist_remf
run [] l = pure ([], some l)
run (addf fresh payload ∷ ops) l = llist_addf fresh (some l) payload >>= λ r. elim r.1 [
  | none ↦ pure ([], none)
  | some l' ↦ run ops l'
]
run (remf ∷ ops) l = llist_remf (some l) >>= λ r. elim r.1 [
  | none ↦ pure ([], none)
  | some l' ↦ run ops l' >>= λ t. pure (r.0 ∷ t.0, t.1)
]

-- A stack of payloads, with the address of the node of each.
abbrev pub Stack : Type 0
Stack = List (Ptr × Ptr)

abbrev pub in_use : Ptr → Stack → Bool
in_use a [] = false
in_use a ((p, d) ∷ st) = (a == p) || in_use a st

-- What the same calls give on the stack: a pop of the empty one gives NULL.
abbrev pub pops : List Op → Stack → List Ptr
pops [] st = []
pops (addf fresh payload ∷ ops) st = pops ops ((fresh, payload) ∷ st)
pops (remf ∷ ops) [] = null ∷ pops ops []
pops (remf ∷ ops) ((p, d) ∷ st) = d ∷ pops ops st

-- malloc does not fail and returns no node of the list; addresses of freed nodes may come again.
abbrev pub Allocates : List Op → Stack → Type 0
Allocates [] st = Unit
Allocates (addf fresh payload ∷ ops) st =
    (fresh ≢ null)
    × (payload ≢ null)
    × (in_use fresh st ≡ false)
    × Allocates ops ((fresh, payload) ∷ st)
Allocates (remf ∷ ops) [] = Allocates ops []
Allocates (remf ∷ ops) (c ∷ st) = Allocates ops st

-- The nodes as a stack.
abbrev pub stack_of : Cells → Stack
stack_of [] = []
stack_of ((p, n) ∷ xs) = (p, n.payload) ∷ stack_of xs

-- The cells from `head` on by `next` are `xs`, and nothing else is allocated.
pub record Only (h : Heap LNode) (l : LList) (xs : Cells) : Type 0 where
  pub front : IsFront h l xs
  pub rest : (a : Ptr) → has a xs ≡ false → h a ≡ none

-- A run that ends with these results, and a list of which nothing has leaked.
abbrev pub Runs : List Op → LList → Heap LNode → List Ptr → Type 0
Runs ops l h out =
    (l' : LList) × (g : Heap LNode) × (xs : Cells) × (run ops l h ≡ ok (out, some l') g)
    × Only g l' xs

-- The calls on a list that llist_init has filled.
unfoldable pub from_init : List Op → LList → Cmd LNode (List Ptr × Option LList)
unfolding llist_init run
from_init ops old =
    let r : Option LList = (llist_init (some old)).1 in
    elim r [ none ↦ pure ([], none) | some l ↦ run ops l ]

abbrev pub no_nodes : Heap LNode
no_nodes a = none
