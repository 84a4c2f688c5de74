-- ===== src/Chat/LList/Queue.antt =====
-- The list as the chat client uses it: `llist_addl` at one end, `llist_remf` at the other. No call
-- links the node that was last to the new one, so two messages in the list are one too many.
use linux_system_programming.Prelude.{
  ℕ, suc, ◌≡◌, refl, ◌≢◌, false, ◌||◌, Option, none, some, List, [], ◌∷◌, arith, ◌==◌, Bool-cases,
  inl, inr, ℤ, pos, minus_one, replicate,
}
use linux_system_programming.Heap.{Ptr, null, Heap, Cmd, write, ok, pure, ◌>>=◌, store}
use linux_system_programming.Chat.LList.Calls.{with_back, llist_addl-ok, llist_remf-ok}
use linux_system_programming.Chat.LList.{LNode, LList, empty, llist_addl, llist_remf}

-- What the two threads of the client do with the list.
pub data Use : Type 0 where
  post : (fresh payload : Ptr) → Use
  take_one : Use

-- The calls in order, with what each `llist_remf` returns.
unfoldable pub run : List Use → Option LList → Cmd LNode (List Ptr × Option LList)
run [] l = pure ([], l)
run (post fresh payload ∷ us) l = do (r, l') ← llist_addl fresh l payload; run us l'
run (take_one ∷ us) l = do (p, l') ← llist_remf l; (ps, l'') ← run us l'; pure (p ∷ ps, l'')

abbrev pub takes : List Use → ℕ
takes [] = 0
takes (post fresh payload ∷ us) = takes us
takes (take_one ∷ us) = suc (takes us)

-- A head of NULL with messages left.
abbrev pub stuck : Ptr → ℕ → LList
stuck t n = record { head = null; tail = t; size = pos (suc n) }

not_one : (n : ℕ) → (suc (suc n) == 1) ≡ false
not_one n = ground arith

llist_addl-stuck :
    (h : Heap LNode) (t : Ptr) (n : ℕ) (fresh payload : Ptr)
    → (r : ℤ) × (t' : Ptr) × (n' : ℕ) × (g : Heap LNode) × (llist_addl fresh
          (some (stuck t n))
          payload
          h
        ≡ ok (r, some (stuck t' n')) g)
unfolding llist_addl store
llist_addl-stuck h t n fresh payload = elim (Bool-cases (payload == null || fresh == null)) [
  | inl bad ↦ (minus_one, t, n, h, rw bad refl)
  | inr good ↦ (
    pos 0,
    fresh,
    suc n,
    write h fresh (some (record { payload = payload; next = null; prev = t })),
    rw (good, not_one n) refl,
  )
]

-- Once stuck, the list stays so: whatever is added, every `llist_remf` returns NULL.
run-stuck :
    (us : List Use) (h : Heap LNode) (t : Ptr) (n : ℕ)
    → (t' : Ptr) × (n' : ℕ) × (g : Heap LNode) × (run us (some (stuck t n)) h
        ≡ ok (replicate (takes us) null, some (stuck t' n')) g)
unfolding run llist_remf
run-stuck [] h t n = (t, n, h, refl)
run-stuck (post fresh payload ∷ us) h t n =
    let (r, t', n', g, e) = llist_addl-stuck h t n fresh payload in
    let (t'', n'', g', e') = run-stuck us g t' n' in (t'', n'', g', rw (e, e') refl)
run-stuck (take_one ∷ us) h t n = let (t', n', g, e) = run-stuck us h t n in (t', n', g, rw e refl)

two_writes :
    (h : Heap LNode) (p q : Ptr) (m n : LNode)
    → p ≢ q
    → write (write h p (some m)) q (some n) p ≡ some m
unfolding write
two_writes h p q m n ne = ground arith

-- Two messages with payloads, put into an empty list by `llist_addl` before either is taken: the
-- first `llist_remf` returns the first payload, and from then on, whatever calls of the two
-- functions follow, every `llist_remf` returns NULL. The second message is never handed over.
pub two_posts_stuck :
    (h : Heap LNode) (fresh₁ fresh₂ payload₁ payload₂ : Ptr) (us : List Use)
    → payload₁ ≢ null
    → payload₂ ≢ null
    → fresh₁ ≢ null
    → fresh₂ ≢ null
    → fresh₁ ≢ fresh₂
    → (l : LList) × (g : Heap LNode) × (run
          (post fresh₁ payload₁ ∷ post fresh₂ payload₂ ∷ take_one ∷ us)
          (some empty)
          h
        ≡ ok (payload₁ ∷ replicate (takes us) null, some l) g)
unfolding run
two_posts_stuck h f f' p p' us np np' nf nf' ne =
    let first : LNode = record { payload = p; next = null; prev = null } in
    let second : LNode = record { payload = p'; next = null; prev = f } in
    let g = write (write h f (some first)) f' (some second) in
    let here : g f ≡ some first = two_writes h f f' first second ne in
    let (t, n, g', e) = run-stuck us (write g f none) f' 0 in
    (
      stuck t n,
      g',
      rw
          (
            llist_addl-ok h empty np nf,
            llist_addl-ok (write h f (some first)) (with_back f empty) np' nf',
            llist_remf-ok g (with_back f' (with_back f empty)) nf here,
            e,
          )
          refl,
    )
