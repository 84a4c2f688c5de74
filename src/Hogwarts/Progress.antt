-- ===== src/Hogwarts/Progress.antt =====
-- Dobby and the elves are never all blocked.
use linux_system_programming.Prelude.{
  ℕ, zero, suc, ◌<◌, ◌≡◌, refl, ap, ◌∙◌, ◌≢◌, ◌⊎◌, inl, inr, false, some, List, [], ◌∷◌, arith,
  ◌==◌, ==_iff, ltb, Bool-cases, get_elem?, get_elem?_total,
}
use linux_system_programming.Hogwarts.{
  num_elves, Elf, idle, got, inside, took, counted, leaving, working, cancelled, Dobby, waits,
  checks, posts, releases, cancels, returned, State, Step, d_wait, d_batch, d_post, d_posted,
  d_release, d_again, d_finish, d_cancel_idle, d_cancel_working, d_return, e_wait, e_lock, e_take,
  e_take_empty, e_count, e_wake, e_pass, e_unlock, e_work, Reach,
}
use linux_system_programming.Hogwarts.Weights.{total, wants, holds, uncounted, tests, total_place}
use linux_system_programming.Hogwarts.Cancel.{is_cancelled, gone, Elves, Reach-Elves}
use linux_system_programming.Hogwarts.Invariant.{Inv, Batch, Phase, Reach-Inv}

abbrev pub Live : State → Type 0
Live s = (t : State) × Step s t

module _ {s : State} where
  list_moves : (i : ℕ) → get_elem? s.elves i ≡ some inside → (l : List ℕ) → s.list ≡ l → Live s
  list_moves i h [] e = (_, e_take_empty i h e)
  list_moves i h (id ∷ rest) e = (_, e_take i id rest h e)

  -- An elf with the mutex goes on.
  holder_moves : (i : ℕ) (e : Elf) → get_elem? s.elves i ≡ some e → 0 < holds e → Live s
  holder_moves i inside h p = list_moves i h s.list refl
  holder_moves i (took id) h p = (_, e_count i id h)
  holder_moves i (counted id) h p = elim (Bool-cases (s.active_tasks == 0)) [
    | inl q ↦ (_, e_wake i id h ((==_iff _ _).0 q))
    | inr q ↦ (_, e_pass i id h (λ z. grind (arith, q, z)))
  ]
  holder_moves i (leaving id) h p = (_, e_unlock i id h)
  holder_moves i idle h p = absurd (omega arith)
  holder_moves i got h p = absurd (omega arith)
  holder_moves i (working id) h p = absurd (omega arith)
  holder_moves i cancelled h p = absurd (omega arith)

  -- An elf at the mutex goes on, or the elf that has the mutex does.
  lock_moves : (i : ℕ) → Inv s → get_elem? s.elves i ≡ some got → Live s
  lock_moves i v h = elim (Bool-cases s.mutex) [
    | inl m ↦
        let (j, e, at, p) = total_place holds s.elves (ground (arith, v.locked)) in
        holder_moves j e at p
    | inr m ↦ (_, e_lock i h m)
  ]

  -- So does every elf that is neither at its semaphore nor cancelled.
  elf_moves :
      (i : ℕ) (e : Elf)
      → Inv s
      → get_elem? s.elves i ≡ some e
      → e ≢ idle
      → is_cancelled e ≡ false
      → Live s
  elf_moves i idle v h ne al = absurd (ne refl)
  elf_moves i got v h ne al = lock_moves i v h
  elf_moves i inside v h ne al = holder_moves i inside h (omega arith)
  elf_moves i (took id) v h ne al = holder_moves i (took id) h (omega arith)
  elf_moves i (counted id) v h ne al = holder_moves i (counted id) h (omega arith)
  elf_moves i (leaving id) v h ne al = holder_moves i (leaving id) h (omega arith)
  elf_moves i (working id) v h ne al = (_, e_work i id h)
  elf_moves i cancelled v h ne al = cc

  token_moves :
      (e : Elf)
      → Inv s
      → get_elem? s.elves 0 ≡ some e
      → is_cancelled e ≡ false
      → 0 < s.full_list
      → Live s
  token_moves idle v h al tok = (_, e_wait 0 h tok)
  token_moves got v h al tok = elf_moves 0 got v h (λ q. cc) al
  token_moves inside v h al tok = elf_moves 0 inside v h (λ q. cc) al
  token_moves (took id) v h al tok = elf_moves 0 (took id) v h (λ q. cc) al
  token_moves (counted id) v h al tok = elf_moves 0 (counted id) v h (λ q. cc) al
  token_moves (leaving id) v h al tok = elf_moves 0 (leaving id) v h (λ q. cc) al
  token_moves (working id) v h al tok = elf_moves 0 (working id) v h (λ q. cc) al
  token_moves cancelled v h al tok = cc

  wanting_moves : (i : ℕ) (e : Elf) → Inv s → get_elem? s.elves i ≡ some e → 0 < wants e → Live s
  wanting_moves i got v h p = lock_moves i v h
  wanting_moves i inside v h p = list_moves i h s.list refl
  wanting_moves i idle v h p = absurd (omega arith)
  wanting_moves i (took id) v h p = absurd (omega arith)
  wanting_moves i (counted id) v h p = absurd (omega arith)
  wanting_moves i (leaving id) v h p = absurd (omega arith)
  wanting_moves i (working id) v h p = absurd (omega arith)
  wanting_moves i cancelled v h p = absurd (omega arith)

  -- With a batch out, somebody goes on.
  Batch-moves : Inv s → Batch s 0 → Elves s.elves 0 → s.dobby ≡ waits → Live s
  Batch-moves v b al d = elim (Bool-cases (s.empty_list == 0)) [
    | inl none_sent ↦ elim (Bool-cases (s.active_tasks == 0)) [
      | inl counted_off ↦
          let (i, e, at, p) = total_place tests s.elves (ground (arith, b.pending)) in
          holder_moves i e at (tests-holds e p)
      | inr open_tasks ↦ elim (Bool-cases (total uncounted s.elves == 0)) [
        | inr some_took ↦
            let (i, e, at, p) = total_place uncounted s.elves (ground arith) in
            holder_moves i e at (uncounted-holds e p)
        | inl none_took ↦ elim (Bool-cases (total wants s.elves == 0)) [
          | inr some_want ↦
              let (i, e, at, p) = total_place wants s.elves (ground arith) in
              wanting_moves i e v at p
          | inl none_want ↦
              let (e, at) = get_elem?_total s.elves 0 (omega (arith, al.size)) in
              token_moves e v at (al.cut 0 e at) (ground (arith, b.listed, b.active))
        ]
      ]
    ]
    | inr sent ↦ (_, d_wait d (ground arith))
  ]
    where
      tests-holds : (e : Elf) → 0 < tests e → 0 < holds e
      tests-holds (counted id) p = omega arith
      tests-holds idle p = absurd (omega arith)
      tests-holds got p = absurd (omega arith)
      tests-holds inside p = absurd (omega arith)
      tests-holds (took id) p = absurd (omega arith)
      tests-holds (leaving id) p = absurd (omega arith)
      tests-holds (working id) p = absurd (omega arith)
      tests-holds cancelled p = absurd (omega arith)

      uncounted-holds : (e : Elf) → 0 < uncounted e → 0 < holds e
      uncounted-holds (took id) p = omega arith
      uncounted-holds idle p = absurd (omega arith)
      uncounted-holds got p = absurd (omega arith)
      uncounted-holds inside p = absurd (omega arith)
      uncounted-holds (counted id) p = absurd (omega arith)
      uncounted-holds (leaving id) p = absurd (omega arith)
      uncounted-holds (working id) p = absurd (omega arith)
      uncounted-holds cancelled p = absurd (omega arith)

  -- The elf that Dobby is to cancel reaches a cancellation point, or is at one.
  cancel_moves :
      (i : ℕ) (e : Elf)
      → Inv s
      → s.dobby ≡ cancels i
      → get_elem? s.elves i ≡ some e
      → is_cancelled e ≡ false
      → Live s
  cancel_moves i idle v d h al = (_, d_cancel_idle i d h)
  cancel_moves i got v d h al = lock_moves i v h
  cancel_moves i inside v d h al = holder_moves i inside h (omega arith)
  cancel_moves i (took id) v d h al = holder_moves i (took id) h (omega arith)
  cancel_moves i (counted id) v d h al = holder_moves i (counted id) h (omega arith)
  cancel_moves i (leaving id) v d h al = holder_moves i (leaving id) h (omega arith)
  cancel_moves i (working id) v d h al = (_, d_cancel_working i id d h)
  cancel_moves i cancelled v d h al = cc

  dobby_moves :
      (d : Dobby)
      → s.dobby ≡ d
      → Inv s
      → Elves s.elves (gone d)
      → Phase s d
      → ((s.dobby ≡ returned) ⊎ Live s)
  dobby_moves waits e v al p = inr (Batch-moves v p al e)
  dobby_moves checks e v al p = elim (Bool-cases (s.total_tasks == 0)) [
    | inl q ↦ inr (_, d_finish e ((==_iff _ _).0 q))
    | inr q ↦ inr (_, d_batch e (λ z. grind (arith, q, z)))
  ]
  dobby_moves (posts zero n) e v al p = inr (_, d_posted n e)
  dobby_moves (posts (suc k) n) e v al p = inr (_, d_post k n e)
  dobby_moves (releases zero) e v al p = inr (_, d_again e)
  dobby_moves (releases (suc k)) e v al p = inr (_, d_release k e)
  dobby_moves (cancels i) e v al p = elim (Bool-cases (ltb i num_elves)) [
    | inl lt ↦
        let (f, at) = get_elem?_total s.elves i (ground (arith, al.size)) in
        let alive : is_cancelled f ≡ false = al.cut i f at ∙ not_below i in
        inr (cancel_moves i f v e at alive)
    | inr ge ↦
        let last : i ≡ num_elves = ground (arith, al.bound) in
        inr (_, d_return (e ∙ ap cancels last))
  ]
    where
      not_below : (i : ℕ) → ltb i i ≡ false
      not_below i = ground arith
  dobby_moves returned e v al p = inl e

-- From every reachable state Dobby or an elf can make a step, until Dobby has returned: the
-- program has no deadlock.
pub hogwarts_no_deadlock : {tasks : ℕ} {s : State} → Reach tasks s → ((s.dobby ≡ returned) ⊎ Live s)
hogwarts_no_deadlock {s} r =
    let v = Reach-Inv r in dobby_moves s.dobby refl v (Reach-Elves r) v.phase
