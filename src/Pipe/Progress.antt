-- ===== src/Pipe/Progress.antt =====
-- The two processes do not block each other, and they end.
use linux_system_programming.Prelude.{
  ℕ, ◌+◌, ◌-◌, ◌*◌, ◌≤◌, ◌<◌, ◌≡◌, ◌≢◌, refl, sym, ap, ◌∙◌, ◌⊎◌, inl, inr, Bool-cases, List, [],
  ◌∷◌, arith, ltb, length, take, drop, length-append, length-take,
}
use linux_system_programming.Sockets.Text.{NoNul}
use linux_system_programming.Pipe.{
  Child, starting, reading, shown, gave_up, overrun, Parent, writing, returned, State, more_room,
  after_read, show_buffer, Move, writes, write_interrupted, write_fails, closes, close_fails,
  starts, start_fails, reads, read_ends, read_fails, Reach,
}
use linux_system_programming.Pipe.Invariant.{ChildInv, Reach-Inv}

abbrev child_weight : Child → ℕ
child_weight starting = 2
child_weight (reading cap n buf) = 1
child_weight (shown n text) = 0
child_weight gave_up = 0
child_weight overrun = 0

abbrev parent_weight : Parent → ℕ
parent_weight writing = 1
parent_weight (returned code) = 0

-- What is left to do.
abbrev pub weight : List ℕ → State → ℕ
weight text s =
    3 * (length text - s.sent) + 2 * length s.stream + parent_weight s.parent + child_weight s.child

after_read_light :
    (junk cap n : ℕ) (buf bytes : List ℕ) → child_weight (after_read junk cap n buf bytes) ≤ 1
unfolding after_read more_room
after_read_light junk cap n buf bytes = ground arith

show_buffer_light : (n : ℕ) (buf : List ℕ) → child_weight (show_buffer n buf) ≡ 0
unfolding show_buffer
show_buffer_light n buf = ground arith

-- Only a `write` that a signal interrupts leaves as much to do as before.
Move-weight :
    (text : List ℕ) (capacity : ℕ) (s s' : State)
    → Move text capacity s s'
    → (s' ≡ s) ⊎ (weight text s' < weight text s)
Move-weight text capacity s s' (writes m at_write more pos le fits) = inr (
    omega (
      arith,
      more,
      pos,
      le,
      length-append s.stream (take m (drop s.sent text)),
      length-take m (drop s.sent text),
    ))
Move-weight text capacity s s' (write_interrupted at_write more) = inl refl
Move-weight text capacity s s' (write_fails at_write more) = inr (ground (arith, at_write))
Move-weight text capacity s s' (closes at_write all) = inr (ground (arith, at_write))
Move-weight text capacity s s' (close_fails at_write all) = inr (ground (arith, at_write))
Move-weight text capacity s s' (starts buf at_start size) = inr (ground (arith, at_start))
Move-weight text capacity s s' (start_fails at_start) = inr (ground (arith, at_start))
Move-weight text capacity s s' (reads junk cap n buf bytes rest at_read e pos le) = inr (
    omega (
      arith,
      pos,
      ap length e,
      length-append bytes rest,
      ap child_weight at_read,
      after_read_light junk cap n buf bytes,
    ))
Move-weight text capacity s s' (read_ends cap n buf at_read e closed) =
    inr (omega (arith, ap child_weight at_read, show_buffer_light n buf))
Move-weight text capacity s s' (read_fails cap n buf at_read) = inr (ground (arith, at_read))

-- The call is one that does not fail.
abbrev pub Succeeds :
    {text : List ℕ} {capacity : ℕ} {s s' : State} → Move text capacity s s' → Type 0
Succeeds (writes m at_write more pos le fits) = Unit
Succeeds (write_interrupted at_write more) = ⊥
Succeeds (write_fails at_write more) = ⊥
Succeeds (closes at_write all) = Unit
Succeeds (close_fails at_write all) = ⊥
Succeeds (starts buf at_start size) = Unit
Succeeds (start_fails at_start) = ⊥
Succeeds (reads junk cap n buf bytes rest at_read e pos le) = Unit
Succeeds (read_ends cap n buf at_read e closed) = Unit
Succeeds (read_fails cap n buf at_read) = ⊥

-- A call of one of them that does not fail and brings it on.
abbrev pub Goes : List ℕ → ℕ → State → Type 0
Goes text capacity s =
    (s' : State) × (m : Move text capacity s s') × Succeeds m × (weight text s' < weight text s)

abbrev pub Ended : State → Type 0
Ended s = (s.parent ≢ writing) × (n : ℕ) × (t : List ℕ) × (s.child ≡ shown n t)

-- The moves that are always there, with the weight that they take away.
module _ {text : List ℕ} {capacity : ℕ} {s : State} where
  goes : (s' : State) (m : Move text capacity s s') → Succeeds m → s' ≢ s → Goes text capacity s
  goes s' m ok ne = elim (Move-weight text capacity s s' m) [
    | inl e ↦ absurd (ne e)
    | inr lt ↦ (s', m, ok, lt)
  ]

  parent_goes : s.parent ≡ writing → s.stream ≡ [] → 0 < capacity → Goes text capacity s
  parent_goes e empty pos = elim (Bool-cases (ltb s.sent (length text))) [
    | inl more ↦
        goes _
          (writes 1 e (ground (arith, more)) (omega arith) (ground (arith, more))
            (omega (arith, ap length empty, pos)))
          tt (λ q. omega (arith, ap (λ (u : State). u.sent) q))
    | inr all ↦
        goes _ (closes e (λ lt. ground (arith, all))) tt
          (λ q. ground (arith, e, ap (λ (u : State). u.parent) q))
  ]

  child_goes :
      (cap n : ℕ) (buf l : List ℕ) (p : Parent)
      → s.child ≡ reading cap n buf
      → s.stream ≡ l
      → s.parent ≡ p
      → 0 < capacity
      → Goes text capacity s
  child_goes cap n buf [] writing ec el ep pos = parent_goes ep el pos
  child_goes cap n buf [] (returned code) ec el ep pos = (
    record s { child = show_buffer n buf },
    read_ends cap n buf ec el (λ q. cc),
    tt,
    omega (arith, ap child_weight ec, show_buffer_light n buf),
  )
  child_goes cap n buf (c ∷ rest) p ec el ep pos =
      goes _ (reads 0 cap n buf (c ∷ []) rest ec el (omega arith) (omega arith)) tt
        (λ q. omega (arith, ap (λ (u : State). length u.stream) q, ap length el))

  go_on :
      (c : Child) (p : Parent)
      → s.child ≡ c
      → s.parent ≡ p
      → 0 < capacity
      → c ≢ gave_up
      → ChildInv (take s.sent text) s.stream p c
      → Ended s ⊎ Goes text capacity s
  go_on starting p ec ep pos ok v = inr (
      goes _ (starts (0 ∷ 0 ∷ 0 ∷ []) ec refl) tt
        (λ q. ground (arith, ec, ap (λ (u : State). u.child) q)))
  go_on (reading cap n buf) p ec ep pos ok v = inr (child_goes cap n buf s.stream p ec refl ep pos)
  go_on (shown n t) p ec ep pos ok v = inl ((λ q. v.2 (sym ep ∙ q)), n, t, ec)
  go_on gave_up p ec ep pos ok v = absurd (ok refl)
  go_on overrun p ec ep pos ok v = elim v [ ]

-- In every reachable state, for a text with no NUL and a pipe that holds a byte or more: while the
-- child has not given up, either both processes have ended and the child has printed, or
-- one of them has a call that returns with no error, not interrupted, and leaves less to do; and of
-- all the calls that can return in any state only an interrupted `write` does not leave less to do.
pub ends_or_goes :
    (text : List ℕ) (capacity : ℕ) (s : State)
    → NoNul text
    → 0 < capacity
    → Reach text capacity s
    → s.child ≢ gave_up
    → (Ended s ⊎ Goes text capacity s)
      × ((s' : State) → Move text capacity s s' → (s' ≡ s) ⊎ (weight text s' < weight text s))
ends_or_goes text capacity s clean pos r ok =
    (go_on s.child s.parent refl refl pos ok (Reach-Inv clean r).child, Move-weight text capacity s)
