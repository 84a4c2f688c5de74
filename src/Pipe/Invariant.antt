-- ===== src/Pipe/Invariant.antt =====
-- What holds in every state: the bytes that were sent are those that the child has and those in
-- the pipe.
use linux_system_programming.Prelude.{
  ℕ, zero, suc, ◌+◌, ◌≤◌, ◌≡◌, ◌≢◌, refl, sym, subst, ap, ◌∙◌, List, [], ◌∷◌, ◌++◌, arith, length,
  take, drop, append_assoc, append-nil, length-take,
}
use linux_system_programming.Buffers.Holds.{Holds-nil}
use linux_system_programming.Sockets.Text.{NoNul}
use linux_system_programming.Transfers.Copy.{take-add}
use linux_system_programming.Pipe.{
  Child, starting, reading, shown, gave_up, overrun, Parent, writing, returned, State, bufsize,
  after_read, show_buffer, Move, writes, write_interrupted, write_fails, closes, close_fails,
  starts, start_fails, reads, read_ends, read_fails, Reach, begin, then_move,
}
use linux_system_programming.Pipe.Buffer.{Room, after_read-Room, show_buffer-shown}

-- The child has `got`, and the pipe holds the rest of what was sent.
pub record Gets (flow stream : List ℕ) (n : ℕ) (got : List ℕ) : Type 0 where
  pub all : got ++ stream ≡ flow
  pub long : n ≡ length got

abbrev pub ChildInv : List ℕ → List ℕ → Parent → Child → Type 0
ChildInv flow stream parent starting = stream ≡ flow
ChildInv flow stream parent (reading cap n buf) =
    (got : List ℕ) × Gets flow stream n got × Room cap got buf
ChildInv flow stream parent (shown n text) = (n ≡ length flow) × (text ≡ flow) × (parent ≢ writing)
ChildInv flow stream parent gave_up = Unit
ChildInv flow stream parent overrun = ⊥

pub record Inv (text : List ℕ) (s : State) : Type 0 where
  pub sent_le : s.sent ≤ length text
  pub sent_all : s.parent ≡ returned 0 → s.sent ≡ length text
  pub child : ChildInv (take s.sent text) s.stream s.parent s.child

ChildInv-writes :
    (flow stream more : List ℕ) (parent : Parent) (c : Child)
    → parent ≡ writing
    → ChildInv flow stream parent c
    → ChildInv (flow ++ more) (stream ++ more) parent c
ChildInv-writes flow stream more parent starting e h = rw h refl
ChildInv-writes flow stream more parent (reading cap n buf) e (got, g, r) = (
  got,
  record { all = sym (append_assoc got stream more) ∙ ap (λ l. l ++ more) g.all; long = g.long },
  r,
)
ChildInv-writes flow stream more parent (shown n text) e h = absurd (h.2 e)
ChildInv-writes flow stream more parent gave_up e h = tt
ChildInv-writes flow stream more parent overrun e h = elim h [ ]

ChildInv-returns :
    (flow stream : List ℕ) (parent : Parent) (code : ℕ) (c : Child)
    → ChildInv flow stream parent c
    → ChildInv flow stream (returned code) c
ChildInv-returns flow stream parent code starting h = h
ChildInv-returns flow stream parent code (reading cap n buf) h = h
ChildInv-returns flow stream parent code (shown n text) h = (h.0, h.1, λ e. cc)
ChildInv-returns flow stream parent code gave_up h = tt
ChildInv-returns flow stream parent code overrun h = elim h [ ]

ChildInv-reads :
    (flow stream bytes rest buf : List ℕ) (parent : Parent) (junk cap n : ℕ)
    → stream ≡ bytes ++ rest
    → length bytes ≤ bufsize
    → ChildInv flow stream parent (reading cap n buf)
    → ChildInv flow rest parent (after_read junk cap n buf bytes)
ChildInv-reads flow stream bytes rest buf parent junk cap n e le (got, g, r) =
    let a = after_read-Room junk cap got buf bytes r le in
    subst (ChildInv flow rest parent) (sym (ap (λ k. after_read junk cap k buf bytes) g.long ∙ a.2))
      (
        got ++ bytes,
        record { all = append_assoc got bytes rest ∙ (ap (got ++◌) (sym e) ∙ g.all); long = refl },
        a.3,
      )

ChildInv-ends :
    (flow stream buf : List ℕ) (parent : Parent) (cap n : ℕ)
    → NoNul flow
    → stream ≡ []
    → parent ≢ writing
    → ChildInv flow stream parent (reading cap n buf)
    → ChildInv flow stream parent (show_buffer n buf)
ChildInv-ends flow stream buf parent cap n clean e closed (got, g, r) =
    let same : got ≡ flow = sym (append-nil got) ∙ (ap (got ++◌) (sym e) ∙ g.all) in
    subst (ChildInv flow stream parent)
      (sym (
        ap (λ k. show_buffer k buf) g.long
        ∙ show_buffer-shown cap got buf r (subst NoNul (sym same) clean)))
      (ap length same, same, closed)

NoNul-take : (n : ℕ) (l : List ℕ) → NoNul l → NoNul (take n l)
NoNul-take zero l h = tt
NoNul-take (suc n) [] h = tt
NoNul-take (suc n) (c ∷ l) h = (h.0, NoNul-take n l h.1)

module _ {text : List ℕ} {capacity : ℕ} (clean : NoNul text) where
  pub Move-Inv : {s s' : State} → Move text capacity s s' → Inv text s → Inv text s'
  Move-Inv {s} (writes m at_write more pos le fits) v = record {
    sent_le = omega (arith, more, le);
    sent_all = λ e. cc;
    child =
        subst (λ l. ChildInv l (s.stream ++ take m (drop s.sent text)) s.parent s.child)
          (take-add s.sent m (s.sent + m) text refl)
          (ChildInv-writes (take s.sent text) s.stream (take m (drop s.sent text)) s.parent s.child
            at_write v.child);
  }
  Move-Inv (write_interrupted at_write more) v = v
  Move-Inv {s} (write_fails at_write more) v = record {
    sent_le = v.sent_le;
    sent_all = λ e. cc;
    child = ChildInv-returns (take s.sent text) s.stream s.parent 1 s.child v.child;
  }
  Move-Inv {s} (closes at_write all) v = record {
    sent_le = v.sent_le;
    sent_all = λ e. omega (arith, v.sent_le, all);
    child = ChildInv-returns (take s.sent text) s.stream s.parent 0 s.child v.child;
  }
  Move-Inv {s} (close_fails at_write all) v = record {
    sent_le = v.sent_le;
    sent_all = λ e. cc;
    child = ChildInv-returns (take s.sent text) s.stream s.parent 1 s.child v.child;
  }
  Move-Inv {s} (starts buf at_start size) v =
      let flow : s.stream ≡ take s.sent text =
        subst (ChildInv (take s.sent text) s.stream s.parent) at_start v.child in
      record {
        sent_le = v.sent_le;
        sent_all = v.sent_all;
        child = (
          [],
          record { all = flow; long = refl },
          record { holds = Holds-nil buf; size = size; room = omega arith },
        );
      }
  Move-Inv (start_fails at_start) v = record {
    sent_le = v.sent_le;
    sent_all = v.sent_all;
    child = tt;
  }
  Move-Inv {s} (reads junk cap n buf bytes rest at_read e pos le) v = record {
    sent_le = v.sent_le;
    sent_all = v.sent_all;
    child =
        ChildInv-reads (take s.sent text) s.stream bytes rest buf s.parent junk cap n e le
          (subst (ChildInv (take s.sent text) s.stream s.parent) at_read v.child);
  }
  Move-Inv {s} (read_ends cap n buf at_read e closed) v = record {
    sent_le = v.sent_le;
    sent_all = v.sent_all;
    child =
        ChildInv-ends (take s.sent text) s.stream buf s.parent cap n (NoNul-take s.sent text clean)
          e closed (subst (ChildInv (take s.sent text) s.stream s.parent) at_read v.child);
  }
  Move-Inv (read_fails cap n buf at_read) v = record {
    sent_le = v.sent_le;
    sent_all = v.sent_all;
    child = tt;
  }

  pub Reach-Inv : {s : State} → Reach text capacity s → Inv text s
  Reach-Inv begin = record { sent_le = omega arith; sent_all = λ e. cc; child = refl }
  Reach-Inv (then_move r m) = Move-Inv m (Reach-Inv r)

take-length_all : (l : List ℕ) → take (length l) l ≡ l
take-length_all [] = refl
take-length_all (x ∷ l) = ap (x ∷◌) (take-length_all l)

-- For a text with no NUL, whatever the two processes and the kernel do, the child never writes behind
-- its block; when it has printed, it has printed just the bytes that the parent wrote and their number, and these are the
-- whole text where the parent has returned 0.
pub shown-text :
    (text : List ℕ) (capacity : ℕ) (s : State)
    → NoNul text
    → Reach text capacity s
    → (s.child ≢ overrun)
      × ((n : ℕ) (t : List ℕ)
          → s.child ≡ shown n t
          → (n ≡ s.sent) × (t ≡ take s.sent text) × (s.parent ≡ returned 0 → t ≡ text))
shown-text text capacity s clean r =
    let v = Reach-Inv clean r in
    let at_child = λ (c : Child) (e : s.child ≡ c).
      subst (ChildInv (take s.sent text) s.stream s.parent) e v.child in
    (
      λ e. at_child overrun e,
      λ n t e.
          let h = at_child (shown n t) e in
          (
            h.0 ∙ omega (arith, length-take s.sent text, v.sent_le),
            h.1,
            λ done. h.1 ∙ (ap (λ k. take k text) (v.sent_all done) ∙ take-length_all text),
          ),
    )
