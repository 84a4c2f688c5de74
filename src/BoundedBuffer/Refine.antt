-- ===== src/BoundedBuffer/Refine.antt =====
-- The two threads and their ring do what a channel of MAX numbers does.
use linux_system_programming.Prelude.{
  ℕ, ◌<◌, ◌≡◌, ◌≢◌, refl, ap, ◌⊎◌, inl, inr, List, [], ◌∷◌, ◌++◌, arith, length,
}
use linux_system_programming.BoundedBuffer.{
  max_count, get, Pc, acted, Owner, State, p_lock, p_block, p_relock, p_put, p_signal, p_unlock,
  p_return, c_lock, c_block, c_relock, c_get, c_signal, c_unlock, c_return, Step, move, p_spurious,
  c_spurious,
}
use linux_system_programming.BoundedBuffer.Queue.{Holds, put-Holds, get-Holds}

-- What is sent and not yet received, oldest first, and both histories.
pub record Channel : Type 0 where
  pub queue : List ℕ
  pub sent : List ℕ
  pub received : List ℕ

-- A channel blocks a sender while it is full, and a receiver while it is empty.
pub data Use (c : Channel) : Channel → Type 0 where
  send :
      (v : ℕ)
      → length c.queue < max_count
      → Use c (record c { queue = c.queue ++ v ∷ []; sent = c.sent ++ v ∷ [] })
  receive :
      (v : ℕ) (rest : List ℕ)
      → c.queue ≡ v ∷ rest
      → Use c (record c { queue = rest; received = c.received ++ v ∷ [] })

-- The channel that the state is seen as.
pub record Shows (s : State) (c : Channel) : Type 0 where
  pub holds : Holds s.ring c.queue
  pub sent : s.produced ≡ c.sent
  pub received : s.consumed ≡ c.received

-- The channel stays as it is, or is used once.
abbrev pub Follows : State → Channel → Type 0
Follows t c = Shows t c ⊎ ((d : Channel) × Use c d × Shows t d)

get-Follows :
    (s : State) (p : Pc) (c : Channel) (q : List ℕ)
    → c.queue ≡ q
    → s.ring.count ≢ 0
    → Holds s.ring q
    → s.produced ≡ c.sent
    → s.consumed ≡ c.received
    → Follows
        (record s { ring = (get s.ring).1; cons = p; consumed = s.consumed ++ (get s.ring).0 ∷ [] })
        c
get-Follows s p c [] e some h es er = absurd (some h.count)
get-Follows s p c (v ∷ rest) e some h es er =
    let (same, left) = get-Holds h in
    inr (
      record c { queue = rest; received = c.received ++ v ∷ [] },
      receive v rest e,
      record { holds = left; sent = es; received = rw (same, er) },
    )

-- A step that changes neither the ring nor what is shown.
kept :
    {s : State} {m : Owner} {p q : Pc} {c : Channel}
    → Shows s c
    → Shows (record s { mutex = m; prod = p; cons = q }) c
kept v = record { holds = v.holds; sent = v.sent; received = v.received }

-- Each step of either thread, spurious wake-ups included, leaves the channel that a state is seen as
-- alone, or sends the number that is shown as produced where the channel has room, or receives the
-- one that is shown as consumed from its front.
pub Step-Follows :
    {loops : ℕ} {s t : State} {c : Channel} → Shows s c → Step loops s t → Follows t c
Step-Follows v (move (p_lock i e lt f)) = inl (kept v)
Step-Follows v (move (p_block i e full)) = inl (kept v)
Step-Follows v (move (p_relock i e f)) = inl (kept v)
Step-Follows {s} {c} v (move (p_put i e room)) = inr (
  record c { queue = c.queue ++ i ∷ []; sent = c.sent ++ i ∷ [] },
  send i (omega (arith, room, v.holds.count, v.holds.fits)),
  record {
    holds = put-Holds i v.holds room;
    sent = ap (λ l. l ++ i ∷ []) v.sent;
    received = v.received;
  },
)
Step-Follows v (move (p_signal i e)) = inl (kept v)
Step-Follows v (move (p_unlock i e)) = inl (kept v)
Step-Follows v (move (p_return i e ge)) = inl (kept v)
Step-Follows v (move (c_lock i e lt f)) = inl (kept v)
Step-Follows v (move (c_block i e empty)) = inl (kept v)
Step-Follows v (move (c_relock i e f)) = inl (kept v)
Step-Follows {s} {c} v (move (c_get i e some)) =
    get-Follows s (acted i) c c.queue refl some v.holds v.sent v.received
Step-Follows v (move (c_signal i e)) = inl (kept v)
Step-Follows v (move (c_unlock i e)) = inl (kept v)
Step-Follows v (move (c_return i e ge)) = inl (kept v)
Step-Follows v (p_spurious i e) = inl (kept v)
Step-Follows v (c_spurious i e) = inl (kept v)
