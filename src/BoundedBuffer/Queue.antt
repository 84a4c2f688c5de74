-- ===== src/BoundedBuffer/Queue.antt =====
-- The ring of `put` and `get` is a bounded queue.
use linux_system_programming.Prelude.{
  ℕ, suc, ◌+◌, ◌%◌, ◌<◌, ◌≤◌, ◌≡◌, refl, sym, ap, ◌∙◌, ◌≢◌, inl, inr, List, [], ◌∷◌, ◌++◌, arith,
  length, length-append, length-set, get_elem?, set, get_elem?-set_self, get_elem?-set_ne,
  get_elem?-append_lt, get_elem?-append_length, get_or-of_get_elem?, ==_iff, ◌==◌, Bool-cases,
}
use linux_system_programming.BoundedBuffer.{max_count, Ring, init_ring, put, get}

-- The ring holds the queue `q`: its `count` values from `use_ptr` on, going round at MAX.
pub record Holds (r : Ring) (q : List ℕ) : Type 0 where
  pub size : length r.buffer ≡ max_count
  pub count : r.count ≡ length q
  pub fits : r.count ≤ max_count
  pub use_in : r.use_ptr < max_count
  pub fill : r.fill_ptr ≡ (r.use_ptr + r.count) % max_count
  pub at : (k : ℕ) → k < length q → get_elem? r.buffer ((r.use_ptr + k) % max_count) ≡ get_elem? q k

pub init_ring-Holds : Holds init_ring []
init_ring-Holds = record {
  size = refl;
  count = refl;
  fits = omega arith;
  use_in = omega arith;
  fill = refl;
  at = λ k h. absurd (omega arith);
}

-- `put` into a ring that is not full adds the value behind the queue that the ring holds.
pub put-Holds :
    {r : Ring} {q : List ℕ} (v : ℕ)
    → Holds r q
    → r.count ≢ max_count
    → Holds (put r v) (q ++ v ∷ [])
unfolding put
put-Holds {r} {q} v h room = record {
  size = length-set r.buffer r.fill_ptr v ∙ h.size;
  count = omega (arith, length-append q (v ∷ []), h.count);
  fits = omega (arith, h.fits);
  use_in = h.use_in;
  fill = omega (arith, h.fill);
  at = λ k lt. elim (Bool-cases (k == length q)) [
    | inl e ↦
        let k_q : k ≡ length q = (==_iff k (length q)).0 e in
        rw (k_q, get_elem?-append_length q v [])
          (ap (get_elem? (set r.buffer r.fill_ptr v)) (omega (arith, h.fill, h.count))
            ∙ get_elem?-set_self r.buffer r.fill_ptr v (omega (arith, h.size, h.fill)))
    | inr ne ↦
        let below : k < length q = ground (arith, length-append q (v ∷ [])) in
        get_elem?-set_ne r.buffer v (omega (arith, h.fill, h.count, h.fits))
        ∙ h.at k below
        ∙ sym (get_elem?-append_lt q (v ∷ []) k below)
  ];
}

-- `get` from a ring that is not empty returns the first value of the queue, and leaves the rest.
pub get-Holds :
    {r : Ring} {x : ℕ} {q : List ℕ} → Holds r (x ∷ q) → ((get r).0 ≡ x) × Holds (get r).1 q
unfolding get
get-Holds {r} {x} {q} h = (
  get_or-of_get_elem? r.buffer r.use_ptr 0 x
      (ap (get_elem? r.buffer) (omega (arith, h.use_in)) ∙ h.at 0 (omega arith)),
  record {
    size = h.size;
    count = omega (arith, h.count);
    fits = omega (arith, h.fits);
    use_in = omega arith;
    fill = omega (arith, h.fill, h.count);
    at = λ k lt. ap (get_elem? r.buffer) (omega arith) ∙ h.at (suc k) (omega arith);
  },
)
