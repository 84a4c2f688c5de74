-- ===== src/Pipe/Buffer.antt =====
-- What one call of read does to the child's block.
use linux_system_programming.Prelude.{
  ℕ, suc, ◌+◌, ◌-◌, ◌*◌, ◌≤◌, ◌<◌, ◌≡◌, refl, ap, ◌∙◌, Bool-cases, inl, inr, List, [], ◌∷◌, ◌++◌,
  arith, ltb, length, set, take, length-append,
}
use linux_system_programming.Buffers.{enlarge}
use linux_system_programming.Buffers.Holds.{
  Holds, put_bytes-Holds, set-Holds, put_byte-ok, enlarge-Holds, length-enlarge,
}
use linux_system_programming.Sockets.Text.{NoNul, until_nul-take}
use linux_system_programming.Pipe.{reading, shown, bufsize, more_room, after_read, show_buffer}

-- A block with `got` in front and room for a whole read and the NUL.
pub record Room (cap : ℕ) (got buf : List ℕ) : Type 0 where
  pub holds : Holds buf got
  pub size : length buf ≡ suc cap
  pub room : length got + bufsize ≤ cap

-- After a read of at most BUFSIZE bytes the child holds them too, and has room for the next one.
pub after_read-Room :
    (junk cap : ℕ) (got buf bytes : List ℕ)
    → Room cap got buf
    → length bytes ≤ bufsize
    → (cap' : ℕ) × (b : List ℕ) × (after_read junk cap (length got) buf bytes
        ≡ reading cap' (length (got ++ bytes)) b)
      × Room cap' (got ++ bytes) b
unfolding after_read more_room
after_read-Room junk cap got buf bytes r le =
    let h = put_bytes-Holds bytes got buf r.holds (omega (arith, r.size, r.room)) in
    let long = length-append got bytes in
    let size : length h.0 ≡ suc cap = h.3 ∙ r.size in
    elim (Bool-cases (ltb (cap - bufsize) (length got + length bytes))) [
      | inl e ↦ (
        cap * 2,
        enlarge junk h.0 (suc (cap * 2)),
        rw (after_read, h.1) (rw (more_room, e) (rw long refl)),
        record {
          holds = enlarge-Holds junk (suc (cap * 2)) h.0 (got ++ bytes) h.2;
          size = length-enlarge junk (suc (cap * 2)) h.0 (omega (arith, size));
          room = omega (arith, r.room, long);
        },
      )
      | inr e ↦ (
        cap,
        h.0,
        rw (after_read, h.1) (rw (more_room, e) (rw long refl)),
        record { holds = h.2; size = size; room = ground (arith, e, long, r.room) },
      )
    ]

-- The NUL has room, and what is printed is what was read.
pub show_buffer-shown :
    (cap : ℕ) (got buf : List ℕ)
    → Room cap got buf
    → NoNul got
    → show_buffer (length got) buf ≡ shown (length got) got
unfolding show_buffer
show_buffer-shown cap got buf r clean =
    let lt : length got < length buf = omega (arith, r.size, r.room) in
    let b = set buf (length got) 0 in
    let h = set-Holds buf got 0 r.holds lt in
    let front : take (suc (length got)) b ≡ got ++ 0 ∷ [] =
      ap (λ n. take n b) {x = suc (length got)} {y = length (got ++ 0 ∷ [])}
        (omega (arith, length-append got (0 ∷ [])))
      ∙ h.same in
    rw (show_buffer, put_byte-ok buf (length got) 0 lt)
      (ap (shown (length got)) (until_nul-take got b clean front))
