-- ===== src/Buffers/Holds.antt =====
-- A block that begins with given bytes.
use linux_system_programming.Prelude.{
  ℕ, zero, suc, ◌+◌, ◌-◌, ◌<◌, ◌≤◌, ◌≡◌, refl, ap, sym, subst, append_assoc, append-nil, ◌∙◌, none,
  some, List, [], ◌∷◌, ◌++◌, arith, length, set, take, replicate, length-append, length-set,
  length-replicate,
}
use linux_system_programming.Buffers.{put_byte, put_bytes, enlarge, copy_bytes}

pub record Holds (buf l : List ℕ) : Type 0 where
  pub room : length l ≤ length buf
  pub same : take (length l) buf ≡ l

pub Holds-nil : (buf : List ℕ) → Holds buf []
Holds-nil buf = record { room = omega arith; same = refl }

take-set :
    (buf : List ℕ) (n v : ℕ) → n < length buf → take (suc n) (set buf n v) ≡ take n buf ++ v ∷ []
take-set [] n v h = absurd (omega arith)
take-set (b ∷ buf) zero v h = refl
take-set (b ∷ buf) (suc n) v h = ap (◌∷◌ b) (take-set buf n v (omega arith))

take-append_le : (n : ℕ) (xs ys : List ℕ) → n ≤ length xs → take n (xs ++ ys) ≡ take n xs
take-append_le zero xs ys h = refl
take-append_le (suc n) [] ys h = absurd (omega arith)
take-append_le (suc n) (x ∷ xs) ys h = ap (◌∷◌ x) (take-append_le n xs ys (omega arith))

-- A write behind the bytes adds one, if it is in the block.
pub set-Holds :
    (buf l : List ℕ) (v : ℕ)
    → Holds buf l
    → length l < length buf
    → Holds (set buf (length l) v) (l ++ v ∷ [])
set-Holds buf l v h lt = record {
  room = omega (arith, length-append l (v ∷ []), length-set buf (length l) v);
  same =
      ap (λ n. take n (set buf (length l) v)) {x = length (l ++ v ∷ [])} {y = suc (length l)}
        (omega (arith, length-append l (v ∷ [])))
      ∙ take-set buf (length l) v lt
      ∙ ap (λ xs. xs ++ v ∷ []) h.same;
}

pub put_byte-ok : (buf : List ℕ) (i v : ℕ) → i < length buf → put_byte buf i v ≡ some (set buf i v)
unfolding put_byte
put_byte-ok buf i v h = ground arith

pub put_byte-out : (buf : List ℕ) (i v : ℕ) → length buf ≤ i → put_byte buf i v ≡ none
unfolding put_byte
put_byte-out buf i v h = ground arith

put_bytes-cons :
    (buf : List ℕ) (n c : ℕ) (cs : List ℕ)
    → n < length buf
    → put_bytes buf n (c ∷ cs) ≡ put_bytes (set buf n c) (suc n) cs
unfolding put_bytes
put_bytes-cons buf n c cs lt = rw (put_bytes, put_byte-ok buf n c lt) refl

pub put_bytes-Holds :
    (bytes got buf : List ℕ)
    → Holds buf got
    → length got + length bytes ≤ length buf
    → (b : List ℕ) × (put_bytes buf (length got) bytes ≡ some b)
      × Holds b (got ++ bytes)
      × (length b ≡ length buf)
unfolding put_bytes
put_bytes-Holds [] got buf h lt = (buf, refl, subst (Holds buf) (sym (rw append-nil refl)) h, refl)
put_bytes-Holds (c ∷ cs) got buf h lt =
    let r =
      put_bytes-Holds cs (got ++ c ∷ []) (set buf (length got) c)
        (set-Holds buf got c h (omega arith))
        (omega (arith, length-append got (c ∷ []), length-set buf (length got) c)) in
    let e : length (got ++ c ∷ []) ≡ suc (length got) = omega (arith, length-append got (c ∷ [])) in
    (
      r.0,
      put_bytes-cons buf (length got) c cs (omega arith)
          ∙ (ap (λ n. put_bytes (set buf (length got) c) n cs) (sym e) ∙ r.1),
      subst (Holds r.0) (append_assoc got (c ∷ []) cs) r.2,
      r.3 ∙ length-set buf (length got) c,
    )

pub enlarge-Holds : (junk size : ℕ) (buf l : List ℕ) → Holds buf l → Holds (enlarge junk buf size) l
unfolding enlarge
enlarge-Holds junk size buf l h = record {
  room = omega (arith, h.room, length-append buf (replicate (size - length buf) junk));
  same = take-append_le (length l) buf (replicate (size - length buf) junk) h.room ∙ h.same;
}

pub length-enlarge :
    (junk size : ℕ) (buf : List ℕ) → length buf ≤ size → length (enlarge junk buf size) ≡ size
unfolding enlarge
length-enlarge junk size buf h = omega (
  arith,
  length-append buf (replicate (size - length buf) junk),
  length-replicate (size - length buf) junk,
)

pub length-copy_bytes : (n : ℕ) (buf tmp : List ℕ) → length (copy_bytes n buf tmp) ≡ length tmp
unfolding copy_bytes
length-copy_bytes zero buf tmp = refl
length-copy_bytes (suc n) [] tmp = refl
length-copy_bytes (suc n) (b ∷ buf) [] = refl
length-copy_bytes (suc n) (b ∷ buf) (t ∷ tmp) = ap suc (length-copy_bytes n buf tmp)

take-copy_bytes :
    (n : ℕ) (buf tmp : List ℕ)
    → n ≤ length buf
    → n ≤ length tmp
    → take n (copy_bytes n buf tmp) ≡ take n buf
unfolding copy_bytes
take-copy_bytes zero buf tmp h k = refl
take-copy_bytes (suc n) [] tmp h k = absurd (omega arith)
take-copy_bytes (suc n) (b ∷ buf) [] h k = absurd (omega arith)
take-copy_bytes (suc n) (b ∷ buf) (t ∷ tmp) h k =
    ap (◌∷◌ b) (take-copy_bytes n buf tmp (omega arith) (omega arith))

pub copy_bytes-Holds :
    (buf tmp l : List ℕ)
    → Holds buf l
    → length l ≤ length tmp
    → Holds (copy_bytes (length l) buf tmp) l
copy_bytes-Holds buf tmp l h le = record {
  room = omega (arith, length-copy_bytes (length l) buf tmp);
  same = take-copy_bytes (length l) buf tmp h.room le ∙ h.same;
}

take_prefix : (l m buf : List ℕ) → take (length (l ++ m)) buf ≡ l ++ m → take (length l) buf ≡ l
take_prefix [] m buf e = refl
take_prefix (c ∷ l) m [] e = cc
take_prefix (c ∷ l) m (b ∷ buf) e =
    let tails : take (length (l ++ m)) buf ≡ l ++ m = cc in
    let heads : b ≡ c = cc in rw (heads, take_prefix l m buf tails) refl

pub Holds-prefix : (buf l m : List ℕ) → Holds buf (l ++ m) → Holds buf l
Holds-prefix buf l m h = record {
  room = omega (arith, h.room, length-append l m);
  same = take_prefix l m buf h.same;
}
