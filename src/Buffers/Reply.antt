-- ===== src/Buffers/Reply.antt =====
-- 00-network-programming/examples/listener.c: input_reply, a line from stdin with its line feed.
use native.Mathlib.Nat.{pow-suc}
use linux_system_programming.Prelude.{
  ℕ, zero, suc, ◌*◌, ◌^◌, ◌<◌, ◌≤◌, ◌≡◌, refl, ap, ◌∙◌, ◌≢◌, ◌⊎◌, inl, inr, true, false, none, some,
  List, [], ◌∷◌, ◌++◌, arith, ◌==◌, ltb, ltb→lt, if◌then◌else◌, Bool-cases, length, set, take,
  replicate, length-append, length-set, length-replicate, append_assoc, subst,
}
use linux_system_programming.Buffers.{put_byte, enlarge}
use linux_system_programming.Buffers.Holds.{
  Holds, Holds-nil, set-Holds, put_byte-ok, put_byte-out, enlarge-Holds, length-enlarge,
}
use linux_system_programming.Buffers.Shell.{Ending, exit_code, newline, NoNewline}

-- BUFINIT
abbrev pub bufinit : ℕ
bufinit = 8

-- How a call of `input_reply` ends.
pub data Reply : Type 0 where
  reply : (buf rest : List ℕ) → Reply
  exits : (code : ℕ) → Reply
  overrun : Reply

-- The results of malloc and realloc are not tested: they are taken to succeed.
abbrev pub reply_room : ℕ → ℕ → ℕ → List ℕ → ℕ × List ℕ
reply_room junk cap n buf = if n == cap then (cap * 2, enlarge junk buf (cap * 2)) else (cap, buf)

-- `buf[n] = '\0'; return buf;`
unfoldable pub end_reply : ℕ → List ℕ → List ℕ → Reply
end_reply n buf rest = elim (put_byte buf n 0) [ none ↦ overrun | some b ↦ reply b rest ]

-- The `while`, and the tests of `ferror` and `feof` behind it.
unfoldable pub reply_loop : ℕ → List ℕ → Ending → ℕ → ℕ → List ℕ → Reply
unfolding end_reply
reply_loop junk [] end cap n buf = exits (exit_code end)
reply_loop junk (c ∷ input) end cap n buf =
    let (cap', buf') = reply_room junk cap n buf in
    elim (put_byte buf' n c) [
      | none ↦ overrun
      | some b ↦ elim (c == newline) [
        | true ↦ end_reply (suc n) b input
        | false ↦ reply_loop junk input end cap' (suc n) b
      ]
    ]

unfoldable pub input_reply : ℕ → List ℕ → Ending → Reply
unfolding reply_loop
input_reply junk input end = reply_loop junk input end bufinit 0 (replicate bufinit junk)

-- A block of 8 · 2 ^ `j` bytes that begins with `l`, and is no larger than it has to be.
record Filled (cap j : ℕ) (buf l : List ℕ) : Type 0 where
  size : length buf ≡ cap
  power : cap ≡ 8 * 2 ^ j
  tight : (cap ≡ 8) ⊎ (cap ≤ 2 * length l)
  holds : Holds buf l

pow_pos : (k : ℕ) → 0 < 2 ^ k
pow_pos zero = omega arith
pow_pos (suc k) = omega (arith, pow_pos k, pow-suc 2 k)

-- Between a power of two and the next there is none.
pow_gap : (k j : ℕ) → 2 ^ k < 2 ^ j → 2 * 2 ^ k ≤ 2 ^ j
pow_gap k zero h = absurd (omega (arith, pow_pos k))
pow_gap zero (suc j) h = omega (arith, pow_pos j, pow-suc 2 j)
pow_gap (suc k) (suc j) h =
    let below : 2 ^ k < 2 ^ j = omega (arith, pow-suc 2 j, pow-suc 2 k) in
    omega (arith, pow_gap k j below, pow-suc 2 j, pow-suc 2 k)

reply_room-Filled :
    (junk cap j : ℕ) (buf l : List ℕ)
    → Filled cap j buf l
    → (j' : ℕ) × Filled
        (reply_room junk cap (length l) buf).0
        j'
        (reply_room junk cap (length l) buf).1
        l
      × (length l < (reply_room junk cap (length l) buf).0)
reply_room-Filled junk cap j buf l f = elim (Bool-cases (length l == cap)) [
  | inl full ↦ rw full (
    suc j,
    record {
      size = length-enlarge junk (cap * 2) buf (omega (arith, f.size));
      power = omega (arith, f.power, pow-suc 2 j);
      tight = ground (arith, f.tight, f.power, pow_pos j);
      holds = enlarge-Holds junk (cap * 2) buf l f.holds;
    },
    ground (arith, f.power, pow_pos j),
  )
  | inr room ↦ rw room (j, f, ground (arith, f.holds.room, f.size))
]

put-Filled :
    (cap j c : ℕ) (buf l : List ℕ)
    → Filled cap j buf l
    → length l < cap
    → (put_byte buf (length l) c ≡ some (set buf (length l) c))
      × Filled cap j (set buf (length l) c) (l ++ c ∷ [])
      × (length (l ++ c ∷ []) ≡ suc (length l))
put-Filled cap j c buf l f lt =
    let longer : length (l ++ c ∷ []) ≡ suc (length l) = omega (arith, length-append l (c ∷ [])) in
    (
      put_byte-ok buf (length l) c (omega (arith, f.size)),
      record {
        size = length-set buf (length l) c ∙ f.size;
        power = f.power;
        tight = ground (arith, f.tight, longer);
        holds = set-Holds buf l c f.holds (omega (arith, f.size));
      },
      longer,
    )

-- The loop on a line: the block that it leaves, and the NUL that is still to be written.
reply_loop-end :
    (junk : ℕ) (cs rest : List ℕ) (end : Ending) (cap j : ℕ) (buf l : List ℕ)
    → NoNewline cs
    → Filled cap j buf l
    → (cap' : ℕ) × (j' : ℕ) × (b : List ℕ) × (reply_loop junk
          (cs ++ newline ∷ rest)
          end
          cap
          (length l)
          buf
        ≡ end_reply (length (l ++ (cs ++ newline ∷ []))) b rest)
      × Filled cap' j' b (l ++ (cs ++ newline ∷ []))
      × (cap' < 2 * length (l ++ (cs ++ newline ∷ [])) ⊎ (cap' ≡ 8))
unfolding reply_loop
reply_loop-end junk [] rest end cap j buf l free f =
    let (j', f', room) = reply_room-Filled junk cap j buf l f in
    let cap' = (reply_room junk cap (length l) buf).0 in
    let buf' = (reply_room junk cap (length l) buf).1 in
    let (puts, f'', longer) = put-Filled cap' j' newline buf' l f' room in
    (
      cap',
      j',
      set buf' (length l) newline,
      rw (puts, longer, reply_loop) refl,
      f'',
      ground (arith, f'.tight, longer),
    )
reply_loop-end junk (c ∷ cs) rest end cap j buf l free f =
    let other : (c == newline) ≡ false = ground (arith, free.0) in
    let (j', f', room) = reply_room-Filled junk cap j buf l f in
    let cap' = (reply_room junk cap (length l) buf).0 in
    let buf' = (reply_room junk cap (length l) buf).1 in
    let (puts, f'', longer) = put-Filled cap' j' c buf' l f' room in
    let all : (l ++ c ∷ []) ++ (cs ++ newline ∷ []) ≡ l ++ c ∷ (cs ++ newline ∷ []) =
      append_assoc l (c ∷ []) (cs ++ newline ∷ []) in
    let (cap'', j'', b, runs, f3, tight) =
      reply_loop-end junk cs rest end cap' j' (set buf' (length l) c) (l ++ c ∷ []) free.1 f'' in
    (
      cap'',
      j'',
      b,
      rw (puts, other, reply_loop) (rw longer at runs)
          ∙ ap (λ xs. end_reply (length xs) b rest) all,
      subst (Filled cap'' j'' b) all f3,
      subst (λ xs. cap'' < 2 * length xs ⊎ (cap'' ≡ 8)) all tight,
    )

abbrev line_of : List ℕ → List ℕ
line_of cs = cs ++ newline ∷ []

-- What `input_reply` does on a line, in terms of the block at its end.
input_reply-end :
    (junk : ℕ) (cs rest : List ℕ) (end : Ending)
    → NoNewline cs
    → (cap' : ℕ) × (j' : ℕ) × (b : List ℕ) × (input_reply junk (cs ++ newline ∷ rest) end
        ≡ end_reply (length (line_of cs)) b rest)
      × Filled cap' j' b (line_of cs)
      × (cap' < 2 * length (line_of cs) ⊎ (cap' ≡ 8))
unfolding input_reply
input_reply-end junk cs rest end free =
    let start = replicate bufinit junk in
    reply_loop-end junk cs rest end bufinit 0 start [] free (record {
      size = length-replicate bufinit junk;
      power = refl;
      tight = inl refl;
      holds = Holds-nil start;
    })

-- A line whose length, with the line feed, is 8 times a power of two fills the block, and the NUL
-- is written behind its end.
pub input_reply-overrun :
    (junk : ℕ) (cs rest : List ℕ) (end : Ending) (k : ℕ)
    → NoNewline cs
    → suc (length cs) ≡ 8 * 2 ^ k
    → input_reply junk (cs ++ newline ∷ rest) end ≡ overrun
unfolding end_reply
input_reply-overrun junk cs rest end k free e =
    let (size, j, b, runs, f, tight) = input_reply-end junk cs rest end free in
    let long : length (line_of cs) ≡ suc (length cs) =
      omega (arith, length-append cs (newline ∷ [])) in
    runs
    ∙ rw (put_byte-out b (length (line_of cs)) 0 (outside size j b f tight long), end_reply) refl
  where
    outside :
        (size j : ℕ) (b : List ℕ)
        → Filled size j b (line_of cs)
        → (size < 2 * length (line_of cs) ⊎ (size ≡ 8))
        → length (line_of cs) ≡ suc (length cs)
        → length b ≤ length (line_of cs)
    outside size j b f tight long = elim (Bool-cases (ltb (2 ^ k) (2 ^ j))) [
      | inl lt ↦
          absurd (ground (arith, pow_gap k j (ltb→lt _ _ lt), tight, long, f.power, pow_pos k))
      | inr ge ↦ ground (arith, f.size, f.power, long)
    ]

-- On a line of any other length `input_reply` returns a block that begins with the line, its line
-- feed and a NUL, leaves the input behind the line, and writes nothing outside of the block.
pub input_reply-reply :
    (junk : ℕ) (cs rest : List ℕ) (end : Ending)
    → NoNewline cs
    → ((k : ℕ) → suc (length cs) ≢ 8 * 2 ^ k)
    → (b : List ℕ) × (input_reply junk (cs ++ newline ∷ rest) end ≡ reply b rest)
      × (take (suc (suc (length cs))) b ≡ cs ++ newline ∷ 0 ∷ [])
unfolding end_reply
input_reply-reply junk cs rest end free other =
    let (size, j, b, runs, f, tight) = input_reply-end junk cs rest end free in
    let long : length (line_of cs) ≡ suc (length cs) =
      omega (arith, length-append cs (newline ∷ [])) in
    let inside : length (line_of cs) < length b =
      ground (arith, f.holds.room, other j, f.size, f.power, long) in
    let held = set-Holds b (line_of cs) 0 f.holds inside in
    let whole : line_of cs ++ 0 ∷ [] ≡ cs ++ newline ∷ 0 ∷ [] =
      append_assoc cs (newline ∷ []) (0 ∷ []) in
    (
      set b (length (line_of cs)) 0,
      runs ∙ rw (put_byte-ok b (length (line_of cs)) 0 inside, end_reply) refl,
      ap (λ n. take n (set b (length (line_of cs)) 0)) {x = suc (suc (length cs))}
            {y = length (line_of cs ++ 0 ∷ [])}
            (omega (arith, long, length-append (line_of cs) (0 ∷ [])))
          ∙ held.same
          ∙ whole,
    )
