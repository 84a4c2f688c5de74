-- ===== src/Buffers/Shell.antt =====
-- 04-process-management/shell.c: make_buffer_or_exit and ezsh_read_line, up to the NUL.
use linux_system_programming.Prelude.{
  ℕ, suc, ◌+◌, ◌*◌, ◌<◌, ◌≤◌, ◌≡◌, refl, ap, ◌∙◌, ◌≢◌, inl, inr, Bool, true, false, Option, none,
  some, List, [], ◌∷◌, ◌++◌, arith, ◌==◌, int_max, leb, if◌then◌else◌, Bool-cases, length, set,
  take, replicate, length-append, length-set, length-replicate, append_assoc, subst,
}
use linux_system_programming.Buffers.{put_byte, copy_bytes}
use linux_system_programming.Buffers.Holds.{
  Holds, Holds-nil, set-Holds, put_byte-ok, copy_bytes-Holds, length-copy_bytes,
}

-- CAPINIT
abbrev pub capinit : ℕ
capinit = 8

-- '\n'
abbrev pub newline : ℕ
newline = 10

-- How a call of `ezsh_read_line` ends: with the block and the input that is left, by `exit`, or
-- with a write outside of the block or an `int` that overflows.
pub data Line : Type 0 where
  line : (buf rest : List ℕ) → Line
  exits : (code : ℕ) → Line
  overrun : Line

-- What stands behind the bytes of stdin.
pub data Ending : Type 0 where
  at_eof at_error : Ending

-- `grants n` says whether malloc gives n bytes, and `junk` what they hold.
unfoldable pub make_buffer_or_exit : (ℕ → Bool) → ℕ → ℕ → Option (List ℕ)
make_buffer_or_exit grants junk n = if grants n then some (replicate n junk) else none

-- The capacity and the block to write the next byte in; or the program exits; or `cap * 2 + 1`
-- overflows.
pub data Room : Type 0 where
  room : (cap : ℕ) (buf : List ℕ) → Room
  no_memory overflow : Room

-- The block with its new capacity, once `cap * 2 + 1` is known to be an `int`.
unfoldable pub enlarge_or_exit : (ℕ → Bool) → ℕ → ℕ → ℕ → List ℕ → Room
unfolding make_buffer_or_exit
enlarge_or_exit grants junk cap len buf = elim (make_buffer_or_exit grants junk (cap * 2 + 1)) [
  | none ↦ no_memory
  | some tmp ↦ room (cap * 2) (copy_bytes len buf tmp)
]

unfoldable pub make_room : (ℕ → Bool) → ℕ → ℕ → ℕ → List ℕ → Room
unfolding enlarge_or_exit
make_room grants junk cap len buf =
    if len == cap
    then (if leb (cap * 2 + 1) int_max then enlarge_or_exit grants junk cap len buf else overflow)
    else room cap buf

-- `buf[len] = '\0'; return buf;`
unfoldable pub end_line : ℕ → List ℕ → List ℕ → Line
end_line len buf rest = elim (put_byte buf len 0) [ none ↦ overrun | some b ↦ line b rest ]

-- The tests of `ferror` and `feof` where `fgetc` has returned EOF.
abbrev pub exit_code : Ending → ℕ
exit_code at_error = 1
exit_code at_eof = 0

-- The `while`, and the tests of `ferror` and `feof` behind it.
unfoldable pub read_loop : (ℕ → Bool) → ℕ → List ℕ → Ending → ℕ → ℕ → List ℕ → Line
unfolding end_line make_room
read_loop grants junk [] end cap len buf = exits (exit_code end)
read_loop grants junk (c ∷ input) end cap len buf = elim (c == newline) [
  | true ↦ end_line len buf input
  | false ↦ elim (make_room grants junk cap len buf) [
    | no_memory ↦ exits 1
    | overflow ↦ overrun
    | room cap' buf' ↦ elim (put_byte buf' len c) [
      | none ↦ overrun
      | some b ↦ read_loop grants junk input end cap' (suc len) b
    ]
  ]
]

unfoldable pub ezsh_read_line : (ℕ → Bool) → ℕ → List ℕ → Ending → Line
unfolding read_loop make_buffer_or_exit
ezsh_read_line grants junk input end = elim (make_buffer_or_exit grants junk (capinit + 1)) [
  | none ↦ exits 1
  | some buf ↦ read_loop grants junk input end capinit 0 buf
]

-- The bytes hold no line feed.
abbrev pub NoNewline : List ℕ → Type 0
NoNewline [] = Unit
NoNewline (c ∷ cs) = (c ≢ newline) × NoNewline cs

abbrev pub always : ℕ → Bool
always n = true

-- A block of `cap` + 1 bytes that begins with `l`.
pub record Filled (cap : ℕ) (buf l : List ℕ) : Type 0 where
  pub size : length buf ≡ cap + 1
  pub fits : length l ≤ cap
  pub some_cap : 0 < cap
  pub holds : Holds buf l

-- What a block can hold of which the capacity is an `int`: 2 ^ 30.
abbrev pub most : ℕ
most = 1073741824

-- Room for one more byte, whether the block was full or not.
make_room-Filled :
    (junk cap : ℕ) (buf l : List ℕ)
    → Filled cap buf l
    → length l < most
    → (cap' : ℕ) × (buf' : List ℕ) × (make_room always junk cap (length l) buf ≡ room cap' buf')
      × Filled cap' buf' l
      × (length l < cap')
unfolding make_room
make_room-Filled junk cap buf l f few = elim (Bool-cases (length l == cap)) [
  | inl full ↦
      let small : leb (cap * 2 + 1) int_max ≡ true = ground (arith, full, few) in
      let tmp = replicate (cap * 2 + 1) junk in
      let got = length-replicate (cap * 2 + 1) junk in
      (
        cap * 2,
        copy_bytes (length l) buf tmp,
        rw (full, small) refl,
        record {
          size = omega (arith, length-copy_bytes (length l) buf tmp, got);
          fits = ground (arith, f.some_cap);
          some_cap = omega (arith, f.some_cap);
          holds = copy_bytes-Holds buf tmp l f.holds (omega (arith, got, f.fits));
        },
        ground (arith, f.some_cap),
      )
  | inr free ↦ (cap, buf, rw free refl, f, ground (arith, f.fits))
]

pub put-Filled :
    (cap c : ℕ) (buf l : List ℕ)
    → Filled cap buf l
    → length l < cap
    → (put_byte buf (length l) c ≡ some (set buf (length l) c))
      × Filled cap (set buf (length l) c) (l ++ c ∷ [])
put-Filled cap c buf l f lt = (
  put_byte-ok buf (length l) c (omega (arith, f.size)),
  record {
    size = length-set buf (length l) c ∙ f.size;
    fits = omega (arith, length-append l (c ∷ []));
    some_cap = f.some_cap;
    holds = set-Holds buf l c f.holds (omega (arith, f.size));
  },
)

read_loop-line :
    (junk : ℕ) (cs rest : List ℕ) (end : Ending) (cap : ℕ) (buf l : List ℕ)
    → NoNewline cs
    → length l + length cs ≤ most
    → Filled cap buf l
    → (b : List ℕ) × (read_loop always junk (cs ++ newline ∷ rest) end cap (length l) buf
        ≡ line b rest)
      × Holds b (l ++ (cs ++ 0 ∷ []))
unfolding read_loop
read_loop-line junk [] rest end cap buf l free few f = (
  set buf (length l) 0,
  rw (put_byte-ok buf (length l) 0 (omega (arith, f.size, f.fits)), read_loop, end_line) refl,
  set-Holds buf l 0 f.holds (omega (arith, f.size, f.fits)),
)
read_loop-line junk (c ∷ cs) rest end cap buf l free few f =
    let other : (c == newline) ≡ false = ground (arith, free.0) in
    let (cap', buf', grows, f', free_byte) =
      make_room-Filled junk cap buf l f (omega (arith, few)) in
    let (puts, f'') = put-Filled cap' c buf' l f' free_byte in
    let longer : length (l ++ c ∷ []) ≡ suc (length l) = omega (arith, length-append l (c ∷ [])) in
    let (b, runs, held) =
      read_loop-line junk cs rest end cap' (set buf' (length l) c) (l ++ c ∷ []) free.1
        (omega (arith, few, longer)) f'' in
    (
      b,
      rw (other, grows, puts, read_loop) (rw longer at runs),
      subst (Holds b) (append_assoc l (c ∷ []) (cs ++ 0 ∷ [])) held,
    )

-- A line of at most 2 ^ 30 bytes, with memory: no `int` overflows, and `ezsh_read_line` returns a block that begins with the line
-- and a NUL, leaves the input behind the line feed, and writes nothing outside of the block.
pub ezsh_read_line-line :
    (junk : ℕ) (cs rest : List ℕ) (end : Ending)
    → NoNewline cs
    → length cs ≤ most
    → (b : List ℕ) × (ezsh_read_line always junk (cs ++ newline ∷ rest) end ≡ line b rest)
      × (take (suc (length cs)) b ≡ cs ++ 0 ∷ [])
unfolding ezsh_read_line
ezsh_read_line-line junk cs rest end free few =
    let start = replicate (capinit + 1) junk in
    let (b, runs, held) =
      read_loop-line junk cs rest end capinit start [] free (omega (arith, few)) (record {
        size = length-replicate (capinit + 1) junk;
        fits = omega arith;
        some_cap = omega arith;
        holds = Holds-nil start;
      }) in
    (
      b,
      runs,
      ap (λ n. take n b) {x = suc (length cs)} {y = length (cs ++ 0 ∷ [])}
            (omega (arith, length-append cs (0 ∷ [])))
          ∙ held.same,
    )

read_loop-exits :
    (junk : ℕ) (cs : List ℕ) (end : Ending) (cap : ℕ) (buf l : List ℕ)
    → NoNewline cs
    → length l + length cs ≤ most
    → Filled cap buf l
    → read_loop always junk cs end cap (length l) buf ≡ exits (exit_code end)
unfolding read_loop
read_loop-exits junk [] end cap buf l free few f = refl
read_loop-exits junk (c ∷ cs) end cap buf l free few f =
    let other : (c == newline) ≡ false = ground (arith, free.0) in
    let (cap', buf', grows, f', free_byte) =
      make_room-Filled junk cap buf l f (omega (arith, few)) in
    let (puts, f'') = put-Filled cap' c buf' l f' free_byte in
    let longer : length (l ++ c ∷ []) ≡ suc (length l) = omega (arith, length-append l (c ∷ [])) in
    rw (other, grows, puts, read_loop)
      (rw longer at (
        read_loop-exits junk cs end cap' (set buf' (length l) c) (l ++ c ∷ []) free.1
          (omega (arith, few, longer)) f''))

-- Without a line feed in the 2 ^ 30 bytes or fewer before the end of the input the program exits, with code 0 at the end of
-- the file and with code 1 at an error: what was read of a last line is dropped.
pub ezsh_read_line-exits :
    (junk : ℕ) (cs : List ℕ) (end : Ending)
    → NoNewline cs
    → length cs ≤ most
    → ezsh_read_line always junk cs end ≡ exits (exit_code end)
unfolding ezsh_read_line
ezsh_read_line-exits junk cs end free few =
    let start = replicate (capinit + 1) junk in
    read_loop-exits junk cs end capinit start [] free (omega (arith, few)) (record {
      size = length-replicate (capinit + 1) junk;
      fits = omega arith;
      some_cap = omega arith;
      holds = Holds-nil start;
    })
