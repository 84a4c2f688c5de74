-- ===== src/Buffers/Server.antt =====
-- 04-process-management/file_server.c: read_line, a request from a socket. The block has no byte
-- to spare, and the NUL goes where the line feed was.
use linux_system_programming.Prelude.{
  ℕ, zero, suc, ◌*◌, ◌<◌, ◌≡◌, refl, ap, ◌∙◌, inl, inr, Bool, true, false, Option, none, some, List,
  [], ◌∷◌, ◌++◌, arith, ◌==◌, if◌then◌else◌, Bool-cases, length, set, take, replicate,
  length-append, length-set, length-replicate, append_assoc, subst, map,
}
use linux_system_programming.Buffers.{put_byte, enlarge}
use linux_system_programming.Buffers.Holds.{
  Holds, Holds-nil, set-Holds, put_byte-ok, enlarge-Holds, length-enlarge,
}
use linux_system_programming.Buffers.Shell.{newline, NoNewline, always}

-- SERV_BUF
abbrev pub serv_buf : ℕ
serv_buf = 8

-- What a call of recv for one byte returns: 1 with the byte, 0, or -1.
pub data Recv : Type 0 where
  byte : (c : ℕ) → Recv
  closed failed : Recv

-- How a call of `read_line` ends; `blocked` where no call of recv returns any more.
pub data Request : Type 0 where
  request : (buf : List ℕ) (rest : List Recv) → Request
  null_result : Request
  blocked : Request
  overrun : Request

-- `grants n` says whether realloc gives n bytes.
unfoldable pub more_room : (ℕ → Bool) → ℕ → ℕ → ℕ → List ℕ → Option (ℕ × List ℕ)
more_room grants junk cap len buf =
    if len == cap
    then (if grants (cap * 2) then some (cap * 2, enlarge junk buf (cap * 2)) else none)
    else some (cap, buf)

-- `buf[len - 1] = '\0'; return buf;` where `last` is len - 1.
unfoldable pub end_request : ℕ → List ℕ → List Recv → Request
end_request last buf rest = elim (put_byte buf last 0) [ none ↦ overrun | some b ↦ request b rest ]

-- The `while`.
unfoldable pub request_loop : (ℕ → Bool) → ℕ → List Recv → ℕ → ℕ → List ℕ → Request
unfolding more_room end_request
request_loop grants junk [] cap len buf = blocked
request_loop grants junk (r ∷ rs) cap len buf = elim (more_room grants junk cap len buf) [
  | none ↦ null_result
  | some (cap', buf') ↦ elim r [
    | byte c ↦ elim (put_byte buf' len c) [
      | none ↦ overrun
      | some b ↦ elim (c == newline) [
        | true ↦ end_request len b rs
        | false ↦ request_loop grants junk rs cap' (suc len) b
      ]
    ]
    | closed ↦ null_result
    | failed ↦ null_result
  ]
]

-- The result of the first malloc is not tested: it is taken to succeed.
unfoldable pub read_line : (ℕ → Bool) → ℕ → List Recv → Request
unfolding request_loop
read_line grants junk rs = request_loop grants junk rs serv_buf 0 (replicate serv_buf junk)

-- A block of `cap` bytes that begins with `l`.
record Filled (cap : ℕ) (buf l : List ℕ) : Type 0 where
  size : length buf ≡ cap
  some_cap : 0 < cap
  holds : Holds buf l

more_room-Filled :
    (junk cap : ℕ) (buf l : List ℕ)
    → Filled cap buf l
    → (cap' : ℕ) × (buf' : List ℕ) × (more_room always junk cap (length l) buf ≡ some (cap', buf'))
      × Filled cap' buf' l
      × (length l < cap')
unfolding more_room
more_room-Filled junk cap buf l f = elim (Bool-cases (length l == cap)) [
  | inl full ↦ (
    cap * 2,
    enlarge junk buf (cap * 2),
    rw full refl,
    record {
      size = length-enlarge junk (cap * 2) buf (omega (arith, f.size));
      some_cap = omega (arith, f.some_cap);
      holds = enlarge-Holds junk (cap * 2) buf l f.holds;
    },
    ground (arith, f.some_cap),
  )
  | inr room ↦ (cap, buf, rw room refl, f, ground (arith, f.holds.room, f.size))
]

put-Filled :
    (cap c : ℕ) (buf l : List ℕ)
    → Filled cap buf l
    → length l < cap
    → (put_byte buf (length l) c ≡ some (set buf (length l) c))
      × Filled cap (set buf (length l) c) (l ++ c ∷ [])
put-Filled cap c buf l f lt = (
  put_byte-ok buf (length l) c (omega (arith, f.size)),
  record {
    size = length-set buf (length l) c ∙ f.size;
    some_cap = f.some_cap;
    holds = set-Holds buf l c f.holds (omega (arith, f.size));
  },
)

-- The NUL takes the place of the line feed.
set_twice : (buf : List ℕ) (n v w : ℕ) → set (set buf n v) n w ≡ set buf n w
set_twice [] n v w = refl
set_twice (b ∷ buf) zero v w = refl
set_twice (b ∷ buf) (suc n) v w = ap (◌∷◌ b) (set_twice buf n v w)

request_loop-request :
    (junk : ℕ) (cs : List ℕ) (rest : List Recv) (cap : ℕ) (buf l : List ℕ)
    → NoNewline cs
    → Filled cap buf l
    → (b : List ℕ) × (request_loop always junk
          (map byte cs ++ byte newline ∷ rest)
          cap
          (length l)
          buf
        ≡ request b rest)
      × Holds b (l ++ (cs ++ 0 ∷ []))
unfolding request_loop
request_loop-request junk [] rest cap buf l free f =
    let (cap', buf', grows, f', room) = more_room-Filled junk cap buf l f in
    let (puts, f'') = put-Filled cap' newline buf' l f' room in
    let (puts0, last) = put-Filled cap' 0 buf' l f' room in
    let size = length-set buf' (length l) newline in
    (
      set buf' (length l) 0,
      rw
          (
            grows,
            puts,
            put_byte-ok (set buf' (length l) newline) (length l) 0 (omega (arith, f'.size, size)),
            request_loop,
            end_request,
          )
          (ap (λ b. request b rest) (set_twice buf' (length l) newline 0)),
      last.holds,
    )
request_loop-request junk (c ∷ cs) rest cap buf l free f =
    let other : (c == newline) ≡ false = ground (arith, free.0) in
    let (cap', buf', grows, f', room) = more_room-Filled junk cap buf l f in
    let (puts, f'') = put-Filled cap' c buf' l f' room in
    let longer : length (l ++ c ∷ []) ≡ suc (length l) = omega (arith, length-append l (c ∷ [])) in
    let (b, runs, held) =
      request_loop-request junk cs rest cap' (set buf' (length l) c) (l ++ c ∷ []) free.1 f'' in
    (
      b,
      rw (grows, puts, other, request_loop) (rw longer at runs),
      subst (Holds b) (append_assoc l (c ∷ []) (cs ++ 0 ∷ [])) held,
    )

-- A request line of any length, with memory: `read_line` returns a block that begins with the
-- line and a NUL, leaves what follows the line feed, and writes nothing outside of the block.
pub read_line-request :
    (junk : ℕ) (cs : List ℕ) (rest : List Recv)
    → NoNewline cs
    → (b : List ℕ) × (read_line always junk (map byte cs ++ byte newline ∷ rest) ≡ request b rest)
      × (take (suc (length cs)) b ≡ cs ++ 0 ∷ [])
unfolding read_line
read_line-request junk cs rest free =
    let start = replicate serv_buf junk in
    let (b, runs, held) = request_loop-request junk cs rest serv_buf start [] free (record {
      size = length-replicate serv_buf junk;
      some_cap = omega arith;
      holds = Holds-nil start;
    }) in
    (
      b,
      runs,
      ap (λ n. take n b) {x = suc (length cs)} {y = length (cs ++ 0 ∷ [])}
            (omega (arith, length-append cs (0 ∷ [])))
          ∙ held.same,
    )

-- The client closes the connection, or recv fails, within a line.
pub data Cut : Recv → Type 0 where
  closing : Cut closed
  failing : Cut failed

request_loop-cut :
    (junk : ℕ) (cs : List ℕ) (r : Recv) (rest : List Recv) (cap : ℕ) (buf l : List ℕ)
    → NoNewline cs
    → Cut r
    → Filled cap buf l
    → request_loop always junk (map byte cs ++ r ∷ rest) cap (length l) buf ≡ null_result
unfolding request_loop
request_loop-cut junk [] r rest cap buf l free closing f =
    let (cap', buf', grows, f', room) = more_room-Filled junk cap buf l f in
    rw (grows, request_loop) refl
request_loop-cut junk [] r rest cap buf l free failing f =
    let (cap', buf', grows, f', room) = more_room-Filled junk cap buf l f in
    rw (grows, request_loop) refl
request_loop-cut junk (c ∷ cs) r rest cap buf l free cut f =
    let other : (c == newline) ≡ false = ground (arith, free.0) in
    let (cap', buf', grows, f', room) = more_room-Filled junk cap buf l f in
    let (puts, f'') = put-Filled cap' c buf' l f' room in
    let longer : length (l ++ c ∷ []) ≡ suc (length l) = omega (arith, length-append l (c ∷ [])) in
    rw (grows, puts, other, request_loop)
      (rw longer at
        (request_loop-cut junk cs r rest cap' (set buf' (length l) c) (l ++ c ∷ []) free.1 cut f''))

-- A line that is cut off gives NULL.
pub read_line-cut :
    (junk : ℕ) (cs : List ℕ) (r : Recv) (rest : List Recv)
    → NoNewline cs
    → Cut r
    → read_line always junk (map byte cs ++ r ∷ rest) ≡ null_result
unfolding read_line
read_line-cut junk cs r rest free cut =
    let start = replicate serv_buf junk in
    request_loop-cut junk cs r rest serv_buf start [] free cut (record {
      size = length-replicate serv_buf junk;
      some_cap = omega arith;
      holds = Holds-nil start;
    })
