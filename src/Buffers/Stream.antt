-- ===== src/Buffers/Stream.antt =====
-- 03-buffered-io/fgetc_buffer.c: a file is read byte by byte into a block that doubles, and printed.
use linux_system_programming.Prelude.{
  ℕ, suc, ◌+◌, ◌*◌, ◌<◌, ◌≤◌, ◌≡◌, refl, ap, ◌∙◌, inl, inr, Option, none, some, List, [], ◌∷◌, ◌++◌,
  arith, ◌==◌, int_max, leb, true, if◌then◌else◌, Bool-cases, length, set, take, replicate,
  length-append, length-replicate, append_assoc, append-nil, subst, sym,
}
use linux_system_programming.Buffers.{put_byte, copy_bytes}
use linux_system_programming.Buffers.Holds.{
  Holds, Holds-nil, set-Holds, put_byte-ok, copy_bytes-Holds, length-copy_bytes,
}
use linux_system_programming.Buffers.Shell.{Ending, at_eof, at_error, most, Filled, put-Filled}
use linux_system_programming.Transfers.Print.{until_nul}

-- INIT_BUF
abbrev pub init_buf : ℕ
init_buf = 32

-- How `main` ends: with the text that it prints, with 1, or with a write outside of the block or an
-- `int` that overflows.
pub data Printed : Type 0 where
  prints : (text : List ℕ) → Printed
  returns_1 : Printed
  overrun : Printed

-- The capacity and the block to write the next byte in; nothing where `cap *= 2` overflows. The size
-- for malloc is computed as a size_t.
unfoldable pub double_full : ℕ → ℕ → ℕ → List ℕ → Option (ℕ × List ℕ)
unfolding copy_bytes
double_full junk cap len buf =
    if len == cap
    then (if leb (cap * 2) int_max
        then some (cap * 2, copy_bytes cap buf (replicate (cap * 2 + 1) junk))
        else none)
    else some (cap, buf)

-- The end of `main`, once fgetc has returned EOF.
unfoldable pub print_buf : Ending → ℕ → List ℕ → Printed
unfolding put_byte until_nul
print_buf at_error len buf = returns_1
print_buf at_eof len buf = elim (put_byte buf len 0) [
  | none ↦ overrun
  | some b ↦ prints (until_nul b)
]

-- The `while`, for the bytes of the stream.
unfoldable pub fgetc_loop : ℕ → List ℕ → Ending → ℕ → ℕ → List ℕ → Printed
unfolding double_full print_buf put_byte
fgetc_loop junk [] end cap len buf = print_buf end len buf
fgetc_loop junk (c ∷ input) end cap len buf = elim (double_full junk cap len buf) [
  | none ↦ overrun
  | some (cap', buf') ↦ elim (put_byte buf' len c) [
    | none ↦ overrun
    | some b ↦ fgetc_loop junk input end cap' (suc len) b
  ]
]

-- `argc`, and what fopen gives: the bytes of the file and what ends them.
unfoldable pub main : ℕ → ℕ → Option (List ℕ × Ending) → Printed
unfolding fgetc_loop
main junk argc none = returns_1
main junk argc (some (input, end)) =
    if argc == 2
    then fgetc_loop junk input end init_buf 0 (replicate (init_buf + 1) junk)
    else returns_1

double_full-Filled :
    (junk cap : ℕ) (buf l : List ℕ)
    → Filled cap buf l
    → length l < most
    → (cap' : ℕ) × (buf' : List ℕ) × (double_full junk cap (length l) buf ≡ some (cap', buf'))
      × Filled cap' buf' l
      × (length l < cap')
unfolding double_full
double_full-Filled junk cap buf l f few = elim (Bool-cases (length l == cap)) [
  | inl full ↦
      let e : length l ≡ cap = ground (arith, full) in
      let tmp = replicate (cap * 2 + 1) junk in
      let got = length-replicate (cap * 2 + 1) junk in
      let small : leb (cap * 2) int_max ≡ true = ground (arith, few, full) in
      (
        cap * 2,
        copy_bytes cap buf tmp,
        rw (full, small) refl,
        record {
          size = omega (arith, length-copy_bytes cap buf tmp, got);
          fits = omega (arith, f.some_cap, e);
          some_cap = omega (arith, f.some_cap);
          holds =
              subst (λ n. Holds (copy_bytes n buf tmp) l) e
                (copy_bytes-Holds buf tmp l f.holds (omega (arith, got, f.fits)));
        },
        omega (arith, f.some_cap, e),
      )
  | inr room ↦ (cap, buf, rw room refl, f, ground (arith, f.fits, room))
]

-- A block that begins with given bytes and a NUL shows those bytes up to their first NUL.
until_nul-ended :
    (cs b : List ℕ) → take (suc (length cs)) b ≡ cs ++ 0 ∷ [] → until_nul b ≡ until_nul cs
unfolding until_nul
until_nul-ended [] [] e = refl
until_nul-ended [] (x ∷ b) e = ground (arith, e)
until_nul-ended (c ∷ cs) [] e = cc
until_nul-ended (c ∷ cs) (x ∷ b) e =
    let tails : take (suc (length cs)) b ≡ cs ++ 0 ∷ [] = cc in
    let heads : x ≡ c = cc in rw (heads, until_nul-ended cs b tails) refl

-- What is expected of `main` for a stream that ends so.
abbrev pub shows : List ℕ → Ending → Printed
shows input at_error = returns_1
shows input at_eof = prints (until_nul input)

print_buf-shows :
    (cap : ℕ) (buf l : List ℕ) (end : Ending)
    → Filled cap buf l
    → print_buf end (length l) buf ≡ shows l end
unfolding print_buf
print_buf-shows cap buf l at_error f = refl
print_buf-shows cap buf l at_eof f =
    let lt : length l < length buf = omega (arith, f.size, f.fits) in
    let front : take (suc (length l)) (set buf (length l) 0) ≡ l ++ 0 ∷ [] =
      ap (λ n. take n (set buf (length l) 0)) {x = suc (length l)} {y = length (l ++ 0 ∷ [])}
        (omega (arith, length-append l (0 ∷ [])))
      ∙ (set-Holds buf l 0 f.holds lt).same in
    rw (print_buf, put_byte-ok buf (length l) 0 lt)
      (ap prints (until_nul-ended l (set buf (length l) 0) front))

fgetc_loop-shows :
    (junk : ℕ) (input : List ℕ) (end : Ending) (cap : ℕ) (buf l : List ℕ)
    → Filled cap buf l
    → length l + length input ≤ most
    → fgetc_loop junk input end cap (length l) buf ≡ shows (l ++ input) end
unfolding fgetc_loop
fgetc_loop-shows junk [] end cap buf l f few =
    print_buf-shows cap buf l end f ∙ ap (λ k. shows k end) (sym (append-nil l))
fgetc_loop-shows junk (c ∷ input) end cap buf l f few =
    let (cap', buf', grows, g, free) = double_full-Filled junk cap buf l f (omega (arith, few)) in
    let p = put-Filled cap' c buf' l g free in
    let longer : length (l ++ c ∷ []) ≡ suc (length l) = omega (arith, length-append l (c ∷ [])) in
    rw (grows, p.0, fgetc_loop)
      ((rw longer at (
          fgetc_loop-shows junk input end cap' (set buf' (length l) c) (l ++ c ∷ []) p.1
            (omega (arith, few, longer))))
        ∙ ap (λ k. shows k end) (append_assoc l (c ∷ []) input))

-- A file of at most 2 ^ 30 bytes: no `int` overflows, and `main` prints what stands before its first NUL, or returns 1 where reading
-- fails, and writes nothing outside of its blocks.
pub fgetc_main-shows :
    (junk : ℕ) (input : List ℕ) (end : Ending)
    → length input ≤ most
    → main junk 2 (some (input, end)) ≡ shows input end
unfolding main
fgetc_main-shows junk input end few =
    fgetc_loop-shows junk input end init_buf (replicate (init_buf + 1) junk) []
      (record {
        size = length-replicate (init_buf + 1) junk;
        fits = omega arith;
        some_cap = omega arith;
        holds = Holds-nil (replicate (init_buf + 1) junk);
      })
      (omega (arith, few))
