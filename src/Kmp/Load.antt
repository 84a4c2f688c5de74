-- ===== src/Kmp/Load.antt =====
-- The block that `read_str_buf` leaves, and what the program finds in it.
use linux_system_programming.Prelude.{
  ℕ, zero, suc, ◌+◌, ◌*◌, ◌<◌, ◌≤◌, ◌≡◌, refl, sym, ap, ◌∙◌, inl, inr, Bool, true, false, some,
  List, [], ◌∷◌, ◌++◌, ℤ, int_max, arith, ltb, leb, Bool-cases, length, set, take, drop, replicate,
  length-append, length-drop, length-set, length-replicate, append_assoc, append-nil, subst,
}
use linux_system_programming.Buffers.{put_byte, enlarge}
use linux_system_programming.Buffers.Holds.{
  Holds, Holds-nil, put_byte-ok, enlarge-Holds, length-enlarge,
}
use linux_system_programming.Transfers.Print.{Chunk}
use linux_system_programming.Kmp.{find}
use linux_system_programming.Kmp.Count.{occurrences}
use linux_system_programming.Kmp.Search.{reported, find-occurrences}
use linux_system_programming.Kmp.File.{
  read_size, read_behind, loaded, grow, take_in, load_loop, closing, read_str_buf, finds, found,
  main, Gives, gives_end, gives,
}

take-append : (xs ys : List ℕ) → take (length xs) (xs ++ ys) ≡ xs
take-append [] ys = refl
take-append (x ∷ xs) ys = ap (x ∷◌) (take-append xs ys)

take-set_behind : (n v : ℕ) (xs : List ℕ) → take n (set xs n v) ≡ take n xs
take-set_behind zero v xs = refl
take-set_behind (suc n) v [] = refl
take-set_behind (suc n) v (x ∷ xs) = ap (x ∷◌) (take-set_behind n v xs)

read_behind-ok :
    (bytes block l : List ℕ)
    → Holds block l
    → length l + length bytes < length block
    → (b : List ℕ) × (read_behind bytes (length l) block ≡ some b)
      × Holds b (l ++ bytes)
      × (length b ≡ length block)
unfolding read_behind
read_behind-ok bytes block l h lt =
    let rest = drop (length l + length bytes) block in
    let left = length-drop (length l + length bytes) block in
    let fits : ltb (length block) (length l + length bytes) ≡ false = ground (arith, lt) in
    let joined = length-append l (bytes ++ rest) in
    let tail = length-append bytes rest in
    let both = length-append l bytes in
    (
      l ++ (bytes ++ rest),
      rw (fits, h.same) refl,
      record {
        room = omega (arith, joined, tail, both);
        same =
            ap (take (length (l ++ bytes))) (sym (append_assoc l bytes rest))
            ∙ take-append (l ++ bytes) rest;
      },
      omega (arith, joined, tail, left, lt),
    )

set_behind-Holds : (b l : List ℕ) (v : ℕ) → Holds b l → Holds (set b (length l) v) l
set_behind-Holds b l v h = record {
  room = omega (arith, h.room, length-set b (length l) v);
  same = take-set_behind (length l) v b ∙ h.same;
}

take_in-ok :
    (bytes block l : List ℕ)
    → Holds block l
    → length l + length bytes < length block
    → (b : List ℕ) × (take_in bytes (length l) block ≡ some b)
      × Holds b (l ++ bytes)
      × (length b ≡ length block)
unfolding take_in
take_in-ok bytes block l h lt =
    let (b, reads, holds, long) = read_behind-ok bytes block l h lt in
    let both = length-append l bytes in
    let at : length l + length bytes ≡ length (l ++ bytes) = omega (arith, both) in
    (
      set b (length (l ++ bytes)) 0,
      rw (take_in, reads)
          (ap (λ i. put_byte b i 0) at
            ∙ put_byte-ok b (length (l ++ bytes)) 0 (omega (arith, both, lt, long))),
      set_behind-Holds b (l ++ bytes) 0 holds,
      length-set b (length (l ++ bytes)) 0 ∙ long,
    )

-- What a block can hold of which the capacity is an `int`: 2 ^ 30.
abbrev pub most : ℕ
most = 1073741824

-- The block holds what is read, and has room for a read more.
record Ready (capacity n : ℕ) (block l : List ℕ) : Type 0 where
  pub size : length block ≡ capacity + 1
  pub room : n + read_size ≤ capacity
  pub length_read : n ≡ length l
  pub holds : Holds block l

grow-Ready :
    (junk capacity n : ℕ) (b l : List ℕ)
    → length b ≡ capacity + 1
    → n ≤ capacity
    → read_size ≤ capacity
    → n ≡ length l
    → Holds b l
    → n + read_size ≤ most
    → (capacity' : ℕ) × (b' : List ℕ) × (grow junk capacity n b ≡ some (capacity', b'))
      × Ready capacity' n b' l
unfolding grow
grow-Ready junk capacity n b l size le big e h few =
    elim (Bool-cases (ltb capacity (n + read_size))) [
      | inl more ↦
          let fits : leb (capacity * 2) int_max ≡ true = ground (arith, more, few) in
          (
            capacity * 2,
            enlarge junk b (capacity * 2 + 1),
            rw (more, fits) refl,
            record {
              size = length-enlarge junk (capacity * 2 + 1) b (omega (arith, size));
              room = omega (arith, le, big);
              length_read = e;
              holds = enlarge-Holds junk (capacity * 2 + 1) b l h;
            },
          )
      | inr enough ↦ (
        capacity,
        b,
        rw enough refl,
        record { size = size; room = ground (arith, enough); length_read = e; holds = h },
      )
    ]

load_loop-file :
    (junk capacity n : ℕ) (block l file : List ℕ) (calls : List Chunk)
    → Ready capacity n block l
    → Gives calls file
    → length l + length file + read_size ≤ most
    → (b : List ℕ) × (load_loop junk calls capacity n block ≡ loaded b (length (l ++ file)))
      × Holds b (l ++ file)
unfolding load_loop
load_loop-file junk capacity n block l file calls r gives_end few =
    let e = append-nil l in
    (
      block,
      ap (loaded block) (r.length_read ∙ ap length (sym e)),
      subst (Holds block) (sym e) r.holds,
    )
load_loop-file junk capacity n block l file calls r (gives {calls = later} {file = more} c cs le g)
      few =
    let bytes = c ∷ cs in
    let (b, takes, holds, long) =
      take_in-ok bytes block l r.holds (omega (arith, le, r.size, r.room, r.length_read)) in
    let taken : take_in bytes n block ≡ some b =
      ap (λ i. take_in bytes i block) r.length_read ∙ takes in
    let both = length-append l bytes in
    let whole = length-append bytes more in
    let (capacity', b'', grows, ready) =
      grow-Ready junk capacity (n + length bytes) b (l ++ bytes) (omega (arith, long, r.size))
        (omega (arith, le, r.room)) (omega (arith, r.room)) (omega (arith, r.length_read, both))
        holds (omega (arith, r.length_read, few, whole)) in
    let (b', runs, holds') =
      load_loop-file junk capacity' (n + length bytes) b'' (l ++ bytes) more later ready g
        (omega (arith, few, both, whole)) in
    let e = append_assoc l bytes more in
    (
      b',
      rw (load_loop, taken, grows) (runs ∙ ap (λ f. loaded b' (length f)) e),
      subst (Holds b') e holds',
    )

-- If open and close succeed and read hands over the file, of at most 2 ^ 30 - 512 bytes, `read_str_buf` writes nothing outside of
-- its block, and returns 0 with the length of the file and a block that begins with its bytes.
pub read_str_buf-file :
    (junk : ℕ) (calls : List Chunk) (file : List ℕ)
    → Gives calls file
    → length file + read_size ≤ most
    → (block : List ℕ) × (read_str_buf true true junk calls ≡ loaded block (length file))
      × (take (length file) block ≡ file)
unfolding read_str_buf
read_str_buf-file junk calls file g few =
    let start : Ready read_size 0 (replicate (read_size + 1) junk) [] = record {
      size = length-replicate (read_size + 1) junk;
      room = omega arith;
      length_read = refl;
      holds = Holds-nil (replicate (read_size + 1) junk);
    } in
    let (b, runs, holds) =
      load_loop-file junk read_size 0 (replicate (read_size + 1) junk) [] file calls start g
        (omega (arith, few)) in
    (b, ap (closing true) runs, holds.same)

-- The program on a file of at most 2 ^ 30 - 512 bytes and a pattern that is not empty and not longer
-- than the file, where open, close and the opening of the output succeed: no `int` overflows and it reports each occurrence of the pattern in the
-- file once, up to the first write that fails.
pub main-occurrences :
    (writes : ℕ → Bool) (junk : ℕ) (raw : List ℤ) (calls : List Chunk) (file p : List ℕ)
    → Gives calls file
    → length file + read_size ≤ most
    → length raw ≡ suc (length p)
    → 0 < length p
    → length p ≤ length file
    → main true true true writes junk raw calls p ≡ finds (reported writes 0 (occurrences p file))
unfolding main
main-occurrences writes junk raw calls file p g few size some_p le =
    let (b, runs, text) = read_str_buf-file junk calls file g few in
    rw (runs, main)
      (ap (λ t. found (find true writes raw t p)) text
        ∙ ap found (find-occurrences writes raw file p size some_p le))
