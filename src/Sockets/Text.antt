-- ===== src/Sockets/Text.antt =====
-- What a program shows of a message: recv into an array, `buf[ret] = '\0'`, printf("%s", buf).
use linux_system_programming.Prelude.{
  ℕ, ◌<◌, ◌≡◌, refl, ◌≢◌, suc, Option, none, some, List, [], ◌∷◌, ◌++◌, arith, length, take,
  replicate, length-replicate,
}
use linux_system_programming.Buffers.{put_byte}
use linux_system_programming.Buffers.Holds.{put_byte-ok, put_byte-out}
use linux_system_programming.Transfers.Print.{
  read_into, until_nul, length-read_into, until_nul-read_into,
}

-- The array has `size` bytes; nothing where the NUL is written behind it.
unfoldable pub shown_text : ℕ → ℕ → List ℕ → Option (List ℕ)
unfolding put_byte read_into until_nul
shown_text size junk bytes =
    elim (put_byte (read_into bytes (replicate size junk)) (length bytes) 0) [
      | none ↦ none
      | some buf ↦ some (until_nul buf)
    ]

pub shown_text-fits :
    (size junk : ℕ) (bytes : List ℕ)
    → length bytes < size
    → shown_text size junk bytes ≡ some (until_nul bytes)
unfolding shown_text
shown_text-fits size junk bytes lt =
    let whole = length-replicate size junk in
    let long = length-read_into bytes (replicate size junk) (omega (arith, lt, whole)) in
    rw
      (
        put_byte-ok (read_into bytes (replicate size junk)) (length bytes) 0
            (omega (arith, lt, long, whole)),
        until_nul-read_into bytes (replicate size junk) (omega (arith, lt, whole)),
        shown_text,
      )
      refl

pub shown_text-full :
    (size junk : ℕ) (bytes : List ℕ) → length bytes ≡ size → shown_text size junk bytes ≡ none
unfolding shown_text
shown_text-full size junk bytes e =
    let whole = length-replicate size junk in
    let long = length-read_into bytes (replicate size junk) (omega (arith, e, whole)) in
    rw
      (
        put_byte-out (read_into bytes (replicate size junk)) (length bytes) 0
            (omega (arith, e, long, whole)),
        shown_text,
      )
      refl

abbrev pub NoNul : List ℕ → Type 0
NoNul [] = Unit
NoNul (c ∷ cs) = (c ≢ 0) × NoNul cs

pub NoNul-append : (cs ds : List ℕ) → NoNul cs → NoNul ds → NoNul (cs ++ ds)
NoNul-append [] ds h k = k
NoNul-append (c ∷ cs) ds h k = (h.0, NoNul-append cs ds h.1 k)

-- A block that begins with a text and a NUL is that text as a C string.
pub until_nul-take :
    (cs b : List ℕ) → NoNul cs → take (suc (length cs)) b ≡ cs ++ 0 ∷ [] → until_nul b ≡ cs
unfolding until_nul
until_nul-take [] [] h e = refl
until_nul-take [] (x ∷ b) h e = ground (arith, e)
until_nul-take (c ∷ cs) [] h e = cc
until_nul-take (c ∷ cs) (x ∷ b) h e =
    let tails : take (suc (length cs)) b ≡ cs ++ 0 ∷ [] = cc in
    let heads : x ≡ c = cc in ground (arith, h.0, heads, until_nul-take cs b h.1 tails)
