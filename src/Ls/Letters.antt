-- ===== src/Ls/Letters.antt =====
-- The letters of a mode are those of POSIX, and they determine its nine bits.
use linux_system_programming.Prelude.{
  ℕ, ◌+◌, ◌*◌, ◌/◌, ◌%◌, ◌≡◌, refl, ap, ◌∙◌, List, [], ◌∷◌, ◌++◌, arith, ◌==◌, if◌then◌else◌,
}
use linux_system_programming.Ls.{letters, print_mode}

-- A bit of a mode, counted from the lowest one.
abbrev pub one_of : ℕ → ℕ → ℕ
one_of letter bit = if bit == 1 then letter else b'-'

-- The letters of the owner, of the group and of the others: in each three, from the high bit to the
-- low one, `r`, `w` and `x`.
abbrev pub rwx : ℕ → List ℕ
rwx bits = one_of b'r' ((bits / 4) % 2) ∷ one_of b'w' ((bits / 2) % 2) ∷ one_of b'x' (bits % 2) ∷ []

abbrev pub mode_text : ℕ → List ℕ
mode_text mode = rwx ((mode / 64) % 8) ++ (rwx ((mode / 8) % 8) ++ (rwx (mode % 8) ++ b'\n' ∷ []))

pub print_mode-mode_text : (mode : ℕ) → print_mode mode ≡ mode_text mode
unfolding print_mode letters
print_mode-mode_text mode =
    let a : mode / 64 % 8 / 4 % 2 ≡ mode / 256 % 2 = omega arith in
    let b : mode / 64 % 8 / 2 % 2 ≡ mode / 128 % 2 = omega arith in
    let c : mode / 64 % 8 % 2 ≡ mode / 64 % 2 = omega arith in
    let d : mode / 8 % 8 / 4 % 2 ≡ mode / 32 % 2 = omega arith in
    let e : mode / 8 % 8 / 2 % 2 ≡ mode / 16 % 2 = omega arith in
    let f : mode / 8 % 8 % 2 ≡ mode / 8 % 2 = omega arith in
    let g : mode % 8 / 4 % 2 ≡ mode / 4 % 2 = omega arith in
    let h : mode % 8 / 2 % 2 ≡ mode / 2 % 2 = omega arith in
    let i : mode % 8 % 2 ≡ mode / 1 % 2 = omega arith in rw (a, b, c, d, e, f, g, h, i) refl

-- The number that three letters stand for.
abbrev pub digit : ℕ → ℕ → ℕ → ℕ
digit r w x =
    (if r == b'r' then 4 else 0) + ((if w == b'w' then 2 else 0) + (if x == b'x' then 1 else 0))

-- The mode that nine letters stand for.
abbrev pub read_mode : List ℕ → ℕ
read_mode (a ∷ b ∷ c ∷ d ∷ e ∷ f ∷ g ∷ h ∷ i ∷ rest) =
    64 * digit a b c + (8 * digit d e f + digit g h i)
read_mode _ = 0

digit-rwx :
    (bits : ℕ)
    → digit (one_of b'r' (bits / 4 % 2)) (one_of b'w' (bits / 2 % 2)) (one_of b'x' (bits % 2))
      ≡ bits % 8
digit-rwx bits = ground arith

-- `print_mode` prints the octal digits of the mode for the owner, the group and the others, in this
-- order and each as `r`, `w` and `x` or dashes, and a line feed; and what it prints determines the
-- nine bits of permissions.
pub read_mode-print_mode :
    (mode : ℕ) → (print_mode mode ≡ mode_text mode) × (read_mode (print_mode mode) ≡ mode % 512)
read_mode-print_mode mode = (
  print_mode-mode_text mode,
  ap read_mode (print_mode-mode_text mode)
      ∙ omega
          (arith, digit-rwx ((mode / 64) % 8), digit-rwx ((mode / 8) % 8), digit-rwx (mode % 8)),
)
