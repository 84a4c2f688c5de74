-- ===== src/Ls.antt =====
-- 02-file-io/ls.c: the names in a directory with their modes.
pub mod Letters
pub mod Listing
mod Tests
use linux_system_programming.Prelude.{
  ℕ, zero, suc, ◌+◌, ◌*◌, ◌/◌, ◌%◌, Bool, true, false, Option, none, some, List, [], ◌∷◌, ◌++◌,
  ◌==◌, ltb, leb, if◌then◌else◌, length,
}
use linux_system_programming.Buffers.{put_bytes, enlarge}
use linux_system_programming.Transfers.Print.{until_nul}

-- struct Mode, with the number of the bit
pub record Mode : Type 0 where
  pub bit : ℕ
  pub name : ℕ

abbrev mode_of : ℕ → ℕ → Mode
mode_of bit name = record { bit = bit; name = name }

-- From S_IRUSR to S_IXOTH.
abbrev pub modes : List Mode
modes =
    mode_of 256 b'r'
    ∷ (mode_of 128 b'w'
        ∷ (mode_of 64 b'x'
            ∷ (mode_of 32 b'r'
                ∷ (mode_of 16 b'w'
                    ∷ (mode_of 8 b'x'
                        ∷ (mode_of 4 b'r' ∷ (mode_of 2 b'w' ∷ (mode_of 1 b'x' ∷ []))))))))

-- mode & modes[i].bit
abbrev pub has_bit : ℕ → ℕ → Bool
has_bit mode bit = (mode / bit) % 2 == 1

unfoldable pub letters : List Mode → ℕ → List ℕ
letters [] mode = []
letters (m ∷ ms) mode = (if has_bit mode m.bit then m.name else b'-') ∷ letters ms mode

unfoldable pub print_mode : ℕ → List ℕ
unfolding letters
print_mode mode = letters modes mode ++ b'\n' ∷ []

-- while(len >= cap) { cap *= 2; … }, on fuel.
unfoldable pub grow : ℕ → ℕ → ℕ → Option ℕ
grow zero len cap = none
grow (suc fuel) len cap =
    let rest = grow fuel len (cap * 2) in if leb cap len then rest else some cap

-- strcpy(path, s) and strcat(path, s)
unfoldable pub copy_text : List ℕ → List ℕ → Option (List ℕ)
unfolding put_bytes
copy_text path s = put_bytes path 0 (s ++ 0 ∷ [])

unfoldable pub append_text : List ℕ → List ℕ → Option (List ℕ)
unfolding put_bytes until_nul
append_text path s = put_bytes path (length (until_nul path)) (s ++ 0 ∷ [])

-- How `main` ends: with what it has printed; with a write behind `path`; or growing, for want of
-- fuel.
pub data Listed : Type 0 where
  listed : (out : List ℕ) → Listed
  overrun : Listed
  out_of_fuel : Listed

-- strcpy(path, argv[1]); strcat(path, "/"); strcat(path, name);
unfoldable pub join : List ℕ → List ℕ → List ℕ → Option (List ℕ)
unfolding copy_text append_text
join dir name path = elim (copy_text path dir) [
  | none ↦ none
  | some p ↦ elim (append_text p (b'/' ∷ [])) [ none ↦ none | some q ↦ append_text q name ]
]

-- What is printed of a path, where stat gives whether it is a directory, and its mode.
unfoldable pub entry : List ℕ → Option (Bool × ℕ) → List ℕ
unfolding print_mode
entry path none = []
entry path (some (is_dir, mode)) =
    path ++ (b' ' ∷ ((if is_dir then b'd' else b'-') ∷ print_mode mode))

-- The `while` over the names that readdir gives; `path` is the block of `cap` bytes.
unfoldable pub entries :
    ℕ → ℕ → (List ℕ → Option (Bool × ℕ)) → List ℕ → List (List ℕ) → ℕ → List ℕ → List ℕ → Listed
unfolding grow join entry enlarge until_nul
entries fuel junk stat dir [] cap path out = listed out
entries fuel junk stat dir (name ∷ names) cap path out =
    elim (grow fuel (length dir + length name + 1) cap) [
      | none ↦ out_of_fuel
      | some cap' ↦ elim (join dir name (enlarge junk path cap')) [
        | none ↦ overrun
        | some p ↦
            entries fuel junk stat dir names cap' p
              (out ++ entry (until_nul p) (stat (until_nul p)))
      ]
    ]

-- The first capacity of the block.
abbrev pub first_cap : ℕ
first_cap = 4

-- `main` with a directory that opens, and a block whose bytes are arbitrary.
unfoldable pub main :
    ℕ → ℕ → (List ℕ → Option (Bool × ℕ)) → List ℕ → List (List ℕ) → List ℕ → Listed
unfolding entries
main fuel junk stat dir names path = entries fuel junk stat dir names first_cap path []
