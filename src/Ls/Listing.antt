-- ===== src/Ls/Listing.antt =====
-- What ls.c lists, and that each path fits into its block.
use linux_system_programming.Prelude.{
  ℕ, zero, suc, ◌+◌, ◌*◌, ◌≤◌, ◌<◌, ◌≡◌, refl, sym, ap, subst, ◌∙◌, Bool, true, false, Bool-cases,
  inl, inr, Option, none, some, List, [], ◌∷◌, ◌++◌, arith, leb, length, take, length-append,
  append_assoc, append-nil,
}
use linux_system_programming.Buffers.{enlarge}
use linux_system_programming.Buffers.Holds.{
  Holds, Holds-nil, Holds-prefix, put_bytes-Holds, length-enlarge,
}
use linux_system_programming.Sockets.Text.{NoNul, NoNul-append, until_nul-take}
use linux_system_programming.Transfers.Print.{until_nul}
use linux_system_programming.Ls.Letters.{mode_text, print_mode-mode_text}
use linux_system_programming.Ls.{
  grow, copy_text, append_text, join, entry, entries, first_cap, listed, main,
}

grow-fits :
    (k len cap : ℕ)
    → 0 < cap
    → len < cap + k
    → (cap' : ℕ) × (grow (suc k) len cap ≡ some cap') × (len < cap') × (cap ≤ cap')
unfolding grow
grow-fits zero len cap pos lt = (cap, ground (arith, lt), omega (arith, lt), omega arith)
grow-fits (suc k) len cap pos lt = elim (Bool-cases (leb cap len)) [
  | inl e ↦
      let (cap', runs, fits, le) =
        grow-fits k len (cap * 2) (omega (arith, pos)) (omega (arith, pos, lt)) in
      (cap', rw e runs, fits, omega (arith, le))
  | inr e ↦ (cap, rw e refl, ground (arith, e), omega arith)
]

-- The block has the C string `t`.
abbrev HasText : List ℕ → List ℕ → Type 0
HasText path t = Holds path (t ++ 0 ∷ [])

until_nul-HasText : (path t : List ℕ) → NoNul t → HasText path t → until_nul path ≡ t
until_nul-HasText path t clean h = until_nul-take t path clean (
    ap (λ n. take n path) {x = suc (length t)} {y = length (t ++ 0 ∷ [])}
      (omega (arith, length-append t (0 ∷ [])))
    ∙ h.same)

copy_text-HasText :
    (path s : List ℕ)
    → length s < length path
    → (p : List ℕ) × (copy_text path s ≡ some p) × HasText p s × (length p ≡ length path)
unfolding copy_text
copy_text-HasText path s lt =
    put_bytes-Holds (s ++ 0 ∷ []) [] path (Holds-nil path)
      (omega (arith, lt, length-append s (0 ∷ [])))

append_text-HasText :
    (path t s : List ℕ)
    → NoNul t
    → HasText path t
    → length t + length s < length path
    → (p : List ℕ) × (append_text path s ≡ some p) × HasText p (t ++ s) × (length p ≡ length path)
unfolding append_text
append_text-HasText path t s clean h lt =
    let r =
      put_bytes-Holds (s ++ 0 ∷ []) t path (Holds-prefix path t (0 ∷ []) h)
        (omega (arith, lt, length-append s (0 ∷ []))) in
    (
      r.0,
      rw (until_nul-HasText path t clean h) r.1,
      subst (Holds r.0) (sym (append_assoc t s (0 ∷ []))) r.2,
      r.3,
    )

abbrev slash : List ℕ
slash = b'/' ∷ []

abbrev pub path_of : List ℕ → List ℕ → List ℕ
path_of dir name = (dir ++ slash) ++ name

join-HasText :
    (dir name path : List ℕ)
    → NoNul dir
    → length dir + length name + 1 < length path
    → (p : List ℕ) × (join dir name path ≡ some p)
      × HasText p (path_of dir name)
      × (length p ≡ length path)
unfolding join
join-HasText dir name path clean lt =
    let long = length-append dir slash in
    let c = copy_text-HasText path dir (omega (arith, lt)) in
    let a = append_text-HasText c.0 dir slash clean c.2 (omega (arith, lt, c.3)) in
    let b =
      append_text-HasText a.0 (dir ++ slash) name
        (NoNul-append dir slash clean ((λ e. omega (arith, e)), tt)) a.2
        (omega (arith, lt, c.3, a.3, long)) in
    (b.0, rw (join, c.1, a.1) b.1, b.2, b.3 ∙ (a.3 ∙ c.3))

-- A line of the list: the path, a blank, `d` for a directory or a dash, the mode and a line feed.
abbrev pub described : List ℕ → Option (Bool × ℕ) → List ℕ
described path none = []
described path (some (true, mode)) = path ++ (b' ' ∷ b'd' ∷ mode_text mode)
described path (some (false, mode)) = path ++ (b' ' ∷ b'-' ∷ mode_text mode)

entry-described :
    (path : List ℕ) (found : Option (Bool × ℕ)) → entry path found ≡ described path found
unfolding entry
entry-described path none = refl
entry-described path (some (true, mode)) = rw (print_mode-mode_text mode) refl
entry-described path (some (false, mode)) = rw (print_mode-mode_text mode) refl

-- What is expected for the names.
abbrev pub lines : (List ℕ → Option (Bool × ℕ)) → List ℕ → List (List ℕ) → List ℕ
lines stat dir [] = []
lines stat dir (name ∷ names) =
    described (path_of dir name) (stat (path_of dir name)) ++ lines stat dir names

-- Texts, and short enough for `k` doublings of the block.
abbrev pub AllFit : ℕ → List ℕ → List (List ℕ) → Type 0
AllFit k dir [] = Unit
AllFit k dir (name ∷ names) =
    (NoNul name × (length dir + length name + 1 < first_cap + k)) × AllFit k dir names

entries-listed :
    (k junk : ℕ) (stat : List ℕ → Option (Bool × ℕ)) (dir : List ℕ) (names : List (List ℕ))
    (cap : ℕ) (path out : List ℕ)
    → NoNul dir
    → AllFit k dir names
    → length path ≡ cap
    → first_cap ≤ cap
    → entries (suc k) junk stat dir names cap path out ≡ listed (out ++ lines stat dir names)
unfolding entries
entries-listed k junk stat dir [] cap path out clean fits size le = ap listed (sym (append-nil out))
entries-listed k junk stat dir (name ∷ names) cap path out clean ((text, short), fits) size le =
    let (cap', grows, room, more) =
      grow-fits k (length dir + length name + 1) cap (omega (arith, le))
        (omega (arith, short, le)) in
    let long : length (enlarge junk path cap') ≡ cap' =
      length-enlarge junk cap' path (omega (arith, size, more)) in
    let (p, joins, has, same) =
      join-HasText dir name (enlarge junk path cap') clean (omega (arith, room, long)) in
    let whole =
      NoNul-append (dir ++ slash) name (NoNul-append dir slash clean ((λ e. omega (arith, e)), tt))
        text in
    rw
      (
        entries,
        grows,
        joins,
        until_nul-HasText p (path_of dir name) whole has,
        entry-described (path_of dir name) (stat (path_of dir name)),
      )
      (entries-listed k junk stat dir names cap' p
          (out ++ described (path_of dir name) (stat (path_of dir name))) clean fits (same ∙ long)
          (omega (arith, le, more))
        ∙ ap listed (
            append_assoc out (described (path_of dir name) (stat (path_of dir name)))
              (lines stat dir names)))

-- For a directory and names with no NUL in them, and a block of four bytes: `main` prints for every
-- name that readdir gives the path, `d` or `-`, and the mode, in order, and nothing where stat fails;
-- the block is always large enough for the path and its NUL, and the doubling ends, on as much fuel
-- as the longest path has bytes.
pub main-listed :
    (k junk : ℕ) (stat : List ℕ → Option (Bool × ℕ)) (dir : List ℕ) (names : List (List ℕ))
    (path : List ℕ)
    → NoNul dir
    → AllFit k dir names
    → length path ≡ first_cap
    → main (suc k) junk stat dir names path ≡ listed (lines stat dir names)
unfolding main
main-listed k junk stat dir names path clean fits size =
    entries-listed k junk stat dir names first_cap path [] clean fits size (omega arith)
