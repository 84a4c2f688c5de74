-- ===== src/Buffers/Tokens.antt =====
-- 04-process-management/shell.c: ezsh_split_line. A cell of `tokens` is the address that it holds,
-- with 0 for NULL; the addresses that strtok returns before NULL are a list.
use linux_system_programming.Prelude.{
  ℕ, suc, ◌+◌, ◌*◌, ◌<◌, ◌≤◌, ◌≡◌, refl, sym, ap, subst, ◌∙◌, Bool, true, false, Option, none, some,
  List, [], ◌∷◌, ◌++◌, arith, leb, if◌then◌else◌, length, set, take, replicate, length-append,
  length-set, length-replicate, append_assoc, append-nil,
}
use linux_system_programming.Buffers.{put_byte, enlarge}
use linux_system_programming.Buffers.Holds.{Holds, Holds-nil, set-Holds, put_byte-ok, put_byte-out}
use linux_system_programming.Buffers.Shell.{capinit}

-- What realloc does: it fails, lets the block grow where it stands, or moves it and frees the old
-- one.
pub data Realloc : Type 0 where
  no_memory : Realloc
  in_place moved : (address : ℕ) → Realloc

-- How a call of `ezsh_split_line` ends: with the array, by `exit`, with a write outside of the
-- array, or with a write to the array that was freed.
pub data Split : Type 0 where
  split : (tokens : List ℕ) → Split
  split_exits : (code : ℕ) → Split
  overrun : Split
  dangling : Split

-- if(n >= cap): the new `cap`, `token` and `tokens`; nothing where `tokens` is freed. The result of
-- realloc goes to `token`, and the test of `tokens` behind it never holds.
unfoldable pub grow_tokens : (ℕ → Realloc) → ℕ → ℕ → ℕ → ℕ → List ℕ → Option (ℕ × ℕ × List ℕ)
grow_tokens reallocs junk cap n token tokens =
    if leb cap n
    then (elim (reallocs (cap * 2)) [
      | no_memory ↦ some (cap * 2, 0, tokens)
      | in_place address ↦ some (cap * 2, address, enlarge junk tokens (cap * 2))
      | moved address ↦ none
    ])
    else some (cap, token, tokens)

-- The `while`, and `tokens[n] = NULL; return tokens;` behind it.
unfoldable pub split_loop : (ℕ → Realloc) → ℕ → List ℕ → ℕ → ℕ → List ℕ → Split
unfolding grow_tokens
split_loop reallocs junk [] cap n tokens = elim (put_byte tokens n 0) [
  | none ↦ overrun
  | some ts ↦ split ts
]
split_loop reallocs junk (token ∷ strtok) cap n tokens =
    elim (grow_tokens reallocs junk cap n token tokens) [
      | none ↦ dangling
      | some (cap', token', tokens') ↦ elim (put_byte tokens' n token') [
        | none ↦ overrun
        | some ts ↦ split_loop reallocs junk strtok cap' (suc n) ts
      ]
    ]

-- `grants` says whether the malloc of 8 cells succeeds.
unfoldable pub ezsh_split_line : Bool → (ℕ → Realloc) → ℕ → List ℕ → Split
unfolding split_loop
ezsh_split_line grants reallocs junk strtok =
    if grants
    then split_loop reallocs junk strtok capinit 0 (replicate capinit junk)
    else split_exits 1

-- An array of `capinit` cells that begins with `l`.
record Filled (tokens l : List ℕ) : Type 0 where
  size : length tokens ≡ capinit
  holds : Holds tokens l

put-Filled :
    (token : ℕ) (tokens l : List ℕ)
    → Filled tokens l
    → length l < capinit
    → (put_byte tokens (length l) token ≡ some (set tokens (length l) token))
      × Filled (set tokens (length l) token) (l ++ token ∷ [])
put-Filled token tokens l f lt = (
  put_byte-ok tokens (length l) token (omega (arith, f.size)),
  record {
    size = length-set tokens (length l) token ∙ f.size;
    holds = set-Holds tokens l token f.holds (omega (arith, f.size));
  },
)

no_growth :
    (reallocs : ℕ → Realloc) (junk n token : ℕ) (tokens : List ℕ)
    → n < capinit
    → grow_tokens reallocs junk capinit n token tokens ≡ some (capinit, token, tokens)
unfolding grow_tokens
no_growth reallocs junk n token tokens lt =
    let fits : leb capinit n ≡ false = ground arith in rw fits refl

-- The first eight tokens at most are stored with no growth.
split_loop-first :
    (reallocs : ℕ → Realloc) (junk : ℕ) (first rest tokens l : List ℕ)
    → Filled tokens l
    → length l + length first ≤ capinit
    → (b : List ℕ) × (split_loop reallocs junk (first ++ rest) capinit (length l) tokens
        ≡ split_loop reallocs junk rest capinit (length l + length first) b)
      × Filled b (l ++ first)
unfolding split_loop
split_loop-first reallocs junk [] rest tokens l f le = (
  tokens,
  ap (λ n. split_loop reallocs junk rest capinit n tokens) (omega arith),
  subst (Filled tokens) (sym (append-nil l)) f,
)
split_loop-first reallocs junk (t ∷ first) rest tokens l f le =
    let (puts, f') = put-Filled t tokens l f (omega (arith, le)) in
    let longer : length (l ++ t ∷ []) ≡ suc (length l) = omega (arith, length-append l (t ∷ [])) in
    let same = no_growth reallocs junk (length l) t tokens (omega (arith, le)) in
    let (b, runs, f'') =
      split_loop-first reallocs junk first rest (set tokens (length l) t) (l ++ t ∷ []) f'
        (omega (arith, longer, le)) in
    (
      b,
      rw (same, puts, split_loop)
          (ap (λ n. split_loop reallocs junk (first ++ rest) capinit n (set tokens (length l) t))
              (sym longer)
            ∙ runs
            ∙ ap (λ n. split_loop reallocs junk rest capinit n b) (omega (arith, longer))),
      subst (Filled b) (append_assoc l (t ∷ []) first) f'',
    )

fresh-Filled : (junk : ℕ) → Filled (replicate capinit junk) []
fresh-Filled junk = record {
  size = length-replicate capinit junk;
  holds = Holds-nil (replicate capinit junk);
}

start_loop :
    (reallocs : ℕ → Realloc) (junk : ℕ) (first rest : List ℕ)
    → length first ≤ capinit
    → (b : List ℕ) × (ezsh_split_line true reallocs junk (first ++ rest)
        ≡ split_loop reallocs junk rest capinit (length first) b)
      × Filled b first
unfolding ezsh_split_line
start_loop reallocs junk first rest le =
    let (b, runs, f) =
      split_loop-first reallocs junk first rest (replicate capinit junk) [] (fresh-Filled junk)
        (omega (arith, le)) in
    (b, runs ∙ ap (λ n. split_loop reallocs junk rest capinit n b) (omega arith), f)

last_null :
    (reallocs : ℕ → Realloc) (junk cap n : ℕ) (b ts : List ℕ)
    → put_byte b n 0 ≡ some ts
    → split_loop reallocs junk [] cap n b ≡ split ts
unfolding split_loop
last_null reallocs junk cap n b ts e = rw (split_loop, e) refl

last_overrun :
    (reallocs : ℕ → Realloc) (junk cap n : ℕ) (b : List ℕ)
    → length b ≤ n
    → split_loop reallocs junk [] cap n b ≡ overrun
unfolding split_loop
last_overrun reallocs junk cap n b le = rw (split_loop, put_byte-out b n 0 le) refl

ninth_dangling :
    (reallocs : ℕ → Realloc) (junk address token : ℕ) (rest b : List ℕ)
    → reallocs 16 ≡ moved address
    → split_loop reallocs junk (token ∷ rest) capinit capinit b ≡ dangling
unfolding split_loop grow_tokens
ninth_dangling reallocs junk address token rest b m = rw (split_loop, m) refl

-- Up to seven tokens: `ezsh_split_line` returns an array that begins with them and NULL.
pub ezsh_split_line-split :
    (reallocs : ℕ → Realloc) (junk : ℕ) (strtok : List ℕ)
    → length strtok < capinit
    → (b : List ℕ) × (ezsh_split_line true reallocs junk strtok ≡ split b)
      × (take (suc (length strtok)) b ≡ strtok ++ 0 ∷ [])
ezsh_split_line-split reallocs junk strtok lt =
    let (b, runs, f) = start_loop reallocs junk strtok [] (omega (arith, lt)) in
    let (puts, f') = put-Filled 0 b strtok f lt in
    (
      set b (length strtok) 0,
      ap (ezsh_split_line true reallocs junk) (sym (append-nil strtok))
          ∙ runs
          ∙ last_null reallocs junk capinit (length strtok) b (set b (length strtok) 0) puts,
      ap (λ n. take n (set b (length strtok) 0)) {x = suc (length strtok)}
            {y = length (strtok ++ 0 ∷ [])} (omega (arith, length-append strtok (0 ∷ [])))
          ∙ f'.holds.same,
    )

-- Eight tokens: NULL is written behind the array. More tokens, if realloc moves the array: the
-- ninth is written to the old array, which is freed.
pub ezsh_split_line-faults :
    (reallocs : ℕ → Realloc) (junk address : ℕ) (first : List ℕ) (token : ℕ) (rest : List ℕ)
    → length first ≡ capinit
    → reallocs 16 ≡ moved address
    → (ezsh_split_line true reallocs junk first ≡ overrun)
      × (ezsh_split_line true reallocs junk (first ++ token ∷ rest) ≡ dangling)
ezsh_split_line-faults reallocs junk address first token rest e m =
    let (b, runs, f) = start_loop reallocs junk first [] (omega (arith, e)) in
    let (b', runs', f') = start_loop reallocs junk first (token ∷ rest) (omega (arith, e)) in
    (
      ap (ezsh_split_line true reallocs junk) (sym (append-nil first))
          ∙ runs
          ∙ last_overrun reallocs junk capinit (length first) b (omega (arith, e, f.size)),
      runs'
          ∙ ap (λ n. split_loop reallocs junk (token ∷ rest) capinit n b') e
          ∙ ninth_dangling reallocs junk address token rest b' m,
    )
