-- ===== src/Kmp/Count.antt =====
-- Occurrences of a pattern, counted without a table, by where they start and by where they end.
use linux_system_programming.Prelude.{
  ℕ, zero, suc, ◌+◌, ◌-◌, ◌<◌, ◌≤◌, ◌≡◌, refl, sym, ap, ap₂, ◌∙◌, inl, inr, Bool, true, false, ◌&&◌,
  List, [], ◌∷◌, arith, ◌==◌, leb, if◌then◌else◌, Bool-cases, length, get_or, drop, length-drop,
}
use linux_system_programming.Kmp.Border.{Ends}
use linux_system_programming.Kmp.Fall.{sym_of}

-- The text begins with the pattern.
unfoldable pub begins : List ℕ → List ℕ → Bool
begins [] ys = true
begins (x ∷ xs) [] = false
begins (x ∷ xs) (y ∷ ys) = (x == y) && begins xs ys

-- The positions at which the pattern starts in the text.
unfoldable pub occurrences : List ℕ → List ℕ → ℕ
occurrences p [] = 0
occurrences p (y ∷ ys) = (if begins p (y ∷ ys) then 1 else 0) + occurrences p ys

-- The pattern ends just before position `e` of the text.
unfoldable pub ends_at : List ℕ → List ℕ → ℕ → Bool
unfolding begins
ends_at p text e = leb (length p) e && begins p (drop (e - length p) text)

-- Its ends at the positions i + 1, …, i + n.
unfoldable pub hits : List ℕ → List ℕ → ℕ → ℕ → ℕ
hits p text i zero = 0
hits p text i (suc n) =
    let rest = hits p text (suc i) n in if ends_at p text (suc i) then suc rest else rest

sym_of-get_or : (xs : List ℕ) (t : ℕ) → sym_of xs t ≡ get_or xs t 0
sym_of-get_or [] zero = refl
sym_of-get_or [] (suc t) = refl
sym_of-get_or (x ∷ xs) zero = refl
sym_of-get_or (x ∷ xs) (suc t) = sym_of-get_or xs t

get_or-drop : (xs : List ℕ) (d t : ℕ) → get_or (drop d xs) t 0 ≡ get_or xs (d + t) 0
get_or-drop xs zero t = ap (λ n. get_or xs n 0) (omega arith)
get_or-drop [] (suc d) t = refl
get_or-drop (x ∷ xs) (suc d) t =
    get_or-drop xs d t ∙ ap (λ n. get_or (x ∷ xs) n 0) {x = suc (d + t)} (omega arith)

begins-length : (p ys : List ℕ) → begins p ys ≡ true → length p ≤ length ys
unfolding begins
begins-length [] ys h = omega arith
begins-length (x ∷ xs) [] h = cc
begins-length (x ∷ xs) (y ∷ ys) h = ground (arith, begins-length xs ys)

begins-same :
    (p ys : List ℕ) → begins p ys ≡ true → (t : ℕ) → t < length p → get_or ys t 0 ≡ get_or p t 0
unfolding begins
begins-same [] ys h t lt = absurd (omega arith)
begins-same (x ∷ xs) [] h t lt = cc
begins-same (x ∷ xs) (y ∷ ys) h zero lt = ground arith
begins-same (x ∷ xs) (y ∷ ys) h (suc t) lt = begins-same xs ys (ground arith) t (omega arith)

begins_of_same :
    (p ys : List ℕ)
    → length p ≤ length ys
    → ((t : ℕ) → t < length p → get_or ys t 0 ≡ get_or p t 0)
    → begins p ys ≡ true
unfolding begins
begins_of_same [] ys le h = refl
begins_of_same (x ∷ xs) [] le h = absurd (omega arith)
begins_of_same (x ∷ xs) (y ∷ ys) le h =
    ground (
      arith,
      h 0 (omega arith),
      begins_of_same xs ys (omega arith) (λ t lt. h (suc t) (omega arith)),
    )

-- The Boolean test decides `Ends`, for positions in the text.
pub Ends-of_ends_at :
    (p text : List ℕ) (e : ℕ) → ends_at p text e ≡ true → Ends (sym_of p) (sym_of text) e (length p)
unfolding ends_at
Ends-of_ends_at p text e h = record {
  start = e - length p;
  at = ground arith;
  same = λ t lt.
      sym_of-get_or text (e - length p + t)
      ∙ sym (get_or-drop text (e - length p) t)
      ∙ begins-same p (drop (e - length p) text) (ground arith) t lt
      ∙ sym (sym_of-get_or p t);
}

pub ends_at-of_Ends :
    (p text : List ℕ) (e : ℕ)
    → e ≤ length text
    → Ends (sym_of p) (sym_of text) e (length p)
    → ends_at p text e ≡ true
unfolding ends_at
ends_at-of_Ends p text e le h =
    let start : e - length p ≡ h.start = omega (arith, h.at) in
    let found : begins p (drop (e - length p) text) ≡ true =
      begins_of_same p (drop (e - length p) text)
        (omega (arith, length-drop (e - length p) text, h.at))
        (λ t lt.
          get_or-drop text (e - length p) t
          ∙ ap (λ n. get_or text (n + t) 0) start
          ∙ sym (sym_of-get_or text (h.start + t))
          ∙ h.same t lt
          ∙ sym_of-get_or p t) in
    let long : length p ≤ e = omega (arith, h.at) in ground arith

occurrences-short : (p ys : List ℕ) → length ys < length p → occurrences p ys ≡ 0
unfolding occurrences
occurrences-short p [] h = refl
occurrences-short p (y ∷ ys) h = elim (Bool-cases (begins p (y ∷ ys))) [
  | inl e ↦ absurd (omega (arith, begins-length p (y ∷ ys) e))
  | inr e ↦ rw e (omega (arith, occurrences-short p ys (omega arith)))
]

drop-cons : (xs : List ℕ) (d : ℕ) → d < length xs → (y : ℕ) × (drop d xs ≡ y ∷ drop (suc d) xs)
drop-cons [] d h = elim h [ ]
drop-cons (x ∷ xs) zero h = (x, refl)
drop-cons (x ∷ xs) (suc d) h = drop-cons xs d (omega arith)

occurrences-drop :
    (p text : List ℕ) (d : ℕ)
    → d < length text
    → occurrences p (drop d text)
      ≡ (if begins p (drop d text) then 1 else 0) + occurrences p (drop (suc d) text)
unfolding occurrences
occurrences-drop p text d h = let (y, e) = drop-cons text d h in rw e refl

ends_at-add :
    (p text : List ℕ) (d e : ℕ) → e ≡ d + length p → ends_at p text e ≡ begins p (drop d text)
unfolding ends_at
ends_at-add p text d e q =
    let here : e - length p ≡ d = omega arith in
    let long : leb (length p) e ≡ true = ground arith in rw (here, long) refl

ends_at-early : (p text : List ℕ) (e : ℕ) → e < length p → ends_at p text e ≡ false
unfolding ends_at
ends_at-early p text e h = ground arith

-- Ends before the first start could end.
hits-skip :
    (p text : List ℕ) (k i n m : ℕ)
    → i + k < length p
    → m ≡ k + n
    → hits p text i m ≡ hits p text (i + k) n
unfolding hits
hits-skip p text zero i n m h e = ap₂ (hits p text) (omega arith) (omega arith)
hits-skip p text (suc k) i n zero h e = absurd (omega arith)
hits-skip p text (suc k) i n (suc m) h e =
    rw (ends_at-early p text (suc i) (omega arith))
      (hits-skip p text k (suc i) n m (omega arith) (omega arith) ∙ shift)
  where
    shift : hits p text (suc i + k) n ≡ hits p text (i + suc k) n
    shift = ap (λ j. hits p text j n) (omega arith)

hits-occurrences :
    (p text : List ℕ) (n d i : ℕ)
    → 0 < length p
    → suc i ≡ d + length p
    → i + n ≡ length text
    → hits p text i n ≡ occurrences p (drop d text)
unfolding hits
hits-occurrences p text zero d i pos ed en =
    sym (occurrences-short p (drop d text) (omega (arith, length-drop d text)))
hits-occurrences p text (suc n) d i pos ed en = rw (ends_at-add p text d (suc i) ed) (
    ground (
      arith,
      hits-occurrences p text n (suc d) (suc i) pos (omega arith) (omega arith),
      occurrences-drop p text d (omega arith),
    ))

-- Counted by ends or by starts the number is the same.
pub hits-eq-occurrences :
    (p text : List ℕ)
    → 0 < length p
    → length p ≤ length text
    → hits p text 0 (length text) ≡ occurrences p text
hits-eq-occurrences p text pos le =
    hits-skip p text (length p - 1) 0 (length text - (length p - 1)) (length text) (omega arith)
      (omega arith)
    ∙ hits-occurrences p text (length text - (length p - 1)) 0 (0 + (length p - 1)) pos
        (omega arith) (omega arith)
