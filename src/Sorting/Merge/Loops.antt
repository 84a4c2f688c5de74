-- ===== src/Sorting/Merge/Loops.antt =====
-- What the loops of `merge` do to `tmp` and to the array.
use linux_system_programming.Prelude.{
  ℕ, zero, suc, ◌+◌, ◌<◌, ◌≤◌, ◌≡◌, refl, sym, ap, ◌∙◌, inl, inr, Bool, true, false, ◌&&◌, Option,
  some, List, [], ◌∷◌, ◌++◌, arith, ltb, leb, Bool-cases, length, length-append, get_elem?,
  append_assoc, append-nil,
}
use linux_system_programming.Sorting.{◌>>=◌}
use linux_system_programming.Sorting.Insert.{get_pre, set_pre}
use linux_system_programming.Sorting.Merge.{push, rest_loop, write_back, both_loop}
use linux_system_programming.Sorting.Merge.Merged.{Merged, no_left, no_right, left, right}

module _ {A : Type 0} where
  -- From index `i` on the array has these elements.
  abbrev pub Reads : List A → ℕ → List A → Type 0
  Reads arr i [] = Unit
  Reads arr i (x ∷ xs) = (get_elem? arr i ≡ some x) × Reads arr (suc i) xs

  push-ok :
      (tmp_len : ℕ) (tmp : List A) (x : A)
      → length tmp < tmp_len
      → push tmp_len tmp x ≡ some (tmp ++ x ∷ [])
  unfolding push
  push-ok tmp_len tmp x lt =
      let fits : ltb (length tmp) tmp_len ≡ true = ground (arith, lt) in rw fits refl

  one_longer : (tmp : List A) (x : A) → length (tmp ++ x ∷ []) ≡ suc (length tmp)
  one_longer tmp x = omega (arith, length-append tmp (x ∷ []))

  rest_loop-copies :
      (fuel a a_end tmp_len : ℕ) (tmp xs arr : List A)
      → Reads arr a xs
      → a + length xs ≡ suc a_end
      → length tmp + length xs ≤ tmp_len
      → length xs < fuel
      → rest_loop fuel a a_end tmp_len tmp arr ≡ some (tmp ++ xs)
  unfolding rest_loop
  rest_loop-copies zero a a_end tmp_len tmp xs arr reads e le lt = absurd (omega (arith, lt))
  rest_loop-copies (suc fuel) a a_end tmp_len tmp [] arr reads e le lt =
      let stop : leb a a_end ≡ false = ground (arith, e) in
      rw (rest_loop, stop) (ap some (sym (append-nil tmp)))
  rest_loop-copies (suc fuel) a a_end tmp_len tmp (x ∷ xs) arr reads e le lt =
      let go : leb a a_end ≡ true = ground (arith, e) in
      rw (rest_loop, go, reads.0, push-ok tmp_len tmp x (omega (arith, le)))
        (rest_loop-copies fuel (suc a) a_end tmp_len (tmp ++ x ∷ []) xs arr reads.1
            (omega (arith, e)) (omega (arith, le, one_longer tmp x)) (omega (arith, lt))
          ∙ ap some (append_assoc tmp (x ∷ []) xs))

  -- `tmp` goes into the array in place of as many elements.
  pub write_back-replaces :
      (more old done before post : List A) (k start rounds : ℕ)
      → length old ≡ length more
      → rounds ≡ length more
      → k ≡ length done
      → length before ≡ start + k
      → write_back rounds k start (done ++ more) (before ++ (old ++ post))
        ≡ some (before ++ (more ++ post))
  unfolding write_back
  write_back-replaces [] [] done before post k start zero el er ek eb = refl
  write_back-replaces [] [] done before post k start (suc rounds) el er ek eb = ground (arith, er)
  write_back-replaces [] (o ∷ old) done before post k start rounds el er ek eb = ground (arith, el)
  write_back-replaces (x ∷ more) [] done before post k start rounds el er ek eb = ground (arith, el)
  write_back-replaces (x ∷ more) (o ∷ old) done before post k start zero el er ek eb =
      ground (arith, er)
  write_back-replaces (x ∷ more) (o ∷ old) done before post k start (suc rounds) el er ek eb =
      let at = get_pre done (x ∷ more) 0 k (omega (arith, ek)) in
      let put = set_pre before (o ∷ (old ++ post)) 0 (start + k) x (omega (arith, eb)) in
      let later =
        write_back-replaces more old (done ++ x ∷ []) (before ++ x ∷ []) post (suc k) start rounds
          (omega (arith, el)) (omega (arith, er)) (omega (arith, ek, one_longer done x))
          (omega (arith, eb, one_longer before x)) in
      rw (write_back, at, put)
        (ap (λ t. write_back rounds (suc k) start t (before ++ x ∷ (old ++ post)))
            (sym (append_assoc done (x ∷ []) more))
          ∙ ap (write_back rounds (suc k) start ((done ++ x ∷ []) ++ more))
              (sym (append_assoc before (x ∷ []) (old ++ post)))
          ∙ later
          ∙ ap some (append_assoc before (x ∷ []) (more ++ post)))

module _ {A : Type 0} (gt : A → A → Bool) (a_end b_end tmp_len : ℕ) (arr : List A) where
  -- What follows the first loop.
  abbrev finish : ℕ → ℕ × ℕ × List A → Option (List A)
  finish rounds r = rest_loop rounds r.0 a_end tmp_len r.2 arr >>= λ tmp.
      rest_loop rounds r.1 b_end tmp_len tmp arr

  finish-left :
      (rounds a b : ℕ) (tmp ys : List A)
      → Reads arr b ys
      → a ≡ suc a_end
      → b + length ys ≡ suc b_end
      → length tmp + length ys ≤ tmp_len
      → length ys < rounds
      → finish rounds (a, b, tmp) ≡ some (tmp ++ ys)
  finish-left rounds a b tmp ys reads ea eb le lt =
      rw
        (rest_loop-copies rounds a a_end tmp_len tmp [] arr tt (omega (arith, ea))
          (omega (arith, le)) (omega (arith, lt)))
        (ap (λ t. rest_loop rounds b b_end tmp_len t arr) (append-nil tmp)
          ∙ rest_loop-copies rounds b b_end tmp_len tmp ys arr reads eb le lt)

  finish-right :
      (rounds a b : ℕ) (tmp xs : List A)
      → Reads arr a xs
      → a + length xs ≡ suc a_end
      → b ≡ suc b_end
      → length tmp + length xs ≤ tmp_len
      → length xs < rounds
      → finish rounds (a, b, tmp) ≡ some (tmp ++ xs)
  finish-right rounds a b tmp xs reads ea eb le lt =
      rw (rest_loop-copies rounds a a_end tmp_len tmp xs arr reads ea le lt) (
        rest_loop-copies rounds b b_end tmp_len (tmp ++ xs) [] arr tt (omega (arith, eb))
          (omega (arith, le, length-append tmp xs)) (omega (arith, lt))
        ∙ ap some (append-nil (tmp ++ xs)))

  pub both_loop-Merged :
      (fuel rounds a b : ℕ) (tmp xs ys : List A)
      → Reads arr a xs
      → Reads arr b ys
      → a + length xs ≡ suc a_end
      → b + length ys ≡ suc b_end
      → length tmp + (length xs + length ys) ≤ tmp_len
      → length xs + length ys < fuel
      → length xs + length ys < rounds
      → (zs : List A) × Merged gt xs ys zs
        × ((both_loop gt fuel a a_end b b_end tmp_len tmp arr >>= finish rounds) ≡ some (tmp ++ zs))
  unfolding both_loop
  both_loop-Merged zero rounds a b tmp xs ys ra rb ea eb le lf lr = absurd (omega (arith, lf))
  both_loop-Merged (suc fuel) rounds a b tmp [] ys ra rb ea eb le lf lr =
      let stop : (leb a a_end && leb b b_end) ≡ false = ground (arith, ea) in
      (
        ys,
        no_left ys,
        rw (both_loop, stop)
            (finish-left rounds a b tmp ys rb (omega (arith, ea)) eb (omega (arith, le))
              (omega (arith, lr))),
      )
  both_loop-Merged (suc fuel) rounds a b tmp (x ∷ xs) [] ra rb ea eb le lf lr =
      let stop : (leb a a_end && leb b b_end) ≡ false = ground (arith, eb) in
      (
        x ∷ xs,
        no_right (x ∷ xs),
        rw (both_loop, stop)
            (finish-right rounds a b tmp (x ∷ xs) ra ea (omega (arith, eb)) (omega (arith, le))
              (omega (arith, lr))),
      )
  both_loop-Merged (suc fuel) rounds a b tmp (x ∷ xs) (y ∷ ys) ra rb ea eb le lf lr =
      let go : (leb a a_end && leb b b_end) ≡ true = ground (arith, ea, eb) in
      elim (Bool-cases (gt y x)) [
        | inl more ↦
            let (zs, m, e) =
              both_loop-Merged fuel rounds (suc a) b (tmp ++ x ∷ []) xs (y ∷ ys) ra.1 rb
                (omega (arith, ea)) eb (omega (arith, le, one_longer tmp x)) (omega (arith, lf))
                (omega (arith, lr)) in
            (
              x ∷ zs,
              left more m,
              rw (both_loop, go, ra.0, rb.0, more, push-ok tmp_len tmp x (omega (arith, le)))
                  (e ∙ ap some (append_assoc tmp (x ∷ []) zs)),
            )
        | inr less ↦
            let (zs, m, e) =
              both_loop-Merged fuel rounds a (suc b) (tmp ++ y ∷ []) (x ∷ xs) ys ra rb.1 ea
                (omega (arith, eb)) (omega (arith, le, one_longer tmp y)) (omega (arith, lf))
                (omega (arith, lr)) in
            (
              y ∷ zs,
              right less m,
              rw (both_loop, go, ra.0, rb.0, less, push-ok tmp_len tmp y (omega (arith, le)))
                  (e ∙ ap some (append_assoc tmp (y ∷ []) zs)),
            )
      ]
