-- ===== src/Sorting/Merge/Sort.antt =====
-- merge_sort sorts a part of the array and leaves the rest.
use linux_system_programming.Prelude.{
  ℕ, zero, suc, ◌+◌, ◌-◌, ◌/◌, ◌<◌, ◌≤◌, ◌≡◌, refl, sym, subst, ap, ◌∙◌, Bool, true, false, some,
  List, [], ◌∷◌, ◌++◌, arith, leb, length, length-append, get_elem?, append_assoc,
}
use mathlib.Core.List.{Perm}
use mathlib.Core.List.Perm
use linux_system_programming.Sorting.{◌>>=◌}
use linux_system_programming.Sorting.Insert.{get_pre}
use linux_system_programming.Sorting.Sorted.{Order, Asc}
use linux_system_programming.Sorting.Merge.{fill, merge, merge_sort}
use linux_system_programming.Sorting.Merge.Merged.{
  Merged, no_left, no_right, left, right, Merged-Perm, Merged-Asc,
}
use linux_system_programming.Sorting.Merge.Loops.{Reads, both_loop-Merged, write_back-replaces}

module _ {A : Type 0} where
  -- A part of an array, read from where it begins.
  part-Reads :
      (before part after arr : List A) (i : ℕ)
      → arr ≡ before ++ (part ++ after)
      → i ≡ length before
      → Reads arr i part
  part-Reads before [] after arr i e ei = tt
  part-Reads before (x ∷ part) after arr i e ei = (
    ap (λ l. get_elem? l i) e ∙ get_pre before (x ∷ (part ++ after)) 0 i (omega (arith, ei)),
    part-Reads (before ++ x ∷ []) part after arr (suc i)
        (e ∙ sym (append_assoc before (x ∷ []) (part ++ after)))
        (omega (arith, ei, length-append before (x ∷ []))),
  )

  split :
      (n : ℕ) (l : List A)
      → n ≤ length l
      → (xs : List A) × (ys : List A) × (l ≡ xs ++ ys) × (length xs ≡ n)
  split zero l le = ([], l, refl, refl)
  split (suc n) [] le = absurd (omega (arith, le))
  split (suc n) (x ∷ l) le =
      let (xs, ys, e, el) = split n l (omega (arith, le)) in (x ∷ xs, ys, ap (x ∷◌) e, ap suc el)

module _ {A : Type 0} {gt : A → A → Bool} where
  length-Merged : {xs ys zs : List A} → Merged gt xs ys zs → length zs ≡ length xs + length ys
  length-Merged (no_left ys) = omega arith
  length-Merged (no_right xs) = omega arith
  length-Merged (left e m) = omega (arith, length-Merged m)
  length-Merged (right e m) = omega (arith, length-Merged m)

module _ {A : Type 0} (gt : A → A → Bool) where
  fill-Merged :
      (before xs ys after : List A) (start mid end tmp_len : ℕ)
      → start ≡ length before
      → start + length xs ≡ suc mid
      → suc mid + length ys ≡ suc end
      → tmp_len ≡ length xs + length ys
      → (zs : List A) × Merged gt xs ys zs
        × (fill gt start mid (mid + 1) end tmp_len (before ++ ((xs ++ ys) ++ after)) ≡ some zs)
  unfolding fill
  fill-Merged before xs ys after start mid end tmp_len es em ee et =
      let arr = before ++ ((xs ++ ys) ++ after) in
      let whole : arr ≡ before ++ (xs ++ (ys ++ after)) =
        ap (before ++◌) (append_assoc xs ys after) in
      let reads_left = part-Reads before xs (ys ++ after) arr start whole es in
      let reads_right =
        part-Reads (before ++ xs) ys after arr (mid + 1)
          (whole ∙ sym (append_assoc before xs (ys ++ after)))
          (omega (arith, es, em, length-append before xs)) in
      both_loop-Merged gt mid end tmp_len arr (suc tmp_len) (suc tmp_len) start (mid + 1) [] xs ys
        reads_left reads_right em (omega (arith, ee)) (omega (arith, et)) (omega (arith, et))
        (omega (arith, et))

  merge-Merged :
      (before xs ys after : List A) (start end : ℕ)
      → start ≡ length before
      → start + length xs ≡ suc ((start + end) / 2)
      → suc ((start + end) / 2) + length ys ≡ suc end
      → start < end
      → (zs : List A) × Merged gt xs ys zs
        × (merge gt (before ++ ((xs ++ ys) ++ after)) start end ≡ some (before ++ (zs ++ after)))
  unfolding merge
  merge-Merged before xs ys after start end es em ee lt =
      let (zs, m, filled) =
        fill-Merged before xs ys after start ((start + end) / 2) end (end - start + 1) es em ee
          (omega (arith, em, ee, lt)) in
      let more : leb end start ≡ false = ground (arith, lt) in
      let long = length-Merged m in
      (
        zs,
        m,
        rw (merge, more, filled)
            (write_back-replaces zs (xs ++ ys) [] before after 0 start (end - start + 1)
              (omega (arith, long, length-append xs ys)) (omega (arith, long, em, ee, lt)) refl
              (omega (arith, es))),
      )

  -- The part sorted, with what stays around it.
  abbrev Sorts : ℕ → List A → List A → List A → ℕ → ℕ → Type 0
  Sorts fuel before part after start end =
      (out : List A) × (merge_sort gt fuel (before ++ (part ++ after)) start end
        ≡ some (before ++ (out ++ after)))
      × Perm out part
      × Asc gt out
      × (length out ≡ length part)

  -- The two halves, and `merge`.
  halves-Sorts :
      (o : Order gt) (fuel : ℕ) (before xs ys after : List A) (start end : ℕ)
      → start ≡ length before
      → start + length xs ≡ suc (start + (end - start) / 2)
      → start + (length xs + length ys) ≡ suc end
      → start < end
      → Sorts fuel before xs (ys ++ after) start (start + (end - start) / 2)
      → ((front : List A)
          → length front ≡ length xs
          → Sorts fuel (before ++ front) ys after (start + (end - start) / 2 + 1) end)
      → Sorts (suc fuel) before (xs ++ ys) after start end
  unfolding merge_sort
  halves-Sorts o fuel before xs ys after start end es em ee lt first second =
      let (front, runs, perm, asc, long) = first in
      let (back, runs', perm', asc', long') = second front long in
      let (zs, m, merges) =
        merge-Merged before front back after start end es (omega (arith, em, long, lt))
          (omega (arith, em, ee, long', lt)) lt in
      let more : leb end start ≡ false = ground (arith, lt) in
      let here = ap (before ++◌) (append_assoc xs ys after) in
      let between = sym (append_assoc before front (ys ++ after)) in
      let there =
        append_assoc before front (back ++ after)
        ∙ ap (before ++◌) (sym (append_assoc front back after)) in
      (
        zs,
        ap (λ l. merge_sort gt (suc fuel) l start end) here
            ∙ rw (merge_sort, more, runs)
                (ap
                    (λ l. merge_sort gt fuel l (start + (end - start) / 2 + 1) end >>= λ both.
                      merge gt both start end)
                    between
                  ∙ rw runs' (ap (λ l. merge gt l start end) there ∙ merges)),
        Perm.trans (Merged-Perm m) (Perm.append perm perm'),
        Merged-Asc o m asc asc',
        omega (arith, length-Merged m, long, long', length-append xs ys),
      )

  part-Sorts :
      (o : Order gt) (fuel : ℕ) (before part after : List A) (start end : ℕ)
      → 0 < length part
      → length part ≤ fuel
      → start ≡ length before
      → start + length part ≡ suc end
      → Sorts fuel before part after start end
  unfolding merge_sort
  part-Sorts o zero before part after start end lt le es ee = absurd (omega (arith, lt, le))
  part-Sorts o (suc fuel) before [] after start end lt le es ee = absurd (omega (arith, lt))
  part-Sorts o (suc fuel) before (x ∷ []) after start end lt le es ee =
      let over : leb end start ≡ true = ground (arith, ee) in
      (x ∷ [], rw (merge_sort, over) refl, Perm.rfl, (tt, tt), refl)
  part-Sorts o (suc fuel) before (x ∷ y ∷ r) after start end lt le es ee =
      let (xs, ys, e, ex) = split ((end - start) / 2 + 1) (x ∷ y ∷ r) (omega (arith, ee)) in
      let long : length xs + length ys ≡ suc (suc (length r)) =
        omega (arith, sym (length-append xs ys) ∙ ap length (sym e)) in
      subst (λ p. Sorts (suc fuel) before p after start end) (sym e)
        (halves-Sorts o fuel before xs ys after start end es (omega (arith, ex))
          (omega (arith, long, ee)) (omega (arith, ee))
          (part-Sorts o fuel before xs (ys ++ after) start (start + (end - start) / 2)
            (omega (arith, ex)) (omega (arith, ex, long, ee, le)) es (omega (arith, ex)))
          (λ front same.
            part-Sorts o fuel (before ++ front) ys after (start + (end - start) / 2 + 1) end
              (omega (arith, ex, long, ee)) (omega (arith, ex, long, le))
              (omega (arith, es, ex, same, length-append before front))
              (omega (arith, ex, long, ee))))

-- For a comparison that orders the elements, and a depth of calls of at least the length of the
-- part: `merge_sort` from the first to the last index of a part that is not empty ends with no
-- access outside of the array or of `tmp`, and sorts the part, which then holds the same elements,
-- none greater than a later one; the rest of the array stays.
pub merge_sort-Asc :
    {A : Type 0} (gt : A → A → Bool)
    → Order gt
    → (fuel end : ℕ) (before part after : List A) → 0 < length part
    → length part ≤ fuel
    → length before + length part ≡ suc end
    → (out : List A) × (merge_sort gt fuel (before ++ (part ++ after)) (length before) end
        ≡ some (before ++ (out ++ after)))
      × Perm out part
      × Asc gt out
merge_sort-Asc gt o fuel end before part after lt le e =
    let (out, runs, perm, asc, long) =
      part-Sorts gt o fuel before part after (length before) end lt le refl e in
    (out, runs, perm, asc)
