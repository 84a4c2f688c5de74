-- ===== src/Processes/Piped.antt =====
-- What the run of 04-process-management/shell_pipe.c leaves, and what its two children get.
use linux_system_programming.Prelude.{
  ℕ, ◌≡◌, ◌≢◌, refl, sym, ◌∙◌, none, some, List, [], ◌∷◌, ◌++◌, arith, ◌==◌, if◌then◌else◌,
}
use linux_system_programming.Processes.{File, reader, writer, Table, at, put, lowest, Child, World}
use linux_system_programming.Processes.Table.{at-put_self, at-put_ne, at-put, lowest-ne}
use linux_system_programming.Processes.Rules.{Spec, Spec-bind, dup-Spec, pipe-Spec}
use linux_system_programming.Processes.Pipeline.{ls, la, cat, main, cmd_try-Spec}

-- No descriptor is an end of a pipe.
abbrev pub NoPipe : Table → Type 0
NoPipe t = (n : ℕ) → (at t n ≢ some reader) × (at t n ≢ some writer)

-- What `main` leaves: the table has the old standard input and output and no end of a pipe; two
-- children were started, `ls` with the pipe for its output, and `cat` with the pipe for its input
-- and no descriptor that could write into it.
pub record Piped (w w' : World) (i o : File) : Type 0 where
  pub input : at w'.table 0 ≡ some i
  pub output : at w'.table 1 ≡ some o
  pub no_pipe : NoPipe w'.table
  pub ls_table : Table
  pub cat_table : Table
  pub children :
      w'.children
      ≡ (w.children ++ record { name = ls; args = ls ∷ la ∷ []; table = ls_table } ∷ [])
        ++ record { name = cat; args = cat ∷ []; table = cat_table } ∷ []
  pub ls_input : at ls_table 0 ≡ some i
  pub ls_output : at ls_table 1 ≡ some writer
  pub cat_input : at cat_table 0 ≡ some reader
  pub cat_output : at cat_table 1 ≡ some o
  pub cat_reads_only : (n : ℕ) → at cat_table n ≢ some writer

-- The tables of `main`, one after the other.
module _ (t0 : Table) (i o : File) where
  abbrev a : ℕ
  a = lowest t0

  abbrev t1 : Table
  t1 = put t0 a (some i)

  abbrev b : ℕ
  b = lowest t1

  abbrev t2 : Table
  t2 = put t1 b (some o)

  abbrev p : ℕ
  p = lowest t2

  abbrev t3 : Table
  t3 = put t2 p (some reader)

  abbrev q : ℕ
  q = lowest t3

  abbrev t4 : Table
  t4 = put t3 q (some writer)

  abbrev lent_ls : Table
  lent_ls = put t4 1 (some writer)

  abbrev t5 : Table
  t5 = put (put lent_ls 1 (some o)) q none

  abbrev lent_cat : Table
  lent_cat = put t5 0 (some reader)

  abbrev t6 : Table
  t6 = put (put lent_cat 0 (some i)) p none

  module _ (e0 : at t0 0 ≡ some i) (e1 : at t0 1 ≡ some o) where
    a_ne : (a ≢ 0) × (a ≢ 1)
    a_ne = (lowest-ne t0 0 i e0, lowest-ne t0 1 o e1)

    b_ne : (b ≢ 0) × (b ≢ 1) × (b ≢ a)
    b_ne = (
      lowest-ne t1 0 i (at-put_ne t0 a 0 (some i) (a_ne.0) ∙ e0),
      lowest-ne t1 1 o (at-put_ne t0 a 1 (some i) (a_ne.1) ∙ e1),
      lowest-ne t1 a i (at-put_self t0 a (some i)),
    )

    p_ne : (p ≢ 0) × (p ≢ 1) × (p ≢ a) × (p ≢ b)
    p_ne = (
      lowest-ne t2 0 i
          (ground (arith, e0, a_ne, b_ne, at-put t1 b 0 (some o), at-put t0 a 0 (some i))),
      lowest-ne t2 1 o
          (ground (arith, e1, a_ne, b_ne, at-put t1 b 1 (some o), at-put t0 a 1 (some i))),
      lowest-ne t2 a i (ground (arith, b_ne, at-put t1 b a (some o), at-put_self t0 a (some i))),
      lowest-ne t2 b o (at-put_self t1 b (some o)),
    )

    q_ne : (q ≢ 0) × (q ≢ 1) × (q ≢ a) × (q ≢ b) × (q ≢ p)
    q_ne = (
      lowest-ne t3 0 i (
          ground (
            arith,
            e0,
            a_ne,
            b_ne,
            p_ne,
            at-put t2 p 0 (some reader),
            at-put t1 b 0 (some o),
            at-put t0 a 0 (some i),
          )),
      lowest-ne t3 1 o (
          ground (
            arith,
            e1,
            a_ne,
            b_ne,
            p_ne,
            at-put t2 p 1 (some reader),
            at-put t1 b 1 (some o),
            at-put t0 a 1 (some i),
          )),
      lowest-ne t3 a i (
          ground (
            arith,
            b_ne,
            p_ne,
            at-put t2 p a (some reader),
            at-put t1 b a (some o),
            at-put_self t0 a (some i),
          )),
      lowest-ne t3 b o
          (ground (arith, p_ne, at-put t2 p b (some reader), at-put_self t1 b (some o))),
      lowest-ne t3 p reader (at-put_self t2 p (some reader)),
    )

    at-t4 :
        (n : ℕ)
        → at t4 n ≡ (
            if q == n
            then some writer
            else if p == n
            then some reader
            else if b == n
            then some o
            else if a == n
            then some i
            else at t0 n)
    at-t4 n = ground (
      arith,
      at-put t3 q n (some writer),
      at-put t2 p n (some reader),
      at-put t1 b n (some o),
      at-put t0 a n (some i),
    )

    at-t5 : (n : ℕ) → at t5 n ≡ (if q == n then none else if 1 == n then some o else at t4 n)
    at-t5 n = ground (
      arith,
      at-put (put lent_ls 1 (some o)) q n none,
      at-put lent_ls 1 n (some o),
      at-put t4 1 n (some writer),
    )

    at-t6 : (n : ℕ) → at t6 n ≡ (if p == n then none else if 0 == n then some i else at t5 n)
    at-t6 n = ground (
      arith,
      at-put (put lent_cat 0 (some i)) p n none,
      at-put lent_cat 0 n (some i),
      at-put t5 0 n (some reader),
    )

    module _ (clean : NoPipe t0) where
      NoPipe-left : NoPipe t6
      NoPipe-left n = (
        λ e. ground (arith, e, clean n, clean 0, clean 1, e0, e1, at-t6 n, at-t5 n, at-t4 n),
        λ e. ground (arith, e, clean n, clean 0, clean 1, e0, e1, at-t6 n, at-t5 n, at-t4 n),
      )

      cat_does_not_write : (n : ℕ) → at lent_cat n ≢ some writer
      cat_does_not_write n e = ground (
        arith,
        e,
        clean n,
        clean 0,
        clean 1,
        e0,
        e1,
        at-put t5 0 n (some reader),
        at-t5 n,
        at-t4 n,
      )

    output_kept : at t1 1 ≡ some o
    output_kept = at-put_ne t0 a 1 (some i) (a_ne.1) ∙ e1

    at-t4-b : at t4 b ≡ some o
    at-t4-b = ground (arith, p_ne, q_ne, at-t4 b)

    at-t5-p : at t5 p ≡ some reader
    at-t5-p = ground (arith, p_ne, q_ne, at-t4 p, at-t5 p)

    at-t5-a : at t5 a ≡ some i
    at-t5-a = ground (arith, a_ne, b_ne, p_ne, q_ne, at-t4 a, at-t5 a)

    -- The condition, with the children's tables as they are.
    main-leaves_Piped :
        (w : World)
        → w.table ≡ t0
        → NoPipe t0
        → (kids : List Child)
        → kids
          ≡ (w.children ++ record { name = ls; args = ls ∷ la ∷ []; table = lent_ls } ∷ [])
            ++ record { name = cat; args = cat ∷ []; table = lent_cat } ∷ []
        → Piped w (record { table = t6; children = kids }) i o
    main-leaves_Piped w e clean kids ek = record {
      input = ground (arith, p_ne, at-t6 0);
      output = ground (arith, p_ne, q_ne, at-t6 1, at-t5 1);
      no_pipe = NoPipe-left clean;
      ls_table = lent_ls;
      cat_table = lent_cat;
      children = ek;
      ls_input = ground (arith, e0, a_ne, b_ne, p_ne, q_ne, at-put t4 1 0 (some writer), at-t4 0);
      ls_output = at-put_self t4 1 (some writer);
      cat_input = at-put_self t5 0 (some reader);
      cat_output = ground (arith, q_ne, at-put t5 0 1 (some reader), at-t5 1);
      cat_reads_only = cat_does_not_write clean;
    }

-- Where 0 and 1 are open and no descriptor is an end of a pipe, `main` starts `ls` with the pipe for
-- its output and `cat` with the pipe for its input and no descriptor that writes into it, and leaves
-- 0 and 1 as they were and no end of the pipe open. It takes thirteen calls at most, and exits early
-- only where one of them fails.
pub main-Piped :
    (w : World) (i o : File)
    → at w.table 0 ≡ some i
    → at w.table 1 ≡ some o
    → NoPipe w.table
    → Spec (λ _ w'. Piped w w' i o) 13 main w
unfolding main
main-Piped w i o e0 e1 clean =
    let t = w.table in
    let P = λ (u : Unit {0}) (w' : World). Piped w w' i o in
    let qs = q_ne t i o e0 e1 in
    let ps = p_ne t i o e0 e1 in
    Spec-bind P 1 12 _ _ w (
      dup-Spec _ w 0 i e0 (
        Spec-bind P 1 11 _ _ _ (
          dup-Spec _ _ 1 o (output_kept t i o e0 e1) (
            Spec-bind P 1 10 _ _ _ (
              pipe-Spec _ _ (
                Spec-bind P 5 5 _ _ _ (
                  cmd_try-Spec _ ls (ls ∷ la ∷ []) _ _ writer o (λ e. qs.1 (sym e))
                    (λ e. (b_ne t i o e0 e1).1 (sym e))
                    (at-put_self (t3 t i o) (q t i o) (some writer)) (at-t4-b t i o e0 e1)
                    (cmd_try-Spec P cat (cat ∷ []) _ _ reader i (λ e. ps.0 (sym e))
                      (λ e. (a_ne t i o e0 e1).0 (sym e)) (at-t5-p t i o e0 e1)
                      (at-t5-a t i o e0 e1)
                      (main-leaves_Piped t i o e0 e1 w refl clean _ refl)))))))))
