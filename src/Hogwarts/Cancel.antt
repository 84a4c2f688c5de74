-- ===== src/Hogwarts/Cancel.antt =====
-- Which elves are cancelled: those that Dobby has joined, and no other.
use linux_system_programming.Prelude.{
  ℕ, zero, suc, ◌≤◌, ◌≡◌, refl, sym, ap, subst, ◌∙◌, ◌≢◌, inl, inr, Bool, true, false, some, List,
  arith, ltb, length, set, get_elem?, length-set, get_elem?-set_cases, lt-length_of_get_elem?,
}
use linux_system_programming.Hogwarts.{
  num_elves, Elf, idle, got, inside, took, counted, leaving, working, cancelled, Dobby, waits,
  checks, posts, releases, cancels, returned, State, init, Step, d_wait, d_batch, d_post, d_posted,
  d_release, d_again, d_finish, d_cancel_idle, d_cancel_working, d_return, e_wait, e_lock, e_take,
  e_take_empty, e_count, e_wake, e_pass, e_unlock, e_work, Reach, start, later,
}

abbrev pub is_cancelled : Elf → Bool
is_cancelled cancelled = true
is_cancelled idle = false
is_cancelled got = false
is_cancelled inside = false
is_cancelled (took id) = false
is_cancelled (counted id) = false
is_cancelled (leaving id) = false
is_cancelled (working id) = false

-- The elves that Dobby has cancelled and joined: those below this index.
abbrev pub gone : Dobby → ℕ
gone (cancels i) = i
gone returned = num_elves
gone waits = 0
gone checks = 0
gone (posts k n) = 0
gone (releases k) = 0

pub record Elves (es : List Elf) (n : ℕ) : Type 0 where
  pub size : length es ≡ num_elves
  pub bound : n ≤ num_elves
  pub cut : (j : ℕ) (e : Elf) → get_elem? es j ≡ some e → is_cancelled e ≡ ltb j n

-- An elf that goes on is as alive as before.
Elves-set :
    {es : List Elf} {n : ℕ} (i : ℕ) (old new : Elf)
    → Elves es n
    → get_elem? es i ≡ some old
    → is_cancelled new ≡ is_cancelled old
    → Elves (set es i new) n
Elves-set {es} {n} i old new v h same = record {
  size = length-set es i new ∙ v.size;
  bound = v.bound;
  cut = λ j e at. elim (get_elem?-set_cases es i j new e (lt-length_of_get_elem? es i old h) at) [
    | inl here ↦ ap is_cancelled (sym here.1) ∙ same ∙ v.cut i old h ∙ ap (λ k. ltb k n) here.0
    | inr there ↦ v.cut j e there.1
  ];
}

Elves-cancel :
    {es : List Elf} {i : ℕ} (old : Elf)
    → Elves es i
    → get_elem? es i ≡ some old
    → Elves (set es i cancelled) (suc i)
Elves-cancel {es} {i} old v h = record {
  size = length-set es i cancelled ∙ v.size;
  bound = omega (arith, lt-length_of_get_elem? es i old h, v.size);
  cut = λ j e at.
      elim (get_elem?-set_cases es i j cancelled e (lt-length_of_get_elem? es i old h) at) [
        | inl here ↦ ap is_cancelled (sym here.1) ∙ below i j here.0
        | inr there ↦ v.cut j e there.1 ∙ beside i j there.0
      ];
}
  where
    below : (i j : ℕ) → i ≡ j → true ≡ ltb j (suc i)
    below i j q = ground arith

    beside : (i j : ℕ) → i ≢ j → ltb j i ≡ ltb j (suc i)
    beside i j q = ground arith

-- A step of Dobby that cancels nobody.
Elves-gone : {es : List Elf} {m n : ℕ} → m ≡ n → Elves es m → Elves es n
Elves-gone e v = subst (Elves _) e v

Step-Elves : {s t : State} → Step s t → Elves s.elves (gone s.dobby) → Elves t.elves (gone t.dobby)
Step-Elves (d_wait e h) v = Elves-gone (ap gone e) v
Step-Elves (d_batch e h) v = Elves-gone (ap gone e) v
Step-Elves (d_post k n e) v = Elves-gone (ap gone e) v
Step-Elves (d_posted n e) v = Elves-gone (ap gone e) v
Step-Elves (d_release k e) v = Elves-gone (ap gone e) v
Step-Elves (d_again e) v = Elves-gone (ap gone e) v
Step-Elves (d_finish e h) v = Elves-gone (ap gone e) v
Step-Elves (d_cancel_idle i e h) v = Elves-cancel idle (Elves-gone (ap gone e) v) h
Step-Elves (d_cancel_working i id e h) v = Elves-cancel (working id) (Elves-gone (ap gone e) v) h
Step-Elves (d_return e) v = Elves-gone (ap gone e) v
Step-Elves (e_wait i h tok) v = Elves-set i idle got v h refl
Step-Elves (e_lock i h f) v = Elves-set i got inside v h refl
Step-Elves (e_take i id rest h l) v = Elves-set i inside (took id) v h refl
Step-Elves (e_take_empty i h l) v = v
Step-Elves (e_count i id h) v = Elves-set i (took id) (counted id) v h refl
Step-Elves (e_wake i id h z) v = Elves-set i (counted id) (leaving id) v h refl
Step-Elves (e_pass i id h nz) v = Elves-set i (counted id) (leaving id) v h refl
Step-Elves (e_unlock i id h) v = Elves-set i (leaving id) (working id) v h refl
Step-Elves (e_work i id h) v = Elves-set i (working id) idle v h refl

Elves-init : (n j : ℕ) (e : Elf) → get_elem? (init n).elves j ≡ some e → is_cancelled e ≡ ltb j 0
Elves-init n zero e h = ground arith
Elves-init n (suc zero) e h = ground arith
Elves-init n (suc (suc zero)) e h = ground arith
Elves-init n (suc (suc (suc zero))) e h = ground arith
Elves-init n (suc (suc (suc (suc zero)))) e h = ground arith
Elves-init n (suc (suc (suc (suc (suc j))))) e h = cc

pub Reach-Elves : {tasks : ℕ} {s : State} → Reach tasks s → Elves s.elves (gone s.dobby)
Reach-Elves {tasks} start = record { size = refl; bound = omega arith; cut = Elves-init tasks }
Reach-Elves (later r st) = Step-Elves st (Reach-Elves r)
