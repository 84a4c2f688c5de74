-- ===== src/Pipe/Tests.antt =====
-- Runs of 04-process-management/pipe.c.
use linux_system_programming.Prelude.{
  ℕ, ◌<◌, ◌≡◌, ◌≢◌, refl, subst, ◌⊎◌, List, [], ◌∷◌, arith, take,
}
use linux_system_programming.Buffers.{put_byte, put_bytes, enlarge}
use linux_system_programming.Transfers.Print.{until_nul}
use linux_system_programming.Sockets.Text.{NoNul}
use linux_system_programming.Pipe.{
  reading, shown, overrun, returned, State, init, after_read, show_buffer, more_room, Move, writes,
  closes, starts, reads, read_ends, Reach, begin, then_move,
}
use linux_system_programming.Pipe.Invariant.{shown-text}
use linux_system_programming.Pipe.Progress.{weight, Goes, Ended, ends_or_goes}

abbrev hello : List ℕ
hello = b'h' ∷ b'e' ∷ b'l' ∷ []

-- A write of three bytes, then one read of two bytes and one of a single byte.
abbrev after_the_text : (s : State) × Reach hello 8 s
after_the_text =
    let s1 = record init { child = reading 2 0 (7 ∷ 7 ∷ 7 ∷ []) } in
    let r1 : Reach hello 8 s1 = then_move begin (starts (7 ∷ 7 ∷ 7 ∷ []) refl refl) in
    let s2 = record s1 { sent = 3; stream = hello } in
    let r2 : Reach hello 8 s2 =
      then_move r1 (writes 3 refl (omega arith) (omega arith) (omega arith) (omega arith)) in
    let s3 = record s2 {
      stream = b'l' ∷ [];
      child = after_read 9 2 0 (7 ∷ 7 ∷ 7 ∷ []) (b'h' ∷ b'e' ∷ []);
    } in
    let r3 : Reach hello 8 s3 = then_move r2 (
      reads 9 2 0 (7 ∷ 7 ∷ 7 ∷ []) (b'h' ∷ b'e' ∷ []) (b'l' ∷ []) refl refl (omega arith)
        (omega arith)) in
    (s3, r3)

abbrev first_buf : List ℕ
first_buf = b'h' ∷ b'e' ∷ 7 ∷ 9 ∷ 9 ∷ []

abbrev last_buf : List ℕ
last_buf = b'h' ∷ b'e' ∷ b'l' ∷ 9 ∷ 9 ∷ 9 ∷ 9 ∷ 9 ∷ 9 ∷ []

grows : after_read 9 2 0 (7 ∷ 7 ∷ 7 ∷ []) (b'h' ∷ b'e' ∷ []) ≡ reading 4 2 first_buf
unfolding after_read put_bytes more_room put_byte enlarge
grows = refl

grows_again : after_read 9 4 2 first_buf (b'l' ∷ []) ≡ reading 8 3 last_buf
unfolding after_read put_bytes more_room put_byte enlarge
grows_again = refl

shows_it : show_buffer 3 last_buf ≡ shown 3 hello
unfolding show_buffer put_byte until_nul
shows_it = refl

abbrev ended : State
ended = record { sent = 3; parent = returned 0; stream = []; child = shown 3 hello }

ended-Reach : Reach hello 8 ended
ended-Reach =
    let s4 = record (after_the_text.0) {
      stream = [];
      child = after_read 9 4 2 first_buf (b'l' ∷ []);
    } in
    let r4 : Reach hello 8 s4 =
      then_move after_the_text.1
        (reads 9 4 2 first_buf (b'l' ∷ []) [] grows refl (omega arith) (omega arith)) in
    let s5 = record s4 { parent = returned 0 } in
    let r5 : Reach hello 8 s5 = then_move r4 (closes refl (λ lt. omega (arith, lt))) in
    subst (λ c. Reach hello 8 (record ended { child = c })) shows_it
      (then_move r5 (read_ends 8 3 last_buf grows_again refl (λ q. cc)))

hello-NoNul : NoNul hello
hello-NoNul = (λ e. omega (arith, e), (λ e. omega (arith, e), (λ e. omega (arith, e), tt)))

shown-text_example :
    (ended.child ≢ overrun)
    × ((n : ℕ) (t : List ℕ)
        → ended.child ≡ shown n t
        → (n ≡ ended.sent) × (t ≡ take ended.sent hello) × (ended.parent ≡ returned 0 → t ≡ hello))
shown-text_example = shown-text hello 8 ended hello-NoNul ended-Reach

ends_or_goes_example :
    (Ended after_the_text.0 ⊎ Goes hello 8 after_the_text.0)
    × ((s' : State)
        → Move hello 8 after_the_text.0 s'
        → (s' ≡ after_the_text.0) ⊎ (weight hello s' < weight hello after_the_text.0))
unfolding after_read put_bytes more_room put_byte enlarge
ends_or_goes_example =
    ends_or_goes hello 8 after_the_text.0 hello-NoNul (omega arith) after_the_text.1 (λ e. cc)
