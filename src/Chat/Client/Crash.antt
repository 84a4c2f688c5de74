-- ===== src/Chat/Client/Crash.antt =====
-- Two lines in the queue at once.
use linux_system_programming.Prelude.{ℕ, ◌≡◌, ◌≢◌, refl, some, List, ◌∷◌, arith}
use linux_system_programming.Heap.{Ptr, null, Heap, write}
use linux_system_programming.Chat.LList.{LNode, empty, llist_remf}
use linux_system_programming.Chat.LList.Calls.{with_back, back_node}
use linux_system_programming.Transfers.{Call, all_sent, sendall}
use linux_system_programming.Transfers.Print.{until_nul}
use linux_system_programming.Chat.Client.{
  Client, Event, typed, turn, pipe_ready, crash, send_at, take_message, drain, go_round, step, run,
}
use linux_system_programming.Chat.Client.Lines.{
  posted, post-posted, sent_off, take_message-sent_off, idle,
}

write_there :
    {N : Type 0} (h : Heap N) (p q : Ptr) (m n : N)
    → p ≢ q
    → write (write h p (some m)) q (some n) p ≡ some m
unfolding write
write_there h p q m n ne = ground arith

-- A list whose head is NULL hands over NULL, at which strlen ends the process.
take_message-crash :
    (sends : List Call) (c : Client) → c.queue.head ≡ null → take_message sends c ≡ crash
unfolding take_message llist_remf send_at
take_message-crash sends c e = rw (take_message, llist_remf, e) refl

-- With the queue empty and `loop` at work: two lines are typed before `loop` goes round, with malloc
-- returning four addresses, and `sendall` succeeds for the first of them. Then the next round
-- crashes the process, whatever send would do and whatever would come after.
pub run-crash :
    (nodes : Heap LNode) (texts : Heap (List ℕ)) (sent shown : List ℕ)
    (fresh₁ fresh₂ msg₁ msg₂ : Ptr) (input₁ input₂ out : List ℕ) (sends₁ sends₂ : List Call)
    (events : List Event)
    → fresh₁ ≢ null
    → fresh₂ ≢ null
    → msg₁ ≢ null
    → msg₂ ≢ null
    → fresh₁ ≢ fresh₂
    → msg₁ ≢ msg₂
    → sendall sends₁ (until_nul input₁) ≡ all_sent out
    → run
        (typed fresh₁ msg₁ input₁
          ∷ typed fresh₂ msg₂ input₂
          ∷ turn (pipe_ready sends₁)
          ∷ turn (pipe_ready sends₂)
          ∷ events)
        (idle nodes texts sent shown)
      ≡ crash
unfolding run step go_round drain
run-crash nodes texts sent shown f f' m m' i i' out sends sends' events nf nf' nm nm' ne ne' all =
    let c = idle nodes texts sent shown in
    let c1 = posted f m i c in
    let c2 = posted f' m' i' c1 in
    let first = back_node m empty in
    let second = back_node m' (with_back f empty) in
    let at = write_there nodes f f' first second ne in
    let there = write_there texts m m' (until_nul i) (until_nul i') ne' in
    let c3 : Client = record c2 { pipe = 1 } in
    rw
      (
        run,
        step,
        post-posted f m i c nf nm,
        post-posted f' m' i' c1 nf' nm',
        drain,
        take_message-sent_off sends c3 first (until_nul i) out nf at nm there all,
        take_message-crash sends' (record (sent_off f first out c3) { pipe = 0 }) refl,
      )
      refl
