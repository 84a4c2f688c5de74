-- ===== src/Chat/Client/Lines.antt =====
-- Lines that are sent one by one reach the server.
use linux_system_programming.Prelude.{
  ℕ, suc, ◌+◌, ◌≤◌, ◌≡◌, ◌≢◌, refl, ap, ◌∙◌, true, false, ltb, Option, none, some, List, [], ◌∷◌,
  ◌++◌, arith, length, take, append_assoc, append-nil,
}
use linux_system_programming.Heap.{Ptr, null, Heap, write}
use linux_system_programming.Heap.Chain.{not_null}
use linux_system_programming.Chat.LList.{LNode, empty}
use linux_system_programming.Chat.LList.Calls.{
  with_back, less_front, back_node, llist_addl-ok, llist_remf-ok,
}
use linux_system_programming.Transfers.{
  Call, took, interrupted, failed, all_sent, sendall, send_loop,
}
use linux_system_programming.Transfers.Print.{until_nul}
use linux_system_programming.Sockets.Text.{shown_text-fits}
use linux_system_programming.Chat.Client.{
  Client, Event, typed, turn, pipe_ready, received, select_interrupted, running, add_message, post,
  send_message, send_at, take_message, drain, show, go_round, step, run,
}

-- The state behind a line that is put into the queue.
abbrev pub posted : Ptr → Ptr → List ℕ → Client → Client
posted fresh msg input c = record c {
  nodes = write c.nodes fresh (some (back_node msg c.queue));
  queue = with_back fresh c.queue;
  texts = write c.texts msg (some (until_nul input));
  pipe = suc c.pipe;
}

pub post-posted :
    (fresh msg : Ptr) (input : List ℕ) (c : Client)
    → fresh ≢ null
    → msg ≢ null
    → post fresh msg input c ≡ running (posted fresh msg input c)
unfolding post add_message
post-posted fresh msg input c nf nm =
    rw (not_null nm, add_message, llist_addl-ok c.nodes c.queue nm nf) refl

-- The state behind the sending of the front of the queue, a node whose successor is `next`.
abbrev pub sent_off : Ptr → LNode → List ℕ → Client → Client
sent_off head n out c = record c {
  nodes = write c.nodes head none;
  queue = less_front n.next c.queue;
  texts = write c.texts n.payload none;
  sent = c.sent ++ out;
}

pub take_message-sent_off :
    (sends : List Call) (c : Client) (n : LNode) (text out : List ℕ)
    → c.queue.head ≢ null
    → c.nodes c.queue.head ≡ some n
    → n.payload ≢ null
    → c.texts n.payload ≡ some text
    → sendall sends text ≡ all_sent out
    → take_message sends c ≡ running (sent_off c.queue.head n out c)
unfolding take_message send_at send_message
take_message-sent_off sends c n text out nh at np there sent =
    rw
      (
        take_message,
        llist_remf-ok c.nodes c.queue nh at,
        send_at,
        not_null np,
        there,
        send_message,
        sent,
      )
      refl

-- The queue and the pipe are empty and `loop` runs.
abbrev pub idle : Heap LNode → Heap (List ℕ) → List ℕ → List ℕ → Client
idle nodes texts sent shown = record {
  nodes = nodes;
  queue = empty;
  texts = texts;
  pipe = 0;
  sent = sent;
  shown = shown;
  looping = true;
}

-- Calls of send for `n` bytes: signals interrupt some, and then one takes all of them. For no bytes
-- there is no call.
pub data TakesAll (n : ℕ) : List Call → Type 0 where
  takes : (calls : List Call) → TakesAll n (took n ∷ calls)
  again : {calls : List Call} → TakesAll n calls → TakesAll n (interrupted ∷ calls)
  no_bytes : n ≡ 0 → TakesAll n []

take_all : (text : List ℕ) → take (length text) text ≡ text
take_all [] = refl
take_all (c ∷ text) = ap (c ∷◌) (take_all text)

-- The `while` has sent enough.
send_loop_over :
    (calls : List Call) (buf : List ℕ) (i : ℕ) (out : List ℕ)
    → ltb i (length buf) ≡ false
    → send_loop calls buf i out ≡ all_sent out
unfolding send_loop
send_loop_over [] buf i out e = rw e refl
send_loop_over (took n ∷ calls) buf i out e = rw e refl
send_loop_over (interrupted ∷ calls) buf i out e = rw e refl
send_loop_over (failed ∷ calls) buf i out e = rw e refl

send_loop-TakesAll :
    (text : List ℕ) (calls : List Call)
    → TakesAll (length text) calls
    → send_loop calls text 0 [] ≡ all_sent text
unfolding send_loop
send_loop-TakesAll [] calls t = send_loop_over calls [] 0 [] refl
send_loop-TakesAll (c ∷ text) calls (takes rest) =
    let more : ltb 0 (suc (length text)) ≡ true = ground arith in
    rw more (
      send_loop_over rest (c ∷ text) (0 + suc (length text)) (c ∷ take (length text) text)
        (ground arith)
      ∙ ap (λ l. all_sent (c ∷ l)) (take_all text))
send_loop-TakesAll (c ∷ text) calls (again {calls = later} t) =
    let more : ltb 0 (suc (length text)) ≡ true = ground arith in
    rw more (send_loop-TakesAll (c ∷ text) later t)
send_loop-TakesAll (c ∷ text) calls (no_bytes e) = absurd (omega (arith, e))

-- For these calls sendall sends the text, once.
pub sendall-TakesAll :
    (text : List ℕ) (calls : List Call)
    → TakesAll (length text) calls
    → sendall calls text ≡ all_sent text
unfolding sendall
sendall-TakesAll text calls t = send_loop-TakesAll text calls t

-- What happens when each line is sent, by a call of send that takes it all, before the next one is
-- typed; what the server gets, and what is shown of its chunks.
pub data OneByOne : List Event → List ℕ → List ℕ → Type 0 where
  over : OneByOne [] [] []
  line :
      {events : List Event} {sent shown : List ℕ} (fresh msg : Ptr) (input : List ℕ)
      (sends : List Call)
      → fresh ≢ null
      → msg ≢ null
      → TakesAll (length (until_nul input)) sends
      → OneByOne events sent shown
      → OneByOne
          (typed fresh msg input ∷ turn (pipe_ready sends) ∷ events)
          (until_nul input ++ sent)
          shown
  chunk :
      {events : List Event} {sent shown : List ℕ} (bytes : List ℕ)
      → length bytes ≤ 512
      → OneByOne events sent shown
      → OneByOne (turn (received bytes) ∷ events) sent (until_nul bytes ++ shown)
  signalled :
      {events : List Event} {sent shown : List ℕ}
      → OneByOne events sent shown
      → OneByOne (turn select_interrupted ∷ events) sent shown

pub write_here : {N : Type 0} (h : Heap N) (p : Ptr) (c : Option N) → write h p c p ≡ c
unfolding write
write_here h p c = ground arith

module _ (nodes : Heap LNode) (texts : Heap (List ℕ)) where
  -- The heaps behind a line that was sent.
  abbrev nodes_after : Ptr → Ptr → Heap LNode
  nodes_after fresh msg = write (write nodes fresh (some (back_node msg empty))) fresh none

  abbrev texts_after : Ptr → List ℕ → Heap (List ℕ)
  texts_after msg input = write (write texts msg (some (until_nul input))) msg none

  run-line :
      (sent shown : List ℕ) (fresh msg : Ptr) (input : List ℕ) (sends : List Call)
      (events : List Event)
      → fresh ≢ null
      → msg ≢ null
      → sendall sends (until_nul input) ≡ all_sent (until_nul input)
      → run (typed fresh msg input ∷ turn (pipe_ready sends) ∷ events) (idle nodes texts sent shown)
        ≡ run events
            (idle (nodes_after fresh msg) (texts_after msg input) (sent ++ until_nul input) shown)
  unfolding run step go_round drain
  run-line sent shown fresh msg input sends events nf nm all =
      let c = posted fresh msg input (idle nodes texts sent shown) in
      rw
        (
          run,
          step,
          post-posted fresh msg input (idle nodes texts sent shown) nf nm,
          drain,
          take_message-sent_off sends (record c { pipe = 0 }) (back_node msg empty)
              (until_nul input) (until_nul input) nf
              (write_here nodes fresh (some (back_node msg empty))) nm
              (write_here texts msg (some (until_nul input))) all,
        )
        refl

  run-chunk :
      (sent shown bytes : List ℕ) (events : List Event)
      → length bytes ≤ 512
      → run (turn (received bytes) ∷ events) (idle nodes texts sent shown)
        ≡ run events (idle nodes texts sent (shown ++ until_nul bytes))
  unfolding run step go_round show
  run-chunk sent shown bytes events le =
      rw (run, step, show, shown_text-fits (512 + 1) 0 bytes (omega (arith, le))) refl

-- With the queue empty and `loop` at work, if each line of stdin is sent before the next one is
-- typed, and select, recv and malloc do not fail: the server gets the texts of the lines in order,
-- each chunk is shown up to its first NUL, and the queue is empty again.
pub run-OneByOne :
    (nodes : Heap LNode) (texts : Heap (List ℕ)) (before seen sent shown : List ℕ)
    (events : List Event)
    → OneByOne events sent shown
    → (nodes' : Heap LNode) × (texts' : Heap (List ℕ)) × (run events (idle nodes texts before seen)
        ≡ running (idle nodes' texts' (before ++ sent) (seen ++ shown)))
unfolding run
run-OneByOne nodes texts before seen sent shown events over =
    (nodes, texts, rw (append-nil before, append-nil seen) refl)
run-OneByOne nodes texts before seen sent shown events
      (line {events = later} {sent = more} fresh msg input sends nf nm all rest) =
    let (nodes', texts', e) =
      run-OneByOne (nodes_after nodes texts fresh msg) (texts_after nodes texts msg input)
        (before ++ until_nul input) seen more shown _ rest in
    (
      nodes',
      texts',
      run-line nodes texts before seen fresh msg input sends later nf nm
            (sendall-TakesAll (until_nul input) sends all)
          ∙ e
          ∙ ap (λ l. running (idle nodes' texts' l (seen ++ shown)))
              (append_assoc before (until_nul input) more),
    )
run-OneByOne nodes texts before seen sent shown events
      (chunk {events = later} {shown = more} bytes le rest) =
    let (nodes', texts', e) =
      run-OneByOne nodes texts before (seen ++ until_nul bytes) sent more _ rest in
    (
      nodes',
      texts',
      run-chunk nodes texts before seen bytes later le
          ∙ e
          ∙ ap (λ l. running (idle nodes' texts' (before ++ sent) l))
              (append_assoc seen (until_nul bytes) more),
    )
run-OneByOne nodes texts before seen sent shown events (signalled rest) =
    run-OneByOne nodes texts before seen sent shown _ rest
