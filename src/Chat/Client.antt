-- ===== src/Chat/Client.antt =====
-- 00-network-programming/examples/chat/client.c: the thread of `main` reads lines and puts them
-- into the queue, and the thread of `loop` takes them out and sends them. What the two threads do
-- is a list of events; a call of the linked list is one event's, though nothing in the code keeps
-- the two threads apart there.
pub mod Lines
pub mod Crash
pub mod Connect
pub mod Main
mod Tests
use linux_system_programming.Prelude.{
  ℕ, zero, suc, ◌+◌, Bool, true, false, Option, none, some, List, [], ◌∷◌, ◌++◌, ◌==◌,
  if◌then◌else◌, ℤ, pos, minus_one,
}
use linux_system_programming.Heap.{Ptr, null, Heap, Run, ok, write}
use linux_system_programming.Chat.LList.{LNode, LList, empty, llist_addl, llist_remf}
use linux_system_programming.Transfers.{Call, Sent, all_sent, sendall}
use linux_system_programming.Transfers.Print.{until_nul}
use linux_system_programming.Sockets.Text.{shown_text}

-- The globals of the process: the nodes and the list, the texts that malloc holds, the bytes in the
-- pipe, what the server got and what was shown; `looping` while the thread of `loop` runs.
pub record Client : Type 0 where
  pub nodes : Heap LNode
  pub queue : LList
  pub texts : Heap (List ℕ)
  pub pipe : ℕ
  pub sent : List ℕ
  pub shown : List ℕ
  pub looping : Bool

-- What select tells `loop`, with what the calls after it do: EINTR, another error, a byte in the
-- pipe with the calls of send, or only the socket, where recv fails, finds the end, or gives bytes.
pub data Select : Type 0 where
  select_interrupted select_failed : Select
  pipe_ready : (sends : List Call) → Select
  recv_failed disconnected : Select
  received : (bytes : List ℕ) → Select

-- What happens next: fgets gives `main` a line, with the addresses that malloc returns for the node
-- and for the message, or no line; or `loop` goes round once.
pub data Event : Type 0 where
  typed : (fresh msg : Ptr) (input : List ℕ) → Event
  no_line : (is_error : Bool) → Event
  turn : (select : Select) → Event

-- Where the process is: it runs, `main` has returned, a call does not return, or a bad pointer or a
-- write outside of an array has ended it.
pub data Progress : Type 0 where
  running : (client : Client) → Progress
  returned : (code : ℕ) (client : Client) → Progress
  stuck : Progress
  crash : Progress

-- llist_addl(&queue, msg), whose result is not tested, and the byte for the pipe.
unfoldable pub add_message : Ptr → Ptr → Client → Progress
add_message fresh msg c = elim (llist_addl fresh (some c.queue) msg c.nodes) [
  | ok r g ↦ elim r.1 [
    | none ↦ crash
    | some l ↦ running (record c { nodes = g; queue = l; pipe = suc c.pipe })
  ]
  | Run.fault ↦ crash
  | Run.out_of_fuel ↦ crash
]

-- malloc and strncpy, without a test of malloc's result.
unfoldable pub post : Ptr → Ptr → List ℕ → Client → Progress
unfolding add_message write until_nul
post fresh msg input c =
    if msg == null
    then crash
    else add_message fresh msg (record c { texts = write c.texts msg (some (until_nul input)) })

-- sendall and free, for a message with this text; that sendall fails is not tested.
unfoldable pub send_message : List Call → Ptr → List ℕ → Client → Progress
unfolding sendall write
send_message sends msg text c = elim (sendall sends text) [
  | all_sent out ↦ running (record c { sent = c.sent ++ out; texts = write c.texts msg none })
  | Sent.error out ↦ running (record c { sent = c.sent ++ out; texts = write c.texts msg none })
  | Sent.blocked out ↦ stuck
]

-- strlen at NULL, or where no text is, is a crash.
unfoldable pub send_at : List Call → Ptr → Client → Progress
unfolding send_message
send_at sends msg c =
    if msg == null
    then crash
    else (elim (c.texts msg) [ none ↦ crash | some text ↦ send_message sends msg text c ])

-- The message at the front of the list.
unfoldable pub take_message : List Call → Client → Progress
unfolding send_at
take_message sends c = elim (llist_remf (some c.queue) c.nodes) [
  | ok r g ↦ elim r.1 [
    | none ↦ crash
    | some l ↦ send_at sends r.0 (record c { nodes = g; queue = l })
  ]
  | Run.fault ↦ crash
  | Run.out_of_fuel ↦ crash
]

-- read(pd, rbuf, 1) waits while the pipe is empty.
unfoldable pub drain : List Call → Client → Progress
unfolding take_message
drain sends c = elim c.pipe [ zero ↦ stuck | suc n ↦ take_message sends (record c { pipe = n }) ]

-- `rbuf` has 512 + 1 bytes.
unfoldable pub show : List ℕ → Client → Progress
unfolding shown_text
show bytes c = elim (shown_text (512 + 1) 0 bytes) [
  | none ↦ crash
  | some text ↦ running (record c { shown = c.shown ++ text })
]

-- A round of the `while` of `loop`.
unfoldable pub go_round : Select → Client → Progress
unfolding drain show
go_round select_interrupted c = running c
go_round select_failed c = running (record c { looping = false })
go_round (pipe_ready sends) c = drain sends c
go_round recv_failed c = running (record c { looping = false })
go_round disconnected c = running (record c { looping = false })
go_round (received bytes) c = show bytes c

-- When `loop` has returned it goes round no more.
unfoldable pub step : Event → Client → Progress
unfolding post go_round
step (typed fresh msg input) c = post fresh msg input c
step (no_line is_error) c = returned (if is_error then 1 else 0) c
step (turn select) c = let next = go_round select c in if c.looping then next else running c

unfoldable pub run : List Event → Client → Progress
unfolding step
run [] c = running c
run (e ∷ events) c = elim (step e c) [
  | running c' ↦ run events c'
  | returned code c' ↦ returned code c'
  | stuck ↦ stuck
  | crash ↦ crash
]
