-- ===== src/Sockets/Messages.antt =====
-- 00-network-programming/examples/listener.c: a message is shown, and a line of stdin is the reply.
use linux_system_programming.Prelude.{
  ℕ, Bool, if◌then◌else◌, suc, ◌+◌, ◌*◌, ◌^◌, ◌<◌, ◌≤◌, ◌≡◌, ◌≢◌, refl, sym, ap, ◌∙◌, Option, none,
  some, List, [], ◌∷◌, ◌++◌, arith, length, length-append, take, append_assoc, append-nil,
}
use linux_system_programming.Kernel.{Address}
use linux_system_programming.Buffers.Shell.{Ending, newline, NoNewline}
use linux_system_programming.Buffers.Reply.{reply, exits, overrun, input_reply, input_reply-reply}
use linux_system_programming.Transfers.Print.{until_nul}
use linux_system_programming.Sockets.Text.{
  shown_text, shown_text-fits, shown_text-full, NoNul, NoNul-append, until_nul-take,
}

-- RECVSIZE
abbrev pub recvsize : ℕ
recvsize = 2048

-- What recvfrom gives: the peer and the bytes; and whether sendto to that peer succeeds then.
pub record Message : Type 0 where
  pub peer : Address
  pub bytes : List ℕ
  pub sends : Bool

-- What went out: the peer that it was sent to and its bytes, nothing where sendto failed.
abbrev pub Sent : Type 0
Sent = Option (Address × List ℕ)

-- What a call of `handle_message` does: nothing where recvfrom fails; it shows a message and sends
-- a reply, with the bytes of stdin that are left; the program exits; or a write leaves an array.
pub data Handled : Type 0 where
  no_message : Handled
  replied : (shown : List ℕ) (sent : Sent) (stdin : List ℕ) → Handled
  stops : (shown : List ℕ) (code : ℕ) → Handled
  out_of_bounds : Handled

-- `shown` is what the message showed. That sendto fails is only reported.
unfoldable pub reply_message : ℕ → Message → List ℕ → List ℕ → Ending → Handled
unfolding input_reply until_nul
reply_message junk m shown stdin end = elim (input_reply junk stdin end) [
  | reply buf rest ↦ replied shown (if m.sends then some (m.peer, until_nul buf) else none) rest
  | exits code ↦ stops shown code
  | overrun ↦ out_of_bounds
]

-- `none` where recvfrom fails; it gives at most the `sizeof buf` bytes that it is told.
unfoldable pub handle_message : ℕ → Option Message → List ℕ → Ending → Handled
unfolding shown_text reply_message
handle_message junk none stdin end = no_message
handle_message junk (some m) stdin end = elim (shown_text (recvsize + 1) junk m.bytes) [
  | none ↦ out_of_bounds
  | some shown ↦ reply_message junk m shown stdin end
]

-- What a run of `serve_forever` has shown and sent, and how it ended: it waits for a message, it
-- exits, or it writes outside of an array.
pub data Served : Type 0 where
  listening : (talk : List (List ℕ × Sent)) (stdin : List ℕ) → Served
  exited : (talk : List (List ℕ × Sent)) (shown : List ℕ) (code : ℕ) → Served
  broken : (talk : List (List ℕ × Sent)) → Served

-- The messages that recvfrom gives, before it gives no more.
unfoldable pub serve_forever :
    ℕ → List (Option Message) → List ℕ → Ending → List (List ℕ × Sent) → Served
unfolding handle_message
serve_forever junk [] stdin end talk = listening talk stdin
serve_forever junk (m ∷ messages) stdin end talk = elim (handle_message junk m stdin end) [
  | no_message ↦ serve_forever junk messages stdin end talk
  | replied shown sent rest ↦ serve_forever junk messages rest end (talk ++ (shown, sent) ∷ [])
  | stops shown code ↦ exited talk shown code
  | out_of_bounds ↦ broken talk
]

-- A line of stdin that `input_reply` can hold: without a line feed or NUL in it, and with its line
-- feed not 8, 16, 32, … bytes long, and so short that no `int` overflows.
pub record IsLine (cs : List ℕ) : Type 0 where
  pub whole : NoNewline cs
  pub text : NoNul cs
  pub short : length cs < 1073741824
  pub fits : (k : ℕ) → suc (length cs) ≢ 8 * 2 ^ k

-- What goes out as the answer to a message: the line, to the peer that has sent the message.
abbrev pub answer : Message → List ℕ → Sent
answer m cs = if m.sends then some (m.peer, cs ++ newline ∷ []) else none

handle_message-replied :
    (junk : ℕ) (m : Message) (cs rest : List ℕ) (end : Ending)
    → length m.bytes ≤ recvsize
    → IsLine cs
    → handle_message junk (some m) (cs ++ newline ∷ rest) end
      ≡ replied (until_nul m.bytes) (answer m cs) rest
unfolding handle_message reply_message
handle_message-replied junk m cs rest end le line =
    let (b, runs, begins) = input_reply-reply junk cs rest end line.whole line.fits in
    let text = NoNul-append cs (newline ∷ []) line.text ((λ e. cc), tt) in
    let long : length (cs ++ newline ∷ []) ≡ suc (length cs) =
      omega (arith, length-append cs (newline ∷ [])) in
    let string : until_nul b ≡ cs ++ newline ∷ [] =
      until_nul-take (cs ++ newline ∷ []) b text
        (ap (λ n. take (suc n) b) long ∙ begins ∙ sym (append_assoc cs (newline ∷ []) (0 ∷ []))) in
    rw
      (
        shown_text-fits (recvsize + 1) junk m.bytes (omega (arith, le)),
        handle_message,
        runs,
        reply_message,
        string,
      )
      refl

-- A message as long as the array is told to be, one byte more than RECVSIZE, makes
-- `handle_message` write the NUL behind the array.
pub handle_message-overrun :
    (junk : ℕ) (m : Message) (stdin : List ℕ) (end : Ending)
    → length m.bytes ≡ suc recvsize
    → handle_message junk (some m) stdin end ≡ out_of_bounds
unfolding handle_message
handle_message-overrun junk m stdin end e =
    rw (shown_text-full (recvsize + 1) junk m.bytes (omega (arith, e)), handle_message) refl

-- The messages and the lines typed in, in order; recvfrom may fail in between.
pub data Exchange : List (Option Message) → List ℕ → List (List ℕ × Sent) → List ℕ → Type 0 where
  nothing : (rest : List ℕ) → Exchange [] rest [] rest
  lost :
      {messages : List (Option Message)} {stdin rest : List ℕ} {talk : List (List ℕ × Sent)}
      → Exchange messages stdin talk rest
      → Exchange (none ∷ messages) stdin talk rest
  exchanged :
      {messages : List (Option Message)} {stdin rest : List ℕ} {talk : List (List ℕ × Sent)}
      (m : Message) (cs : List ℕ)
      → length m.bytes ≤ recvsize
      → IsLine cs
      → Exchange messages stdin talk rest
      → Exchange
          (some m ∷ messages)
          (cs ++ newline ∷ stdin)
          ((until_nul m.bytes, answer m cs) ∷ talk)
          rest

serve_from :
    (junk : ℕ) {messages : List (Option Message)} {stdin rest : List ℕ}
    {talk : List (List ℕ × Sent)} (end : Ending) (before : List (List ℕ × Sent))
    → Exchange messages stdin talk rest
    → serve_forever junk messages stdin end before ≡ listening (before ++ talk) rest
unfolding serve_forever
serve_from junk end before (nothing rest) = ap (λ l. listening l rest) (sym (append-nil before))
serve_from junk end before (lost x) = serve_from junk end before x
serve_from junk end before (exchanged {stdin = stdin} {rest = left} {talk = talk} m cs le line x) =
    rw (handle_message-replied junk m cs stdin end le line, serve_forever)
      (serve_from junk end (before ++ (until_nul m.bytes, answer m cs) ∷ []) x
        ∙ ap (λ l. listening l left)
            (append_assoc before ((until_nul m.bytes, answer m cs) ∷ []) talk))

-- For messages of at most RECVSIZE bytes and lines that fit, `serve_forever` shows each message up
-- to its first NUL and sends the next line of stdin, its line feed included, to the peer of that
-- message, in order; where sendto fails no answer goes out and the line is lost.
pub serve_forever-Exchange :
    (junk : ℕ) (messages : List (Option Message)) (stdin rest : List ℕ)
    (talk : List (List ℕ × Sent)) (end : Ending)
    → Exchange messages stdin talk rest
    → serve_forever junk messages stdin end [] ≡ listening talk rest
serve_forever-Exchange junk messages stdin rest talk end x = serve_from junk end [] x
