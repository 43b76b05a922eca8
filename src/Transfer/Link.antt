-- ===== src/Transfer/Link.antt =====
-- The two programs of Part III together. Datagrams arrive in order and unharmed, but for those that the
-- server throws away, and `recvfrom` of the sender gives up only where nothing is on its way.
pub mod Complete
pub mod Copy
pub mod Failures
use ece.Base.{
  ℕ, List, [], ◌∷◌, ◌++◌, Option, none, some, Bool, true, false, Bytes, ◌>>=◌, length, ltb,
  if◌then◌else◌,
}
use ece.Transfer.FileServer.{FileServer, receive_datagram}
use ece.Transfer.Deliver.{
  Sender, sending, parting, finished, exited, Answer, reply, timed_out, next_fragment,
  receive_answer, file_datagrams,
}

-- What was sent to the sender and not read yet stands in `inbox`.
pub record Link : Type 0 where
  pub sender : Sender
  pub inbox : List Bytes
  pub server : FileServer

-- The loop that waits for the goodbye reads on; no other loop reads without sending first.
unfoldable pub read_on : List Bytes → Sender → Sender × List Bytes
unfolding receive_answer
read_on [] s = (s, [])
read_on (text ∷ texts) parting = (receive_answer (reply text) parting, texts)
read_on (text ∷ texts) s = (s, text ∷ texts)

-- The `recvfrom` behind a `sendto`.
unfoldable pub read_answer : List Bytes → Sender → Sender × List Bytes
unfolding receive_answer read_on
read_answer [] s = (receive_answer timed_out s, [])
read_answer (text ∷ texts) s = read_on texts (receive_answer (reply text) s)

-- A `sendto` of the sender, the server's work on it with one draw, and the `recvfrom`.
unfoldable pub exchange : (Bytes → Bool) → ℕ → Link → Option Link
unfolding receive_datagram read_answer
exchange opens draw link = elim link.sender [
  | sending datagram datagrams ↦ receive_datagram opens draw datagram link.server >>= λ r.
      let (sender, inbox) = read_answer (link.inbox ++ r.1) link.sender in
      some (record { sender = sender; inbox = inbox; server = r.0 })
  | other ↦ some link
]

unfoldable pub run : (Bytes → Bool) → List ℕ → Link → Option Link
unfolding exchange
run opens [] link = some link
run opens (draw ∷ draws) link = exchange opens draw link >>= λ next. run opens draws next

-- The sender at the start of a transfer.
unfoldable pub start_transfer : Bytes → Bytes → FileServer → Option Link
unfolding file_datagrams next_fragment
start_transfer name content server = file_datagrams name content >>= λ datagrams.
    some (record { sender = next_fragment datagrams; inbox = []; server = server })
