-- ===== src/Transfer/Plain/Link.antt =====
-- The two programs of Part II together, over a channel that keeps every datagram and their order.
pub mod Complete
pub mod Copy
use ece.Base.{ℕ, zero, suc, List, [], ◌∷◌, ◌++◌, Option, none, some, Bool, Bytes, ◌>>=◌}
use ece.Transfer.Deliver.{file_datagrams}
use ece.Transfer.Plain.{PlainServer, receive_packet}
use ece.Transfer.Plain.Deliver.{
  PlainSender, sending, parting, blocked, finished, next_datagram, receive_reply, receive_goodbye,
}

-- What was sent to the sender and not read yet stands in `inbox`.
pub record PlainLink : Type 0 where
  pub sender : PlainSender
  pub inbox : List Bytes
  pub server : PlainServer

unfoldable pub read_goodbye : List Bytes → PlainSender → PlainSender × List Bytes
unfolding receive_goodbye
read_goodbye [] s = (s, [])
read_goodbye (text ∷ texts) parting = (receive_goodbye text parting, texts)
read_goodbye (text ∷ texts) s = (s, text ∷ texts)

-- The `recvfrom` behind a `sendto` does not give up.
unfoldable pub read_reply : List Bytes → List Bytes → PlainSender × List Bytes
unfolding receive_reply read_goodbye
read_reply [] datagrams = (blocked, [])
read_reply (text ∷ texts) datagrams = read_goodbye texts (receive_reply text datagrams)

unfoldable pub exchange_packet : (Bytes → Bool) → PlainLink → Option PlainLink
unfolding receive_packet read_reply
exchange_packet opens link = elim link.sender [
  | sending datagram datagrams ↦ receive_packet opens datagram link.server >>= λ r.
      let (sender, inbox) = read_reply (link.inbox ++ r.1) datagrams in
      some (record { sender = sender; inbox = inbox; server = r.0 })
  | other ↦ some link
]

unfoldable pub exchanges : (Bytes → Bool) → ℕ → PlainLink → Option PlainLink
unfolding exchange_packet
exchanges opens zero link = some link
exchanges opens (suc rounds) link =
    exchange_packet opens link >>= λ next. exchanges opens rounds next

unfoldable pub start_plain : Bytes → Bytes → PlainServer → Option PlainLink
unfolding file_datagrams next_datagram
start_plain name content server = file_datagrams name content >>= λ datagrams.
    some (record { sender = next_datagram datagrams; inbox = []; server = server })
