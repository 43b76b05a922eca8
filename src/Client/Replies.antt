-- ===== src/Client/Replies.antt =====
-- client.c: `server_message_handler`, one round of its loop in two steps.
use ece.Base.{Bool, true, false, not, Option, some, Bytes, ◌==◌, ◌||◌, if◌then◌else◌, ◌>>=◌, strcpy}
use ece.Message.{Message, string_to_message, receive_message, max_name}
use ece.Message.Kind
use ece.Store.{offline, online, user, admin}
use ece.Client.{Client, on, off, logout}

pub data Arrival : Type 0 where
  received : Bytes → Arrival
  receive_error connection_refused : Arrival

-- The flags after a message that is no group text, and whether the thread goes on.
unfoldable pub apply_reply : Message → Client → Option (Client × Bool)
apply_reply m c =
    if m.type == Kind.lo_ack || m.type == Kind.rg_ack
    then (strcpy max_name m.source >>= λ own.
        some (record c { name = own; verified_access = on }, true))
    else if m.type == Kind.lo_nak || m.type == Kind.rg_nak
    then some (record c { verified_access = off; server_connection_status = offline }, false)
    else if m.type == Kind.jn_ack
    then some (record c { role = user; session_status = online }, true)
    else if m.type == Kind.jn_nak
    then some (record c { role = user; session_status = offline }, true)
    else if m.type == Kind.ns_ack
    then some (record c { role = admin; session_status = online }, true)
    else if m.type == Kind.pm_message
    then some (record c { role = admin }, true)
    else if m.type == Kind.pm_ack
    then some (record c { role = user }, true)
    else if m.type == Kind.ki_message
    then some (record c { session_status = offline }, true)
    else some (c, true)

unfoldable pub hang_up : Client → Option (Client × Bool)
unfolding logout
hang_up c =
    (if c.server_connection_status == online then logout c else some c) >>= λ d. some (d, false)

-- The test of the loop, before the thread waits in `recv`.
unfoldable pub handler_waits : Client → Bool
handler_waits c =
    if c.server_connection_status == online then not (c.termination_signal == on) else false

-- The rest of the round, from what `recv` gives to a thread that has waited. The client is that of this
-- moment: it may have changed since the test.
unfoldable pub server_message_handler : Arrival → Client → Option (Client × Bool)
unfolding apply_reply hang_up
server_message_handler receive_error c = hang_up c
server_message_handler connection_refused c = hang_up c
server_message_handler (received b) c = string_to_message (receive_message b) >>= λ m.
    if m.type == Kind.message then some (c, true) else apply_reply m c
