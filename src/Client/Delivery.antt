-- ===== src/Client/Delivery.antt =====
-- A line that the user types in a session: what `message_command` hands to `send`.
use ece.Base.{ℕ, suc, ◌≡◌, refl, ◌<◌, ◌++◌, [], ◌∷◌, some, arith, Bytes, length, false}
use ece.Message.{string_to_message, receive_message, max_data, maximum_buffer_size}
use ece.Message.RoundTrip.{IsName}
use ece.Message.Text.{
  text_message, fill_message-text, message_to_string-text, c_str-text, string_to_message-text,
}
use ece.Store.{User, Server, ok}
use ece.Database.Run.{Ready, Located}
use ece.Server.Login.{Peer}
use ece.Server.Handler.{Connection, SendResult, received, again, connection_handler}
use ece.Server.Session.Relay.{text_bytes, copies, connection_handler-relay}
use ece.Client.{Client}
use ece.Client.Commands.{cut_line, text_line}

module _ (k : ℕ) (line : Bytes) (c : Client) (size : length line ≡ suc k) (small : k < max_data)
    (n : IsName c.name) where
  text_line-posted :
      text_line line c
      ≡ some (record c { sent = c.sent ++ text_bytes k c.name (cut_line false line) ∷ [] })
  unfolding text_line
  text_line-posted =
      rw
        (
          size,
          fill_message-text k c.name (cut_line false line) small n,
          message_to_string-text k c.name (cut_line false line) small n maximum_buffer_size
              (omega arith),
          c_str-text k c.name (cut_line false line) small n,
        )
        refl

  -- A line of k + 1 bytes, k below MAX_DATA, that a client sends whose name has at most 16 bytes,
  -- no NUL and no colon, becomes one buffer of bytes b; the server, with both mutexes free and the
  -- sender in its table, hands exactly b to the socket of every user who is online and in the
  -- sender's session, and changes nothing else; and b parses back to the sender's name and the k
  -- bytes of the line as strtok cut it, with the cut written as a blank.
  pub text_line-delivery :
      (s : Server) (i : ℕ) (u : User)
      → Ready s
      → Located c.name s i u
      → (peer : ℕ → Peer) (conn : Connection) (result : SendResult)
      → (b : Bytes) × (text_line line c ≡ some (record c { sent = c.sent ++ b ∷ [] }))
        × (connection_handler peer conn (received b result) s
            ≡ ok (again conn) (record s { sent = s.sent ++ copies u.session_id b s.user_list }))
        × (string_to_message (receive_message b)
            ≡ some (text_message k c.name (cut_line false line)))
  text_line-delivery s i u r l peer conn result = (
    text_bytes k c.name (cut_line false line),
    text_line-posted,
    connection_handler-relay k c.name (cut_line false line) small n s i u r l peer conn result,
    string_to_message-text k c.name (cut_line false line) small n,
  )
