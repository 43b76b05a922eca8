-- ===== src/Client/Joining.antt =====
-- `/joinsession` from the client's request to the server's table.
use ece.Base.{ℕ, ◌≡◌, refl, ◌≢◌, ◌<◌, ◌++◌, [], ◌∷◌, some, arith, Bytes, length, c_str-NoNul, ==_ne}
use ece.Message.{Message, frame, receive_message}
use ece.Message.RoundTrip.{IsName, string_to_message-frame}
use ece.Message.Kind
use ece.Store.{User, Server, ok, online, max_session_length}
use ece.Store.Laws.{bind_ok, IsText}
use ece.Database.Run.{Ready, Located}
use ece.Server.Login.{Peer}
use ece.Server.Session.Join.{join_result, server_side_session_join-run}
use ece.Server.Handler.{
  Connection, SendResult, received, again, name_of, dispatch, connection_handler,
}
use ece.Client.{Client, post, join_session}

abbrev request : Bytes → Bytes → Message
request name id = record { type = Kind.join; size = length id; source = name; body = id }

module _ (id : Bytes) (c : Client) (n : IsName c.name) (t : IsText id)
    (outside : c.session_status ≢ online) where
  join_session-posted :
      (b : Bytes)
      → frame Kind.join c.name (some id) ≡ some b
      → join_session id c ≡ some (record c { sent = c.sent ++ b ∷ [] })
  unfolding join_session post
  join_session-posted b h = rw (==_ne _ _ outside, h) refl

  module _ (fits : length id < max_session_length) (s : Server) (i : ℕ) (u : User) (r : Ready s)
      (l : Located c.name s i u) (peer : ℕ → Peer) (conn : Connection)
      (own : conn.source ≡ some c.name) (result : SendResult) where
    dispatch-join :
        (b : Bytes)
        → dispatch peer conn (request c.name id) b result s
          ≡ ok (again conn) (join_result c.name id s i u)
    unfolding dispatch name_of
    dispatch-join b =
        bind_ok _ _ {t = join_result c.name id s i u} {a = tt}
          (bind_ok _ _ {t = s} {a = c.name} (rw own refl)
            (rw (c_str-NoNul id t.0) (server_side_session_join-run c.name id s i u r l n t fits)))
          refl

    -- What a client that is in no session sends to join one, with a name of at most 16 bytes and a
    -- session name that fits, each without NULs and the first without colons, is one buffer of
    -- bytes; the server's thread for that user, given those bytes while both mutexes are free and
    -- the user is in the table, carries out exactly that request: it refuses, or enters the
    -- session and answers JN_ACK.
    pub join_session-delivery :
        (b : Bytes) × (join_session id c ≡ some (record c { sent = c.sent ++ b ∷ [] }))
        × (connection_handler peer conn (received b result) s
            ≡ ok (again conn) (join_result c.name id s i u))
    unfolding connection_handler
    join_session-delivery =
        let (b, made, parsed) =
          string_to_message-frame Kind.join c.name (omega arith) n id (omega arith) t.0 t.1 in
        (
          b,
          join_session-posted b made,
          bind_ok _ _ {t = s} {a = request c.name id} (rw parsed refl)
              (dispatch-join (receive_message b)),
        )
