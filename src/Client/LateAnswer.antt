-- ===== src/Client/LateAnswer.antt =====
-- client.c: an answer to a login that comes behind a logout. The receiving thread tests the connection before
-- it waits in `recv`, and not when the message is there.
use ece.Base.{
  ℕ, ◌≡◌, refl, sym, ◌∙◌, ◌≢◌, true, false, List, [], ◌∷◌, ◌++◌, Option, none, some, arith, Bytes,
  strcpy_fits,
}
use ece.Message.{frame, max_name, string_to_message, receive_message}
use ece.Message.Kind
use ece.Message.RoundTrip.{IsName, string_to_message-frame, frame-none}
use ece.Store.{offline}
use ece.Client.{Client, Network, on, off, post, logout, login, user_registration}
use ece.Client.Commands.{
  Command, invalid_command, login_command, logout_command, join_session_command,
  leave_session_command, create_session_command, list_command, quit_command, create_command,
  kick_command, promote_command, message_command, userlist_command, connect_command, run_command,
}
use ece.Client.Replies.{received, apply_reply, handler_waits, server_message_handler}

-- Behind a logout out of every session.
abbrev pub logged_out : Bytes → Client → Client
logged_out b c = record c {
  verified_access = off;
  server_connection_status = offline;
  sent = c.sent ++ b ∷ [];
}

logout-posted :
    (c : Client) (b : Bytes)
    → c.session_status ≡ offline
    → frame Kind.exit c.name none ≡ some b
    → logout c ≡ some (logged_out b c)
unfolding logout post
logout-posted c b out h = rw (out, h) refl

-- Behind the answer that lets `name` in.
abbrev pub let_in : Bytes → Client → Client
let_in name c = record c { name = name; verified_access = on }

answer_heard :
    (name b : Bytes) (c : Client)
    → IsName name
    → string_to_message (receive_message b)
      ≡ some (record { type = Kind.lo_ack; size = 0; source = name; body = [] })
    → server_message_handler (received b) c ≡ some (let_in name c, true)
unfolding server_message_handler apply_reply
answer_heard name b c n h = rw (h, strcpy_fits max_name name n.fits) refl

connect_command-verified :
    (request : Bytes → Bytes → Client → Option Client) (index : ℕ) (input : List Bytes) (c : Client)
    → c.verified_access ≡ on
    → connect_command request index input c ≡ some c
unfolding connect_command
connect_command-verified request index input c h = ground (arith, h)

-- Verified, and not connected: every command but the one to quit is refused.
locked :
    (net : Network) (code : Command) (index : ℕ) (input : List Bytes) (line : Bytes) (c : Client)
    → code ≢ quit_command
    → c.verified_access ≡ on
    → c.server_connection_status ≡ offline
    → run_command net code index input line c ≡ some (c, true)
unfolding run_command
locked net quit_command index input line c other v o = absurd (other refl)
locked net invalid_command index input line c other v o = refl
locked net login_command index input line c other v o =
    rw (connect_command-verified (login net) index input c v) refl
locked net create_command index input line c other v o =
    rw (connect_command-verified (user_registration net) index input c v) refl
locked net logout_command index input line c other v o = ground (arith, o)
locked net join_session_command index input line c other v o = ground (arith, o)
locked net leave_session_command index input line c other v o = ground (arith, o)
locked net create_session_command index input line c other v o = ground (arith, o)
locked net list_command index input line c other v o = ground (arith, o)
locked net kick_command index input line c other v o = ground (arith, o)
locked net promote_command index input line c other v o = ground (arith, o)
locked net message_command index input line c other v o = ground (arith, o)
locked net userlist_command index input line c other v o = ground (arith, o)

-- A client is in no session, its receiving thread has passed the test of its loop and waits in recv, and
-- the user logs out before the server's LO_ACK is there. Then the thread handles that LO_ACK all the
-- same, with any name that a message can carry: access is verified while the connection is down, and the
-- thread ends at its next test. From there every command but the one to quit leaves the client as it
-- is, those to log in and to register too.
pub late_answer-IsLocked :
    (c : Client) (name : Bytes) (net : Network) (code : Command) (index : ℕ) (input : List Bytes)
    (line : Bytes)
    → handler_waits c ≡ true
    → c.session_status ≡ offline
    → IsName c.name
    → IsName name
    → code ≢ quit_command
    → (d e : Client) × (b : Bytes) × (logout c ≡ some d)
      × (frame Kind.lo_ack name none ≡ some b)
      × (server_message_handler (received b) d ≡ some (e, true))
      × (e.verified_access ≡ on)
      × (e.server_connection_status ≡ offline)
      × (handler_waits e ≡ false)
      × (run_command net code index input line e ≡ some (e, true))
unfolding handler_waits
late_answer-IsLocked c name net code index input line waits out own n other =
    let (b, made, parsed) =
      string_to_message-frame Kind.exit c.name (omega arith) own [] (omega arith) tt
        (omega arith) in
    let (a, answered, heard) =
      string_to_message-frame Kind.lo_ack name (omega arith) n [] (omega arith) tt (omega arith) in
    let d = logged_out b c in
    (
      d,
      let_in name d,
      a,
      logout-posted c b out (sym (frame-none Kind.exit c.name) ∙ made),
      sym (frame-none Kind.lo_ack name) ∙ answered,
      answer_heard name a d n heard,
      refl,
      refl,
      refl,
      locked net code index input line (let_in name d) other refl refl,
    )
