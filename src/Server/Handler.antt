-- ===== src/Server/Handler.antt =====
-- server.c: `connection_handler`, one round of its loop.
use ece.Base.{ℕ, Option, none, some, Bytes, ◌==◌, if◌then◌else◌, c_str, strcpy}
use ece.Message.{Message, fill_message, string_to_message, receive_message, max_name}
use ece.Message.Kind
use ece.Store.{
  online, overflow, uninitialised, M, pure, ◌>>=◌, ◌>>◌, lift, rw, deref, emit,
  fill_and_send_message,
}
use ece.Database.{return_user_by_username, add_user_success}
use ece.Database.Listing.{get_active_user_list_in_database, get_active_user_list_in_a_session}
use ece.Server.Login.{
  success_login, Peer, verify_login, select_login_message, user_login, user_registration,
  user_registration_message,
}
use ece.Server.Session.{
  session_name_invalid, session_response_message, server_side_session_create,
  server_side_session_join, server_side_session_leave, server_side_user_exit,
  send_message_in_a_session,
}
use ece.Server.Admin.{server_side_kick_user, server_side_promote_user}

-- The variables of the thread: `source` is `none` until it is written.
pub record Connection : Type 0 where
  pub socket_fd : ℕ
  pub source : Option Bytes
  pub server_connection_status : ℕ

pub data SendResult : Type 0 where
  sent_all connection_refused send_error : SendResult

-- What `recv` gives, and what `send` would answer to the echo of an unknown message.
pub data Event : Type 0 where
  received : Bytes → SendResult → Event
  refused receive_error : Event

-- What the thread does next: another round, or the end, after which the socket is closed.
pub data Next : Type 0 where
  again : Connection → Next
  finished : Next

-- The name that the thread passes on; before a login it is not initialised.
unfoldable pub name_of : Connection → M Bytes
name_of c = lift uninitialised c.source

abbrev pub continue_after : Connection → M (Unit {0}) → M Next
continue_after c m = do m; pure (again c)

unfoldable pub hang_up : Connection → M Next
unfolding server_side_user_exit name_of
hang_up c = do
  if c.server_connection_status == online
      then (do name ← name_of c; server_side_user_exit name)
      else pure tt
  pure finished

unfoldable pub handle_login : (ℕ → Peer) → Connection → Message → M Next
unfolding verify_login user_login
handle_login peer c m = do
  reply ← verify_login m.source (c_str m.body)
  elim reply [
    | success_login ↦ do
      user_login peer m.source online c.socket_fd
      source ← lift overflow (strcpy max_name m.source)
      fill_and_send_message c.socket_fd Kind.lo_ack m.source none
      pure (again (record c { source = some source; server_connection_status = online }))
    | other ↦ do
      fill_and_send_message c.socket_fd Kind.lo_nak m.source (select_login_message other)
      pure (again c)
  ]

unfoldable pub handle_create : (ℕ → Peer) → Connection → Message → M Next
unfolding user_registration
handle_create peer c m = do
  reply ← user_registration peer m.source (c_str m.body) c.socket_fd
  if reply == add_user_success
      then (do
        source ← lift overflow (strcpy max_name m.source)
        fill_and_send_message c.socket_fd Kind.rg_ack m.source none
        pure (again (record c { source = some source; server_connection_status = online })))
      else do
        fill_and_send_message c.socket_fd Kind.rg_nak m.source (user_registration_message reply)
        pure (again c)

unfoldable pub handle_query : Connection → Message → M (Unit {0})
unfolding get_active_user_list_in_database
handle_query c m = do
  list ← get_active_user_list_in_database rw
  fill_and_send_message c.socket_fd Kind.qu_ack m.source (some list)

unfoldable pub handle_session_query : Connection → Message → M (Unit {0})
unfolding get_active_user_list_in_a_session
handle_session_query c m = do
  answer ← get_active_user_list_in_a_session (c_str m.body) rw
  elim answer [
    | none ↦
        fill_and_send_message c.socket_fd Kind.sq_nak m.source
          (some (session_response_message session_name_invalid))
    | some list ↦ fill_and_send_message c.socket_fd Kind.sq_ack m.source (some list)
  ]

unfoldable pub handle_message : Message → M (Unit {0})
unfolding return_user_by_username deref send_message_in_a_session
handle_message m = do
  reply ← lift overflow (fill_message Kind.message m.size m.source m.body)
  p ← return_user_by_username m.source
  sending_user ← deref p
  send_message_in_a_session reply sending_user.session_id

-- A message of no known type goes back as it came.
unfoldable pub echo : Connection → Bytes → SendResult → M Next
unfolding emit hang_up
echo c buffer result = do
  emit c.socket_fd (c_str buffer)
  elim result [
    | sent_all ↦ pure (again c)
    | connection_refused ↦ hang_up c
    | send_error ↦ hang_up c
  ]

-- The chain of `if`s over `received_message.type`.
unfoldable pub dispatch : (ℕ → Peer) → Connection → Message → Bytes → SendResult → M Next
unfolding name_of
dispatch peer c m buffer result =
    if m.type == Kind.login
    then handle_login peer c m
    else if m.type == Kind.create
    then handle_create peer c m
    else if m.type == Kind.exit
    then (do name ← name_of c; server_side_user_exit name; pure finished)
    else if m.type == Kind.join
    then continue_after c (do name ← name_of c; server_side_session_join name (c_str m.body))
    else if m.type == Kind.new_sess
    then continue_after c (do name ← name_of c; server_side_session_create name (c_str m.body))
    else if m.type == Kind.leave_sess
    then continue_after c (do name ← name_of c; server_side_session_leave name)
    else if m.type == Kind.query
    then continue_after c (handle_query c m)
    else if m.type == Kind.sess_query
    then continue_after c (handle_session_query c m)
    else if m.type == Kind.message
    then continue_after c (handle_message m)
    else if m.type == Kind.kick
    then continue_after c (do name ← name_of c; server_side_kick_user name (c_str m.body))
    else if m.type == Kind.promote
    then continue_after c (do name ← name_of c; server_side_promote_user name (c_str m.body))
    else echo c buffer result

unfoldable pub connection_handler : (ℕ → Peer) → Connection → Event → M Next
unfolding hang_up dispatch
connection_handler peer c (received sent result) = do
  m ← lift overflow (string_to_message (receive_message sent))
  dispatch peer c m (receive_message sent) result
connection_handler peer c refused = hang_up c
connection_handler peer c receive_error = hang_up c
