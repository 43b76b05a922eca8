-- ===== src/Server/Session.antt =====
-- server.c: creating, joining and leaving sessions, logging out, and group texts.
pub mod Join
pub mod Create
pub mod Leave
pub mod Relay
use ece.Base.{
  ℕ, Bool, true, false, not, ◌&&◌, List, [], ◌∷◌, Option, none, some, Bytes, ◌==◌, if◌then◌else◌,
  str_eq, strcpy, codes, c_str,
}
use ece.Message.{Message, message_to_string, acc_buffer_size}
use ece.Message.Kind
use ece.Store.{
  offline, online, admin, max_session_length, User, Server, overflow, M, pure, ◌>>=◌, ◌>>◌, lift,
  rw, user_lock, lock, unlock, get_users, deref, assign, emit, fill_and_send_message,
}
use ece.Store.Laws.{IsText}
use native.Mathlib.Omega.{arith}
use ece.Database.{
  database_search_user, get_user_count_in_a_session, user_exit_current_session, max_session_user,
}

-- The error codes of user.h.
pub data SessionError : Type 0 where
  session_name_invalid session_at_full_capacity session_exists session_add_user_failure :
      SessionError
  user_name_in_session user_does_not_exist user_not_in_session user_not_online : SessionError
  user_in_different_session target_is_admin : SessionError

unfoldable pub session_response_message : SessionError → Bytes
session_response_message session_name_invalid = codes "Session name is not found!."
session_response_message session_at_full_capacity = codes "Session you tried to join was full!."
session_response_message session_exists = codes "Session already exists!."
session_response_message session_add_user_failure = codes "failed to add the user in the session!."
session_response_message user_name_in_session =
    codes "Please leave the session before joining/creating another one!."
session_response_message user_does_not_exist = codes "User does not exist!."
session_response_message user_not_in_session = codes "User is not in a session!."
session_response_message user_not_online = codes "User is not online!."
session_response_message user_in_different_session = codes "User is in a different session!."
session_response_message target_is_admin = codes "Target User is an admin."

pub session_response_message-IsText : (e : SessionError) → IsText (session_response_message e)
unfolding session_response_message
session_response_message-IsText session_name_invalid = omega arith
session_response_message-IsText _ = omega arith

-- The answer to a refused request of the user at `u`.
unfoldable pub refuse : User → ℕ → Bytes → SessionError → M (Unit {0})
refuse u type name e =
    fill_and_send_message u.socket_fd type name (some (session_response_message e))

unfoldable pub server_side_session_create : Bytes → Bytes → M (Unit {0})
unfolding lock unlock database_search_user get_user_count_in_a_session deref assign refuse
server_side_session_create name id = do
  lock user_lock
  p ← database_search_user name
  count ← get_user_count_in_a_session id rw
  if count == 0
      then (do
        u ← deref p
        session ← lift overflow (strcpy max_session_length id)
        assign p (λ v. record v { session_id = session; in_session = online; role = admin })
        fill_and_send_message u.socket_fd Kind.ns_ack name (some id))
      else do u ← deref p; refuse u Kind.new_sess name session_exists
  unlock user_lock

unfoldable pub server_side_session_join : Bytes → Bytes → M (Unit {0})
unfolding lock unlock database_search_user get_user_count_in_a_session deref assign refuse
server_side_session_join name id = do
  lock user_lock
  p ← database_search_user name
  count ← get_user_count_in_a_session id rw
  u ← deref p
  if u.in_session == online
      then refuse u Kind.jn_nak name user_name_in_session
      else if count == 0
      then refuse u Kind.jn_nak name session_name_invalid
      else if count == max_session_user
      then refuse u Kind.jn_nak name session_at_full_capacity
      else do
        session ← lift overflow (strcpy max_session_length id)
        assign p (λ v. record v { session_id = session; in_session = online })
        fill_and_send_message u.socket_fd Kind.jn_ack name (some id)
  unlock user_lock

-- The loop that tells every admin of every session.
unfoldable pub notify_admins : List User → M (Unit {0})
notify_admins [] = pure tt
notify_admins (u ∷ us) = do
  if u.role == admin
      then fill_and_send_message u.socket_fd Kind.pm_message (codes "server") none
      else pure tt
  notify_admins us

-- The early return keeps the mutex.
unfoldable pub server_side_session_leave : Bytes → M (Unit {0})
unfolding lock unlock database_search_user deref user_exit_current_session get_users notify_admins
server_side_session_leave name = do
  lock user_lock
  p ← database_search_user name
  u ← deref p
  if u.in_session == offline then pure tt else do
    session ← lift overflow (strcpy max_session_length u.session_id)
    user_exit_current_session name rw
    users ← get_users
    notify_admins users
    unlock user_lock

unfoldable pub server_side_user_exit : Bytes → M (Unit {0})
unfolding lock unlock database_search_user deref assign server_side_session_leave
server_side_user_exit name = do
  p ← database_search_user name
  u ← deref p
  if u.in_session == online then server_side_session_leave name else pure tt
  lock user_lock
  assign p
      (λ v. record v { status = offline; socket_fd = offline; port = offline; ip_address = [] })
  unlock user_lock

-- The tests of the loop in `send_message_in_a_session`.
unfoldable pub receives : Bytes → User → Bool
receives id u = not (u.status == offline) && not (u.in_session == offline) && str_eq u.session_id id

unfoldable pub send_to_session : Bytes → Bytes → List User → M (Unit {0})
unfolding emit receives
send_to_session id b [] = pure tt
send_to_session id b (u ∷ us) = do
  if receives id u then emit u.socket_fd b else pure tt
  send_to_session id b us

unfoldable pub send_message_in_a_session : Message → Bytes → M (Unit {0})
unfolding lock unlock get_users send_to_session
send_message_in_a_session msg id = do
  lock user_lock
  buffer ← lift overflow (message_to_string acc_buffer_size msg msg.size)
  users ← get_users
  send_to_session id (c_str buffer) users
  unlock user_lock
