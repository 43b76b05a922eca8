-- ===== src/Server/Admin.antt =====
-- server.c: kicking a user out of a session, and promoting one to be its admin.
pub mod Run
use ece.Base.{Bool, true, false, not, Option, none, some, Bytes, ◌==◌, if◌then◌else◌, str_eq, codes}
use ece.Message.Kind
use ece.Store.{
  offline, user, admin, not_in_session, User, M, pure, ◌>>=◌, ◌>>◌, user_lock, lock, unlock, deref,
  assign, fill_and_send_message,
}
use ece.Database.{database_search_user}
use ece.Server.Session.{
  SessionError, user_does_not_exist, user_not_in_session, user_not_online,
  user_in_different_session, target_is_admin, session_response_message, refuse,
}

-- The tests that both requests make of their target, in their order.
unfoldable pub refusal : User → User → Option SessionError
refusal target sender =
    if target.status == offline
    then some user_not_online
    else if target.in_session == offline
    then some user_not_in_session
    else if not (str_eq target.session_id sender.session_id)
    then some user_in_different_session
    else if target.role == admin
    then some target_is_admin
    else none

-- Every branch reads `sender_user`, so it is read first here. The pointers may be equal.
unfoldable pub server_side_kick_user : Bytes → Bytes → M (Unit {0})
unfolding lock unlock database_search_user deref assign refusal refuse
server_side_kick_user sender target = do
  lock user_lock
  t ← database_search_user target
  s ← database_search_user sender
  sender_user ← deref s
  elim t [
    | none ↦ refuse sender_user Kind.ki_nak sender user_does_not_exist
    | some i ↦ do
      target_user ← deref (some i)
      elim (refusal target_user sender_user) [
        | some e ↦ refuse sender_user Kind.ki_nak sender e
        | none ↦ do
          assign (some i) (λ u. record u { in_session = offline; session_id = not_in_session })
          sender_after ← deref s
          fill_and_send_message target_user.socket_fd Kind.ki_message (codes "server")
              (some sender_after.session_id)
          fill_and_send_message sender_after.socket_fd Kind.ki_ack sender
              (some target_user.username)
      ]
  ]
  unlock user_lock

unfoldable pub server_side_promote_user : Bytes → Bytes → M (Unit {0})
unfolding lock unlock database_search_user deref assign refusal refuse
server_side_promote_user sender target = do
  lock user_lock
  t ← database_search_user target
  s ← database_search_user sender
  sender_user ← deref s
  elim t [
    | none ↦ refuse sender_user Kind.pm_nak sender user_does_not_exist
    | some i ↦ do
      target_user ← deref (some i)
      elim (refusal target_user sender_user) [
        | some e ↦ refuse sender_user Kind.pm_nak sender e
        | none ↦ do
          assign (some i) (λ u. record u { role = admin })
          assign s (λ u. record u { role = user })
          fill_and_send_message target_user.socket_fd Kind.pm_message (codes "server") none
          fill_and_send_message sender_user.socket_fd Kind.pm_ack sender (some target_user.username)
      ]
  ]
  unlock user_lock
