-- ===== src/Server/Deadlock.antt =====
-- What a mutex that is not given back does to the requests that come after.
use ece.Base.{ℕ, ◌≡◌, refl, true, Bytes}
use ece.Message.{Message}
use ece.Store.{User, Server, Mutex, user_lock, held, ok, stop, deadlock, lock, offline}
use ece.Store.Laws.{bind_stop, locked}
use ece.Database.Run.{Ready, Located}
use ece.Server.Login.{Peer, user_login, user_registration}
use ece.Server.Session.{
  server_side_session_join, server_side_session_create, server_side_session_leave,
  send_message_in_a_session,
}
use ece.Server.Session.Leave.{server_side_session_leave_outside}
use ece.Server.Admin.{server_side_kick_user, server_side_promote_user}

lock-held : (m : Mutex) (s : Server) → held m s ≡ true → lock m s ≡ stop deadlock
unfolding lock
lock-held m s h = rw (h, lock) refl

-- The requests that wait for ever for `user_list_mutex`.
pub record IsStuck (s : Server) : Type 0 where
  pub login :
      (peer : ℕ → Peer) (name : Bytes) (status fd : ℕ)
      → user_login peer name status fd s ≡ stop deadlock
  pub registration :
      (peer : ℕ → Peer) (name word : Bytes) (fd : ℕ)
      → user_registration peer name word fd s ≡ stop deadlock
  pub join : (name id : Bytes) → server_side_session_join name id s ≡ stop deadlock
  pub create : (name id : Bytes) → server_side_session_create name id s ≡ stop deadlock
  pub leave : (name : Bytes) → server_side_session_leave name s ≡ stop deadlock
  pub text : (m : Message) (id : Bytes) → send_message_in_a_session m id s ≡ stop deadlock
  pub kick : (name target : Bytes) → server_side_kick_user name target s ≡ stop deadlock
  pub promote : (name target : Bytes) → server_side_promote_user name target s ≡ stop deadlock

pub held-IsStuck : (s : Server) → s.user_list_mutex ≡ true → IsStuck s
unfolding user_login user_registration server_side_session_join server_side_session_create
    server_side_session_leave send_message_in_a_session server_side_kick_user
    server_side_promote_user
held-IsStuck s h = record {
  login = λ peer name status fd. bind_stop _ _ (lock-held user_lock s h);
  registration = λ peer name word fd. bind_stop _ _ (lock-held user_lock s h);
  join = λ name id. bind_stop _ _ (lock-held user_lock s h);
  create = λ name id. bind_stop _ _ (lock-held user_lock s h);
  leave = λ name. bind_stop _ _ (lock-held user_lock s h);
  text = λ m id. bind_stop _ _ (lock-held user_lock s h);
  kick = λ name target. bind_stop _ _ (lock-held user_lock s h);
  promote = λ name target. bind_stop _ _ (lock-held user_lock s h);
}

module _ (name : Bytes) (s : Server) (i : ℕ) (u : User) (r : Ready s) (l : Located name s i u) where
  -- With the mutexes free, a request to leave from a user in the table who is in no session
  -- returns, and after it every login, registration, join, create, leave, text, kick and promotion
  -- waits for ever for user_list_mutex.
  pub leave_outside-IsStuck :
      u.in_session ≡ offline
      → (t : Server) × (server_side_session_leave name s ≡ ok tt t) × IsStuck t
  leave_outside-IsStuck h =
      (locked s, server_side_session_leave_outside name s i u r l h, held-IsStuck (locked s) refl)
