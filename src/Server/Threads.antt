-- ===== src/Server/Threads.antt =====
-- server.c: the threads of the server, interleaved at the places where user_list_mutex is free. Between
-- two requests, and inside server_side_user_exit, other threads may run.
pub mod Kept
pub mod Requests
pub mod Steps
pub mod Owners
pub mod Entries
pub mod Safety
pub mod KickRace
pub mod LoginRace
pub mod Rounds
use ece.Base.{
  ℕ, ◌≡◌, ◌<◌, List, [], ◌∷◌, ◌++◌, Option, none, some, Bool, true, false, Bytes, ◌==◌,
  if◌then◌else◌, length, get_elem?, modify,
}
use ece.Message.RoundTrip.{IsName}
use ece.Store.{
  Server, M, ok, pure, ◌>>=◌, ◌>>◌, user_lock, lock, unlock, deref, assign, online, offline,
  max_address_length, max_password_length,
}
use ece.Store.Laws.{posted}
use ece.Database.{database_search_user, add_user_success}
use ece.Server.Login.{
  Peer, success_login, verify_login, user_login, user_registration, get_user_ip_address_and_port,
}
use ece.Server.Session.{server_side_session_leave}
use ece.Server.Reachable.{Request}
use ece.Server.Threads.Requests.{asks}

-- server_side_user_exit up to its test, which reads the table without the mutex: the pointer, and
-- whether the user is in a session.
unfoldable pub exit_check : Bytes → M (Option ℕ × Bool)
unfolding database_search_user deref
exit_check name = do p ← database_search_user name; u ← deref p; pure (p, u.in_session == online)

-- Its call of server_side_session_leave.
unfoldable pub exit_leave : Bytes → Bool → M (Unit {0})
unfolding server_side_session_leave
exit_leave name inside = if inside then server_side_session_leave name else pure tt

-- The rest, under the mutex.
unfoldable pub exit_clear : Option ℕ → M (Unit {0})
unfolding lock unlock assign
exit_clear p = do
  lock user_lock
  assign p
      (λ v. record v { status = offline; socket_fd = offline; port = offline; ip_address = [] })
  unlock user_lock

-- Where a thread stands: before a login, between two requests of its user, between the two halves of
-- server_side_user_exit with the pointer that it holds, or behind the loop.
pub data Thread : Type 0 where
  connected : Thread
  serving : Bytes → Thread
  exiting : Bytes → ℕ → Thread
  closed : Thread

-- The user that a thread acts for.
abbrev pub owner : Thread → Option Bytes
owner connected = none
owner (serving name) = some name
owner (exiting name i) = some name
owner closed = none

abbrev pub put : ℕ → Thread → List Thread → List Thread
put k th ts = modify ts k (λ old. th)

-- One thread goes on. verify_login and user_login are one turn here; `answers` is a message that a thread
-- sends while it leaves the table alone: a refused login or registration, a query, or an acknowledgement.
pub data Turn : Server → List Thread → Server → List Thread → Type 0 where
  connects : {s : Server} {ts : List Thread} → Turn s ts s (ts ++ connected ∷ [])
  answers : {s : Server} {ts : List Thread} (fd : ℕ) (b : Bytes) → Turn s ts (posted fd b s) ts
  registers :
      {s t : Server} {ts : List Thread} (k : ℕ) (peer : ℕ → Peer) (name word : Bytes) (fd : ℕ)
      (address : Bytes) (port : ℕ)
      → get_elem? ts k ≡ some connected
      → IsName name
      → length word < max_password_length
      → get_user_ip_address_and_port peer fd ≡ some (address, port)
      → length address < max_address_length
      → length s.user_list < s.capacity
      → user_registration peer name word fd s ≡ ok add_user_success t
      → Turn s ts t (put k (serving name) ts)
  logs_in :
      {s t : Server} {ts : List Thread} (k : ℕ) (peer : ℕ → Peer) (name word : Bytes) (fd : ℕ)
      (address : Bytes) (port : ℕ)
      → get_elem? ts k ≡ some connected
      → verify_login name word s ≡ ok success_login s
      → get_user_ip_address_and_port peer fd ≡ some (address, port)
      → length address < max_address_length
      → user_login peer name online fd s ≡ ok tt t
      → Turn s ts t (put k (serving name) ts)
  requests :
      {s t : Server} {ts : List Thread} (k : ℕ) (name : Bytes) (q : Request s t)
      → get_elem? ts k ≡ some (serving name)
      → asks q ≡ some name
      → Turn s ts t ts
  leaves :
      {s t : Server} {ts : List Thread} (k : ℕ) (name : Bytes) (i : ℕ) (inside : Bool)
      → get_elem? ts k ≡ some (serving name)
      → exit_check name s ≡ ok (some i, inside) s
      → exit_leave name inside s ≡ ok tt t
      → Turn s ts t (put k (exiting name i) ts)
  clears :
      {s t : Server} {ts : List Thread} (k : ℕ) (name : Bytes) (i : ℕ)
      → get_elem? ts k ≡ some (exiting name i)
      → exit_clear (some i) s ≡ ok tt t
      → Turn s ts t (put k closed ts)

-- What the threads do from a state of the server at which nobody is connected.
pub data Turns (s : Server) : Server → List Thread → Type 0 where
  starts : Turns s s []
  goes_on : {t w : Server} {ts us : List Thread} → Turns s t ts → Turn t ts w us → Turns s w us
