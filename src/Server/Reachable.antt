-- ===== src/Server/Reachable.antt =====
-- The states that the server reaches: one request after another, from the empty table or from what
-- set_up_database reads.
use ece.Base.{
  ℕ, List, true, ◌≡◌, refl, sym, ◌∙◌, subst, ◌≢◌, ◌<◌, Option, some, arith, Bytes, length,
}
use ece.Message.{max_data}
use ece.Message.RoundTrip.{IsName}
use ece.Message.Text.{text_message}
use ece.Store.{
  User, Server, Outcome, ok, offline, online, admin, max_address_length, max_password_length,
}
use ece.Database.{user_database_init, count_in_session}
use ece.Database.Run.{Located}
use ece.Server.Login.{Peer, get_user_ip_address_and_port, user_login, user_registration}
use ece.Server.Login.Arrival.{user_login-IsValid}
use ece.Server.Login.Registration.{user_registration-IsValid}
use ece.Server.Session.{
  server_side_session_join, server_side_session_create, server_side_session_leave,
  server_side_user_exit,
}
use ece.Server.Session.Relay.{relayed, handle_message-run}
use ece.Server.Admin.{server_side_kick_user, server_side_promote_user}
use ece.Server.Handler.{handle_message}
use ece.Server.Invariant.{IsValid, count_admins}
use ece.Server.Startup.{set_up_database}
use ece.Server.Startup.Scan.{Entry, file_text}
use ece.Server.Startup.Valid.{IsFile, set_up_database-IsValid}
use ece.Server.Safety.{
  LoggedIn, IsSession, with_table, server_side_session_join-IsValid,
  server_side_session_create-IsValid, server_side_session_leave-IsValid,
  server_side_user_exit-IsValid,
}
use ece.Server.AdminSafety.{server_side_kick_user-IsValid, server_side_promote_user-IsValid}

-- One request of a user who keeps to what the client allows: a session name that fits, leaving only
-- from inside a session, and promotions by an admin only.
pub data Request : Server → Server → Type 0 where
  registers :
      {s t : Server} (peer : ℕ → Peer) (name word : Bytes) (fd : ℕ) (address : Bytes)
      (port code : ℕ)
      → IsName name
      → length word < max_password_length
      → get_user_ip_address_and_port peer fd ≡ some (address, port)
      → length address < max_address_length
      → length s.user_list < s.capacity
      → user_registration peer name word fd s ≡ ok code t
      → Request s t
  logs_in :
      {s t : Server} (peer : ℕ → Peer) (name : Bytes) (fd : ℕ) (address : Bytes) (port i : ℕ)
      (u : User)
      → Located name s i u
      → get_user_ip_address_and_port peer fd ≡ some (address, port)
      → length address < max_address_length
      → user_login peer name online fd s ≡ ok tt t
      → Request s t
  joins :
      {s t : Server} (name id : Bytes) (i : ℕ) (u : User)
      → LoggedIn name s i u
      → IsSession id
      → server_side_session_join name id s ≡ ok tt t
      → Request s t
  creates :
      {s t : Server} (name id : Bytes) (i : ℕ) (u : User)
      → LoggedIn name s i u
      → IsSession id
      → server_side_session_create name id s ≡ ok tt t
      → Request s t
  leaves :
      {s t : Server} (name : Bytes) (i : ℕ) (u : User)
      → LoggedIn name s i u
      → u.in_session ≢ offline
      → server_side_session_leave name s ≡ ok tt t
      → Request s t
  exits :
      {s t : Server} (name : Bytes) (i : ℕ) (u : User)
      → LoggedIn name s i u
      → server_side_user_exit name s ≡ ok tt t
      → Request s t
  kicks :
      {s t : Server} (sender target : Bytes) (i : ℕ) (u : User)
      → LoggedIn sender s i u
      → sender ≢ target
      → server_side_kick_user sender target s ≡ ok tt t
      → Request s t
  promotes :
      {s t : Server} (sender target : Bytes) (i : ℕ) (u : User)
      → LoggedIn sender s i u
      → sender ≢ target
      → u.role ≡ admin
      → server_side_promote_user sender target s ≡ ok tt t
      → Request s t
  writes :
      {s t : Server} (k : ℕ) (name d : Bytes) (i : ℕ) (u : User)
      → k < max_data
      → IsName name
      → Located name s i u
      → handle_message (text_message k name d) s ≡ ok tt t
      → Request s t

pub data Reachable : Server → Type 0 where
  initial : (file : Option Bytes) → Reachable (user_database_init file)
  starts :
      {s : Server} (es : List Entry) (fuel : ℕ)
      → IsFile es
      → length es < fuel
      → set_up_database fuel (user_database_init (some (file_text es))) ≡ ok true s
      → Reachable s
  after : {s t : Server} → Reachable s → Request s t → Reachable t

-- A run has one result.
pub ok_state :
    {A : Type 0} {a b : A} {s t : Server} {o : Outcome A} → o ≡ ok a s → o ≡ ok b t → s ≡ t
ok_state {a = a} {b} {s} {t} h k = state_eq (sym h ∙ k)
  where
    state_eq : ok a s ≡ ok b t → s ≡ t
    state_eq e = cc

same_result :
    {A : Type 0} {a : A} {t : Server} {o : Outcome A}
    → o ≡ ok a t
    → (b : A) × (w : Server) × (o ≡ ok b w) × IsValid w
    → IsValid t
same_result h (b, w, k, v) = subst IsValid (ok_state k h) v

same_step :
    {t : Server} {o : Outcome (Unit {0})}
    → o ≡ ok tt t
    → (w : Server) × (o ≡ ok tt w) × IsValid w
    → IsValid t
same_step h (w, k, v) = subst IsValid (ok_state k h) v

pub Request-IsValid : {s t : Server} → IsValid s → Request s t → IsValid t
Request-IsValid {s} v (registers peer name word fd address port code n w from fits room h) =
    same_result h (user_registration-IsValid peer name word fd address port s v n w from fits room)
Request-IsValid {s} v (logs_in peer name fd address port i u l from fits h) =
    let (w, run, valid, rest) = user_login-IsValid peer name fd address port s i u v l from fits in
    same_step h (w, run, valid)
Request-IsValid {s} v (joins name id i u l k h) =
    same_step h (server_side_session_join-IsValid name s i u v l id k)
Request-IsValid {s} v (creates name id i u l k h) =
    same_step h (server_side_session_create-IsValid name s i u v l id k)
Request-IsValid {s} v (leaves name i u l k h) =
    same_step h (server_side_session_leave-IsValid name s i u v l k)
Request-IsValid {s} v (exits name i u l h) =
    same_step h (server_side_user_exit-IsValid name s i u v l)
Request-IsValid {s} v (kicks sender target i u l k h) =
    same_step h (server_side_kick_user-IsValid sender target s i u v l k)
Request-IsValid {s} v (promotes sender target i u l k boss h) =
    same_step h (server_side_promote_user-IsValid sender target s i u v l k boss)
Request-IsValid {s} v (writes k name d i u small n l h) = same_step h (
  relayed k name d small n s i u v.ready l,
  handle_message-run k name d small n s i u v.ready l,
  with_table s s.user_list (relayed k name d small n s i u v.ready l).sent v v.table refl,
)

pub initial-IsValid : (file : Option Bytes) → IsValid (user_database_init file)
unfolding user_database_init count_in_session count_admins
initial-IsValid file = record {
  ready = record { rw_free = refl; user_free = refl };
  table = record {
    users = tt;
    distinct = tt;
    sizes = λ id other. omega arith;
    admins = λ id other. omega arith;
  };
  bounded = omega arith;
}

-- Every state that the server reaches from the empty table, or from what set_up_database makes of
-- a file of at most 16 entries (each a name and a password of 1 to 16 bytes without NULs, quotes
-- and bars) whose names are unique and without colons, by registrations while the array has room,
-- logins, joins, creations, leaves from inside a session, logouts, kicks, promotions by an admin
-- and texts, in any order, is valid: both mutexes are free, names are unique, no session has more
-- than six users or two admins, and the array is not exceeded. The session names fit their array
-- and are not "Not in session", names and passwords fit, addresses are known, and nobody kicks or
-- promotes themselves.
pub Reachable-IsValid : {s : Server} → Reachable s → IsValid s
Reachable-IsValid (initial file) = initial-IsValid file
Reachable-IsValid (starts es fuel f enough h) =
    let (run, valid) = set_up_database-IsValid es fuel f enough in
    subst IsValid (ok_state run h) valid
Reachable-IsValid (after r q) = Request-IsValid (Reachable-IsValid r) q
