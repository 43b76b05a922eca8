-- ===== src/Client/Tests/Login.antt =====
-- A login at a table whose only user is not online.
use ece.Base.{
  ℕ, ◌≡◌, refl, ◌≤◌, ◌++◌, [], ◌∷◌, inl, inr, some, none, arith, Bytes, codes, str_eq, false, true,
  get_elem?, List,
}
use ece.Message.RoundTrip.{IsName}
use ece.Store.{User, Server, zero_user, ok, offline, online, not_in_session}
use ece.Database.{find_user, count_in_session}
use ece.Server.Invariant.{IsUser, IsValid, count_admins}
use ece.Server.Login.{Peer, ipv4, get_user_ip_address_and_port}
use ece.Server.Login.Arrival.{arrive, note_address}
use ece.Server.Handler.{Connection, sent_all, received, again, connection_handler}
use ece.Client.{Client, Attempt, resolved, connect_loop, login}
use ece.Client.LoggingIn.{login-delivery}

abbrev away : User
away = record zero_user {
  username = codes "bob";
  password = codes "b2";
  session_id = not_in_session;
}

abbrev quiet : Server
quiet = record {
  user_list = away ∷ [];
  capacity = 16;
  rw_mutex = false;
  user_list_mutex = false;
  sent = [];
  database = none;
}

abbrev stranger : Connection
stranger = record { socket_fd = 9; source = none; server_connection_status = offline }

abbrev fresh : Client
fresh = record {
  name = [];
  server_connection_status = offline;
  verified_access = 0;
  session_status = offline;
  role = 0;
  termination_signal = 0;
  thread_count = 0;
  thread = [];
  sent = [];
}

caller-IsName : IsName (codes "bob")
caller-IsName = record { no_nul = ground arith; no_colon = ground arith; fits = omega arith }

away-IsUser : IsUser away
away-IsUser = record {
  name = caller-IsName;
  word = omega arith;
  id_text = ground arith;
  id_fits = omega arith;
  place = inr (refl, refl, refl);
  rank = inl refl;
  presence = inr (refl, refl);
}

quiet_sizes : (id : Bytes) → count_in_session id quiet.user_list ≤ 6
unfolding count_in_session
quiet_sizes id = ground arith

quiet_admins : (id : Bytes) → count_admins id quiet.user_list ≤ 1
unfolding count_admins
quiet_admins id = ground arith

quiet-IsValid : IsValid quiet
quiet-IsValid = record {
  ready = record { rw_free = refl; user_free = refl };
  table = record {
    users = (away-IsUser, tt);
    distinct = (tt, tt);
    sizes = λ id other. quiet_sizes id;
    admins = λ id other. quiet_admins id;
  };
  bounded = omega arith;
}

found_away : find_user (codes "bob") quiet.user_list ≡ some 0
unfolding find_user str_eq
found_away = refl

somewhere : ℕ → Peer
somewhere fd = ipv4 (codes "10.0.0.9") 5000

from_somewhere : get_user_ip_address_and_port somewhere 9 ≡ some (codes "10.0.0.9", 5000)
unfolding get_user_ip_address_and_port somewhere
from_somewhere = refl

-- The first address has no socket, and the second one answers.
abbrev reachable : List Attempt
reachable = record { made = false; accepted = false } ∷ record { made = true; accepted = true } ∷ []

reached : connect_loop reachable ≡ true
unfolding connect_loop
reached = refl

login_example :
    (b : Bytes) × (t : Server) × (login (resolved reachable) (codes "bob") (codes "b2") fresh
      ≡ some (record fresh {
        server_connection_status = 1;
        thread = [] ++ 0 ∷ [];
        sent = [] ++ b ∷ [];
      }))
    × (connection_handler somewhere stranger (received b sent_all) quiet
        ≡ ok
            (again
              (record stranger { source = some (codes "bob"); server_connection_status = online }))
            t)
    × IsValid t
    × (get_elem? t.user_list 0 ≡ some (note_address (codes "10.0.0.9") 5000 (arrive 9 away)))
login_example =
    login-delivery (codes "bob") (codes "b2") caller-IsName (ground arith) (omega arith) somewhere
      (codes "10.0.0.9") 5000 quiet 0 away quiet-IsValid (record { found = found_away; at = refl })
      refl (omega arith) stranger from_somewhere (omega arith) sent_all fresh reachable reached
