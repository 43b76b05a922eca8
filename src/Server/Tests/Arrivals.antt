-- ===== src/Server/Tests/Arrivals.antt =====
-- Logins and registrations at the small table, and at a table whose array is full.
use ece.Base.{ℕ, ◌≡◌, refl, ◌≢◌, ◌↔◌, none, some, arith, codes, str_eq}
use ece.Message.RoundTrip.{IsName}
use ece.Store.{User, Server, zero_user, ok, stop, overflow, online, not_in_session, rw as rw_mutex}
use ece.Database.{find_user, user_database_add_user}
use ece.Database.Run.{Located}
use ece.Server.Invariant.{IsValid}
use ece.Server.Login.{
  Peer, ipv4, get_user_ip_address_and_port, success_login, verify_login, user_registration,
}
use ece.Server.Login.Registration.{user_registration-IsValid}
use ece.Server.Login.Register.{Fits, add_user_overflow}
use ece.Server.Login.Verify.{verify_login-success_iff}
use ece.Server.Tests.{room, room-IsValid}

-- Every socket is connected to one host.
home : ℕ → Peer
home fd = ipv4 (codes "10.0.0.7") 4000

from_home : get_user_ip_address_and_port home 9 ≡ some (codes "10.0.0.7", 4000)
unfolding get_user_ip_address_and_port home
from_home = refl

dave-IsName : IsName (codes "dave")
dave-IsName = record { no_nul = ground arith; no_colon = ground arith; fits = omega arith }

user_registration_example :
    (code : ℕ) × (t : Server) × (user_registration home (codes "dave") (codes "d4") 9 room
      ≡ ok code t)
    × IsValid t
user_registration_example =
    user_registration-IsValid home (codes "dave") (codes "d4") 9 (codes "10.0.0.7") 4000 room
      room-IsValid dave-IsName (omega arith) from_home (omega arith) (omega arith)

verify_login_example : (verify_login (codes "carol") (codes "c3") room ≡ ok success_login room) ↔ (
    (i : ℕ) × (u : User) × Located (codes "carol") room i u
    × (u.password ≡ codes "c3")
    × (u.status ≢ online))
verify_login_example = verify_login-success_iff (codes "carol") (codes "c3") room

-- A server whose array has room for nobody.
abbrev crowded : Server
crowded = record room { capacity = 3 }

dave : User
dave = record zero_user { username = codes "dave"; session_id = not_in_session }

dave-Fits : Fits dave
unfolding dave
dave-Fits = record {
  name = omega arith;
  word = omega arith;
  session = omega arith;
  address = omega arith;
  outside = refl;
}

dave_unknown : find_user dave.username crowded.user_list ≡ none
unfolding find_user str_eq dave
dave_unknown = refl

add_user_overflow_example : user_database_add_user dave rw_mutex crowded ≡ stop overflow
add_user_overflow_example =
    add_user_overflow dave crowded refl (omega arith) dave_unknown dave-Fits (omega arith)
