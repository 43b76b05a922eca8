-- ===== src/Server/Tests.antt =====
-- A small table of users for the examples: alice is the admin of "lab", bob is in it, and carol is
-- online in no session.
pub mod Requests
pub mod Arrivals
pub mod Promotions
pub mod History
pub mod Threads
pub mod Startup
pub mod Queries
pub mod Main
pub mod Wire
use ece.Base.{
  false, ℕ, ◌≡◌, refl, ◌≢◌, ◌≤◌, inl, inr, [], ◌∷◌, some, arith, Bytes, codes, str_eq, str_eq_iff,
  ◌==◌, if◌then◌else◌,
}
use ece.Message.RoundTrip.{IsName}
use ece.Store.{User, zero_user, Server, online, offline, user, admin, not_in_session}
use ece.Database.{count_in_session, find_user}
use ece.Database.Run.{Ready, Located}
use ece.Server.Invariant.{IsUser, IsTable, IsValid, count_admins}
use ece.Server.Safety.{LoggedIn}

abbrev pub alice : User
alice = record zero_user {
  username = codes "alice";
  password = codes "a1";
  session_id = codes "lab";
  in_session = online;
  status = online;
  socket_fd = 4;
  role = admin;
}

abbrev pub bob : User
bob = record zero_user {
  username = codes "bob";
  password = codes "b2";
  session_id = codes "lab";
  in_session = online;
  status = online;
  socket_fd = 5;
}

abbrev pub carol : User
carol = record zero_user {
  username = codes "carol";
  password = codes "c3";
  session_id = not_in_session;
  status = online;
  socket_fd = 6;
}

abbrev pub room : Server
room = record {
  user_list = alice ∷ bob ∷ carol ∷ [];
  capacity = 16;
  rw_mutex = false;
  user_list_mutex = false;
  sent = [];
  database = some [];
}

pub differ : (a b : Bytes) → str_eq a b ≡ false → a ≢ b
differ a b h = ground (arith, str_eq_iff a b)

lab_proper : codes "lab" ≢ not_in_session
unfolding str_eq
lab_proper = differ (codes "lab") not_in_session refl

alice-IsUser : IsUser alice
alice-IsUser = record {
  name = record { no_nul = ground arith; no_colon = ground arith; fits = omega arith };
  word = omega arith;
  id_text = ground arith;
  id_fits = omega arith;
  place = inl (refl, lab_proper);
  rank = inr refl;
  presence = inl refl;
}

bob-IsUser : IsUser bob
bob-IsUser = record {
  name = record { no_nul = ground arith; no_colon = ground arith; fits = omega arith };
  word = omega arith;
  id_text = ground arith;
  id_fits = omega arith;
  place = inl (refl, lab_proper);
  rank = inl refl;
  presence = inl refl;
}

carol-IsUser : IsUser carol
carol-IsUser = record {
  name = record { no_nul = ground arith; no_colon = ground arith; fits = omega arith };
  word = omega arith;
  id_text = ground arith;
  id_fits = omega arith;
  place = inr (refl, refl, refl);
  rank = inl refl;
  presence = inl refl;
}

room_sizes : (id : Bytes) → count_in_session id room.user_list ≤ 6
unfolding count_in_session
room_sizes id = ground arith

room_admins : (id : Bytes) → count_admins id room.user_list ≤ 1
unfolding count_admins
room_admins id = ground arith

apart_ab : codes "bob" ≢ codes "alice"
unfolding str_eq
apart_ab = differ (codes "bob") (codes "alice") refl

apart_ac : codes "carol" ≢ codes "alice"
unfolding str_eq
apart_ac = differ (codes "carol") (codes "alice") refl

apart_bc : codes "carol" ≢ codes "bob"
unfolding str_eq
apart_bc = differ (codes "carol") (codes "bob") refl

pub room-Ready : Ready room
room-Ready = record { rw_free = refl; user_free = refl }

pub room-IsValid : IsValid room
room-IsValid = record {
  ready = room-Ready;
  table = record {
    users = (alice-IsUser, (bob-IsUser, (carol-IsUser, tt)));
    distinct = ((apart_ab, (apart_ac, tt)), ((apart_bc, tt), (tt, tt)));
    sizes = λ id other. room_sizes id;
    admins = λ id other. room_admins id;
  };
  bounded = omega arith;
}

find_alice : find_user (codes "alice") room.user_list ≡ some 0
unfolding find_user str_eq
find_alice = refl

find_bob : find_user (codes "bob") room.user_list ≡ some 1
unfolding find_user str_eq
find_bob = refl

find_carol : find_user (codes "carol") room.user_list ≡ some 2
unfolding find_user str_eq
find_carol = refl

pub alice-Located : Located (codes "alice") room 0 alice
alice-Located = record { found = find_alice; at = refl }

pub bob-Located : Located (codes "bob") room 1 bob
bob-Located = record { found = find_bob; at = refl }

pub carol-Located : Located (codes "carol") room 2 carol
carol-Located = record { found = find_carol; at = refl }

pub alice-LoggedIn : LoggedIn (codes "alice") room 0 alice
alice-LoggedIn = record { located = alice-Located; present = refl }

pub bob-LoggedIn : LoggedIn (codes "bob") room 1 bob
bob-LoggedIn = record { located = bob-Located; present = refl }

pub carol-LoggedIn : LoggedIn (codes "carol") room 2 carol
carol-LoggedIn = record { located = carol-Located; present = refl }
