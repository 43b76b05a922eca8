-- ===== src/Server/Tests/History.antt =====
-- A first user registers at the empty server and creates a session.
use ece.Base.{[], ◌∷◌, false, subst, ℕ, ◌≡◌, refl, ◌≢◌, none, some, arith, codes, str_eq}
use ece.Message.RoundTrip.{IsName}
use ece.Store.{User, Server, not_in_session}
use ece.Database.{find_user, user_database_init}
use ece.Database.Run.{Located}
use ece.Server.Invariant.{IsValid}
use ece.Server.Login.{Peer, ipv4, get_user_ip_address_and_port}
use ece.Server.Login.Registration.{new_user, user_registration_new}
use ece.Server.Session.Create.{create_result, server_side_session_create-run}
use ece.Server.Safety.{IsSession}
use ece.Server.Conference.{Move, view}
use ece.Server.Conference.Refinement.{deed_of, Request-Move}
use ece.Server.Reachable.{
  Request, Reachable, initial, after, registers, creates, initial-IsValid, Reachable-IsValid,
}
use ece.Server.Tests.{differ}

pub host : ℕ → Peer
host fd = ipv4 (codes "10.0.0.7") 4000

pub from_host : get_user_ip_address_and_port host 4 ≡ some (codes "10.0.0.7", 4000)
unfolding get_user_ip_address_and_port host
from_host = refl

abbrev pub empty : Server
empty = record {
  user_list = [];
  capacity = 16;
  rw_mutex = false;
  user_list_mutex = false;
  sent = [];
  database = none;
}

empty_init : user_database_init none ≡ empty
unfolding user_database_init
empty_init = refl

empty-Reachable : Reachable empty
empty-Reachable = subst Reachable empty_init (initial none)

pub empty-IsValid : IsValid empty
empty-IsValid = subst IsValid empty_init (initial-IsValid none)

pub ada-IsName : IsName (codes "ada")
ada-IsName = record { no_nul = ground arith; no_colon = ground arith; fits = omega arith }

pub unknown : find_user (codes "ada") [] ≡ none
unfolding find_user
unknown = refl

abbrev pub ada : User
ada = new_user (codes "ada") (codes "lovelace") 4 (codes "10.0.0.7") 4000

abbrev pub joined : Server
joined = record empty { user_list = ada ∷ [] }

pub joined-Reachable : Reachable joined
joined-Reachable = after empty-Reachable (
    registers host (codes "ada") (codes "lovelace") 4 (codes "10.0.0.7") 4000 3 ada-IsName
      (omega arith) from_host (omega arith) (omega arith)
      (user_registration_new host (codes "ada") (codes "lovelace") 4 (codes "10.0.0.7") 4000 empty
        empty-IsValid ada-IsName (omega arith) from_host (omega arith) (omega arith) unknown
        (omega arith)))

found : find_user (codes "ada") joined.user_list ≡ some 0
unfolding find_user str_eq
found = refl

pub ada-Located : Located (codes "ada") joined 0 ada
ada-Located = record { found = found; at = refl }

math_proper : codes "math" ≢ not_in_session
unfolding str_eq
math_proper = differ (codes "math") not_in_session refl

math-IsSession : IsSession (codes "math")
math-IsSession = record {
  text = (ground arith, omega arith);
  fits = omega arith;
  proper = math_proper;
}

math : Server
math = create_result (codes "ada") (codes "math") joined 0 ada

opens_math : Request joined math
unfolding math
opens_math =
    creates (codes "ada") (codes "math") 0 ada (record { located = ada-Located; present = refl })
      math-IsSession
      (server_side_session_create-run (codes "ada") (codes "math") joined 0 ada
        (record { rw_free = refl; user_free = refl }) ada-Located ada-IsName
        (ground arith, omega arith) (omega arith))

math-Reachable : Reachable math
math-Reachable = after joined-Reachable opens_math

Reachable-IsValid_example : IsValid math
Reachable-IsValid_example = Reachable-IsValid math-Reachable

Request-Move_example : Move (deed_of opens_math) (view joined.user_list) (view math.user_list)
Request-Move_example = Request-Move joined-Reachable opens_math
