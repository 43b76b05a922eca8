-- ===== src/Server/Tests/Promotions.antt =====
-- A promotion that a plain user asks for.
use ece.Base.{suc, ◌≡◌, refl, [], ◌∷◌, none, some, arith, codes, str_eq}
use ece.Message.RoundTrip.{IsName}
use ece.Store.{User, Server, ok}
use ece.Database.{find_user}
use ece.Database.Run.{Ready}
use ece.Server.Admin.{refusal, server_side_promote_user}
use ece.Server.Invariant.{count_admins}
use ece.Server.Privilege.{promote_by_user}
use ece.Server.Tests.{alice, bob, room}

abbrev erin : User
erin = record bob { username = codes "erin"; socket_fd = 7 }

abbrev crowd : Server
crowd = record room { user_list = alice ∷ bob ∷ erin ∷ [] }

crowd-Ready : Ready crowd
crowd-Ready = record { rw_free = refl; user_free = refl }

find_sender : find_user (codes "bob") crowd.user_list ≡ some 1
unfolding find_user str_eq
find_sender = refl

find_target : find_user (codes "erin") crowd.user_list ≡ some 2
unfolding find_user str_eq
find_target = refl

sender-IsName : IsName (codes "bob")
sender-IsName = record { no_nul = ground arith; no_colon = ground arith; fits = omega arith }

allowed : refusal erin bob ≡ none
unfolding refusal str_eq
allowed = refl

promote_by_user_example :
    (w : Server) × (server_side_promote_user (codes "bob") (codes "erin") crowd ≡ ok tt w)
    × (count_admins bob.session_id w.user_list ≡ suc (count_admins bob.session_id crowd.user_list))
promote_by_user_example =
    promote_by_user (codes "bob") (codes "erin") crowd 1 bob crowd-Ready
      (record { found = find_sender; at = refl }) sender-IsName 2 erin
      (record { found = find_target; at = refl }) (omega arith) allowed (ground arith, omega arith)
      (ground arith, omega arith) refl
