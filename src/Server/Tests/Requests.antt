-- ===== src/Server/Tests/Requests.antt =====
-- Requests of the users of the small table.
use ece.Base.{◌≡◌, refl, ◌≢◌, arith, codes, str_eq, false}
use ece.Message.RoundTrip.{IsName}
use ece.Store.{Server, ok, offline, not_in_session}
use ece.Store.Laws.{IsText}
use ece.Server.Session.{server_side_session_join, server_side_session_leave}
use ece.Server.Session.Join.{join_result, server_side_session_join-run}
use ece.Server.Session.Leave.{leave_result, server_side_session_leave-run}
use ece.Server.Safety.{IsSession}
use ece.Server.Deadlock.{IsStuck, leave_outside-IsStuck}
use ece.Server.Tests.{alice, carol, room, differ, room-Ready, alice-Located, carol-Located}

session_proper : codes "lab" ≢ not_in_session
unfolding str_eq
session_proper = differ (codes "lab") not_in_session refl

lab-IsText : IsText (codes "lab")
lab-IsText = (ground arith, omega arith)

pub lab-IsSession : IsSession (codes "lab")
lab-IsSession = record { text = lab-IsText; fits = omega arith; proper = session_proper }

carol-IsName : IsName (codes "carol")
carol-IsName = record { no_nul = ground arith; no_colon = ground arith; fits = omega arith }

alice_inside : alice.in_session ≢ offline
alice_inside = omega arith

session_join_example :
    server_side_session_join (codes "carol") (codes "lab") room
    ≡ ok tt (join_result (codes "carol") (codes "lab") room 2 carol)
session_join_example =
    server_side_session_join-run (codes "carol") (codes "lab") room 2 carol room-Ready carol-Located
      carol-IsName lab-IsText (omega arith)

session_id_outside : str_eq alice.session_id not_in_session ≡ false
unfolding str_eq
session_id_outside = refl

session_leave_example :
    server_side_session_leave (codes "alice") room ≡ ok tt (leave_result room 0 alice)
session_leave_example =
    server_side_session_leave-run (codes "alice") room 0 alice room-Ready alice-Located
      session_id_outside (omega arith) alice_inside

pub names_differ : codes "alice" ≢ codes "bob"
unfolding str_eq
names_differ = differ (codes "alice") (codes "bob") refl

leave_outside_example :
    (t : Server) × (server_side_session_leave (codes "carol") room ≡ ok tt t) × IsStuck t
leave_outside_example =
    leave_outside-IsStuck (codes "carol") room 2 carol room-Ready carol-Located refl
