-- ===== src/Server/Tests/Wire.antt =====
-- Bytes of alice on her connection.
use ece.Base.{ℕ, ◌≡◌, refl, some, arith, Bytes, codes}
use ece.Message.{frame}
use ece.Store.{Server, ok}
use ece.Server.Login.{Peer, failed}
use ece.Server.Session.{server_side_user_exit}
use ece.Server.Handler.{
  Connection, sent_all, received, refused, receive_error, again, finished, connection_handler,
}
use ece.Server.Invariant.{IsValid}
use ece.Server.Reachable.{Request}
use ece.Server.Tests.{alice, room, room-IsValid, alice-LoggedIn}
use ece.Server.Tests.Requests.{names_differ}
use ece.Server.Wire.{Ask, promotes, type_of, data_of}
use ece.Server.Wire.Rounds.{connection_handler-Request}

abbrev line_of_alice : Connection
line_of_alice = record {
  socket_fd = 4;
  source = some (codes "alice");
  server_connection_status = 1;
}

nowhere : ℕ → Peer
nowhere fd = failed

abbrev promotion : Ask
promotion = promotes (codes "bob")

connection_handler-Request_example :
    (b : Bytes) × (t w : Server) × (frame (type_of promotion) (codes "alice") (data_of promotion)
      ≡ some b)
    × (connection_handler nowhere line_of_alice (received b sent_all) room
        ≡ ok (again line_of_alice) t)
    × Request room t
    × IsValid t
    × (server_side_user_exit (codes "alice") room ≡ ok tt w)
    × (connection_handler nowhere line_of_alice refused room ≡ ok finished w)
    × (connection_handler nowhere line_of_alice receive_error room ≡ ok finished w)
    × Request room w
    × IsValid w
connection_handler-Request_example =
    connection_handler-Request (codes "alice") room 0 alice room-IsValid alice-LoggedIn nowhere
      line_of_alice refl promotion sent_all
      (record { no_nul = ground arith; fits = omega arith; other = names_differ }, refl) refl
