-- ===== src/Client/Tests.antt =====
-- A client in the session of the small table.
pub mod Login
pub mod Guard
pub mod Limit
pub mod LateAnswer
use ece.Base.{
  List, true, print_int, ℕ, ◌≡◌, refl, ◌++◌, [], ◌∷◌, some, arith, Bytes, codes, false, strcpy,
  atoi, c_str, read_bytes,
}
use ece.Message.{header, frame, fill_message, message_to_string, string_to_message, receive_message}
use ece.Message.RoundTrip.{IsName}
use ece.Message.Text.{text_message}
use ece.Store.{ok, online, offline, user}
use ece.Server.Login.{Peer, failed}
use ece.Server.Handler.{Connection, sent_all, received, again, connection_handler}
use ece.Server.Session.Join.{join_result}
use ece.Client.Joining.{join_session-delivery}
use ece.Server.Session.Relay.{copies}
use ece.Server.Tests.{bob, carol, room, room-Ready, bob-Located, carol-Located}
use ece.Client.{
  Client, Network, resolved, connect_loop, join_session, start, login, connect_and_post,
  length_validate, parameter_count_validate, post,
}
use ece.Client.Commands.{cut_line, text_line, login_command, nth, connect_command, run_command}
use ece.Client.Delivery.{text_line-delivery}
use ece.Client.Replies
use ece.Client.Replies.{server_message_handler}
use ece.Client.History.{starts, types, hears, Lives-IsClient}
use ece.Client.Flags.{IsClient}

abbrev bob_client : Client
bob_client = record {
  name = codes "bob";
  server_connection_status = online;
  verified_access = 1;
  session_status = online;
  role = user;
  termination_signal = 0;
  thread_count = 1;
  thread = 0 ∷ [];
  sent = [];
}

bob-IsName : IsName (codes "bob")
bob-IsName = record { no_nul = ground arith; no_colon = ground arith; fits = omega arith }

abbrev thread : Connection
thread = record { socket_fd = 5; source = some (codes "bob"); server_connection_status = online }

no_peer : ℕ → Peer
no_peer fd = failed

text_line_example :
    (b : Bytes) × (text_line (codes "hello all\n") bob_client
      ≡ some (record bob_client { sent = [] ++ b ∷ [] }))
    × (connection_handler no_peer thread (received b sent_all) room
        ≡ ok (again thread) (record room { sent = [] ++ copies (codes "lab") b room.user_list }))
    × (string_to_message (receive_message b)
        ≡ some (text_message 9 (codes "bob") (cut_line false (codes "hello all\n"))))
text_line_example =
    text_line-delivery 9 (codes "hello all\n") bob_client refl (omega arith) bob-IsName room 1 bob
      room-Ready bob-Located no_peer thread sent_all

abbrev carol_client : Client
carol_client = record bob_client { name = codes "carol"; session_status = offline }

abbrev carol_thread : Connection
carol_thread = record {
  socket_fd = 6;
  source = some (codes "carol");
  server_connection_status = online;
}

carol-IsName : IsName (codes "carol")
carol-IsName = record { no_nul = ground arith; no_colon = ground arith; fits = omega arith }

join_session_example :
    (b : Bytes) × (join_session (codes "lab") carol_client
      ≡ some (record carol_client { sent = [] ++ b ∷ [] }))
    × (connection_handler no_peer carol_thread (received b sent_all) room
        ≡ ok (again carol_thread) (join_result (codes "carol") (codes "lab") room 2 carol))
join_session_example =
    join_session-delivery (codes "lab") carol_client carol-IsName (ground arith, omega arith)
      (omega arith) (omega arith) room 2 carol room-Ready carol-Located no_peer carol_thread refl
      sent_all
