-- ===== src/Client/Tests/LateAnswer.antt =====
-- Bob has asked to log in, and logs out before he is let in; then he tries to log in again.
use ece.Base.{◌≡◌, refl, true, false, List, [], ◌∷◌, none, some, arith, ◌≢◌, Bytes, codes}
use ece.Message.{frame}
use ece.Message.Kind
use ece.Message.RoundTrip.{IsName}
use ece.Store.{online, offline, user}
use ece.Client.{Client, on, unresolved, logout}
use ece.Client.Commands.{login_command, quit_command, run_command}
use ece.Client.Replies.{received, handler_waits, server_message_handler}
use ece.Client.LateAnswer.{late_answer-IsLocked}

abbrev asked : Client
asked = record {
  name = [];
  server_connection_status = online;
  verified_access = 0;
  session_status = offline;
  role = user;
  termination_signal = 0;
  thread_count = 1;
  thread = 0 ∷ [];
  sent = codes "0:2:bob:b2" ∷ [];
}

nobody-IsName : IsName []
nobody-IsName = record { no_nul = tt; no_colon = tt; fits = omega arith }

bob-IsName : IsName (codes "bob")
bob-IsName = record { no_nul = ground arith; no_colon = ground arith; fits = omega arith }

waits_for_answer : handler_waits asked ≡ true
unfolding handler_waits
waits_for_answer = refl

no_quit : login_command ≢ quit_command
no_quit = λ e. cc

abbrev again : List Bytes
again = codes "/login" ∷ codes "bob" ∷ codes "b2" ∷ codes "10.0.0.1" ∷ codes "4000" ∷ []

late_answer_example :
    (d e : Client) × (b : Bytes) × (logout asked ≡ some d)
    × (frame Kind.lo_ack (codes "bob") none ≡ some b)
    × (server_message_handler (received b) d ≡ some (e, true))
    × (e.verified_access ≡ on)
    × (e.server_connection_status ≡ offline)
    × (handler_waits e ≡ false)
    × (run_command unresolved login_command 5 again (codes "/login bob b2 10.0.0.1 4000") e
        ≡ some (e, true))
late_answer_example =
    late_answer-IsLocked asked (codes "bob") unresolved login_command 5 again
      (codes "/login bob b2 10.0.0.1 4000") waits_for_answer refl nobody-IsName bob-IsName no_quit
