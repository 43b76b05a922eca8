-- ===== src/Server/Tests/Threads.antt =====
-- Threads at the small table, and at a table that starts empty.
use ece.Base.{
  ℕ, ◌≡◌, refl, [], ◌∷◌, some, none, true, false, arith, codes, Bytes, str_eq, get_elem?,
}
use ece.Store.{User, Server, ok, online}
use ece.Database.{find_user, count_in_session}
use ece.Database.Run.{Located}
use ece.Server.Invariant.{IsValid}
use ece.Server.Login.{
  Peer, ipv4, get_user_ip_address_and_port, success_login, verify_login, user_login,
}
use ece.Server.Login.Registration.{user_registration_new}
use ece.Server.Session.{server_side_session_join, server_side_session_leave, server_side_user_exit}
use ece.Server.Session.Leave.{log_out}
use ece.Server.Admin.{refusal, server_side_kick_user}
use ece.Server.Deadlock.{IsStuck}
use ece.Message.{frame}
use ece.Server.Handler.{Connection, received, sent_all, again, connection_handler}
use ece.Server.Wire.{Ask, creates, type_of, data_of}
use ece.Server.Threads.Rounds.{round-Turns}
use ece.Server.Threads.{
  serving, exiting, closed, exit_check, exit_leave, Turns, starts, goes_on, connects, registers,
  leaves, clears,
}
use ece.Server.Threads.Steps.{exit_check-run, exit_clear-run, cleared, cleared-IsValid}
use ece.Server.Threads.Owners.{IsSafe}
use ece.Server.Threads.Safety.{Turns-IsSafe}
use ece.Server.Threads.KickRace.{kick_between-IsStuck}
use ece.Server.Threads.LoginRace.{double_login}
use ece.Server.Tests.{alice, bob, carol, room, room-IsValid, alice-LoggedIn, bob-Located}
use ece.Server.Tests.Requests.{names_differ, lab-IsSession}
use ece.Server.Tests.History.{
  host, from_host, empty, empty-IsValid, ada-IsName, unknown, ada, joined, ada-Located,
}

-- Ada registers, and logs out in two turns.
registered-Turns : Turns empty joined (serving (codes "ada") ∷ [])
registered-Turns = goes_on (goes_on starts connects) (
    registers 0 host (codes "ada") (codes "lovelace") 4 (codes "10.0.0.7") 4000 refl ada-IsName
      (omega arith) from_host (omega arith) (omega arith)
      (user_registration_new host (codes "ada") (codes "lovelace") 4 (codes "10.0.0.7") 4000 empty
        empty-IsValid ada-IsName (omega arith) from_host (omega arith) (omega arith) unknown
        (omega arith)))

ada_check : exit_check (codes "ada") joined ≡ ok (some 0, false) joined
ada_check = exit_check-run (codes "ada") joined 0 ada ada-Located

ada_stays : exit_leave (codes "ada") false joined ≡ ok tt joined
unfolding exit_leave
ada_stays = refl

half_way : Turns empty joined (exiting (codes "ada") 0 ∷ [])
half_way = goes_on registered-Turns (leaves 0 (codes "ada") 0 false refl ada_check ada_stays)

ended : Turns empty (cleared 0 joined) (closed ∷ [])
ended = goes_on half_way (clears 0 (codes "ada") 0 refl (exit_clear-run 0 joined refl))

Turns-IsSafe_example : IsSafe (cleared 0 joined) (closed ∷ [])
Turns-IsSafe_example = Turns-IsSafe empty-IsValid ended

abbrev line_of_ada : Connection
line_of_ada = record { socket_fd = 4; source = some (codes "ada"); server_connection_status = 1 }

abbrev lab_of_ada : Ask
lab_of_ada = creates (codes "lab")

round_example :
    (b : Bytes) × (t : Server) × (frame (type_of lab_of_ada) (codes "ada") (data_of lab_of_ada)
      ≡ some b)
    × (connection_handler host line_of_ada (received b sent_all) joined ≡ ok (again line_of_ada) t)
    × Turns empty t (serving (codes "ada") ∷ [])
    × IsSafe t (serving (codes "ada") ∷ [])
round_example =
    round-Turns empty-IsValid registered-Turns 0 (codes "ada") refl host line_of_ada lab_of_ada
      sent_all refl (λ i u l. lab-IsSession)

bob_allowed : refusal bob alice ≡ none
unfolding refusal str_eq
bob_allowed = refl

kick_between_example :
    (after_kick stuck : Server) × (exit_check (codes "bob") room ≡ ok (some 1, true) room)
    × (server_side_kick_user (codes "alice") (codes "bob") room ≡ ok tt after_kick)
    × (exit_leave (codes "bob") true after_kick ≡ ok tt stuck)
    × (server_side_session_leave (codes "bob") after_kick ≡ ok tt stuck)
    × IsStuck stuck
kick_between_example =
    kick_between-IsStuck (codes "alice") (codes "bob") room 0 alice room-IsValid alice-LoggedIn
      names_differ 1 bob bob-Located bob_allowed

-- The small table with carol logged out.
abbrev hall : Server
hall = cleared 2 room

hall-IsValid : IsValid hall
hall-IsValid = cleared-IsValid 2 room carol room-IsValid refl refl

found_carol : find_user (codes "carol") hall.user_list ≡ some 2
unfolding find_user str_eq
found_carol = refl

away-Located : Located (codes "carol") hall 2 (log_out carol)
away-Located = record { found = found_carol; at = refl }

two_desks : ℕ → Peer
two_desks fd = ipv4 (codes "10.0.0.8") fd

from_desk : (fd : ℕ) → get_user_ip_address_and_port two_desks fd ≡ some (codes "10.0.0.8", fd)
unfolding get_user_ip_address_and_port two_desks
from_desk fd = refl

in_lab : count_in_session (codes "lab") hall.user_list ≡ 2
unfolding count_in_session str_eq
in_lab = refl

double_login_example :
    (verify_login (codes "carol") (codes "c3") hall ≡ ok success_login hall)
    × (after_first after_second after_exit after_join : Server) × (e : User) × (user_login two_desks
          (codes "carol")
          online
          8
          hall
        ≡ ok tt after_first)
    × (user_login two_desks (codes "carol") online 9 after_first ≡ ok tt after_second)
    × (get_elem? after_second.user_list 2 ≡ some e)
    × (e.socket_fd ≡ 9)
    × (server_side_user_exit (codes "carol") after_second ≡ ok tt after_exit)
    × (server_side_session_join (codes "carol") (codes "lab") after_exit ≡ ok tt after_join)
    × IsValid after_exit
    × (¬ (IsValid after_join))
double_login_example =
    double_login two_desks (codes "carol") (codes "c3") hall 2 (log_out carol) hall-IsValid
      away-Located 8 (codes "10.0.0.8") 8 9 (codes "10.0.0.8") 9 (from_desk 8) (omega arith)
      (from_desk 9) (omega arith) (omega arith) (codes "lab") lab-IsSession (omega (arith, in_lab))
      (omega (arith, in_lab)) refl
