-- ===== src/Client/Tests/Guard.antt =====
-- An admin who kicks a user of the session.
use ece.Base.{◌≡◌, refl, ◌++◌, ◌⊎◌, [], ◌∷◌, List, some, true, arith, Bytes, codes, str_eq}
use ece.Message.{header}
use ece.Message.Kind
use ece.Message.RoundTrip.{IsName, frame-eq}
use ece.Store.{online, admin}
use ece.Client.{Client, resolved, kick, post, length_validate, parameter_count_validate}
use ece.Client.Commands.{kick_command, nth, admin_command, online_command, run_command}
use ece.Client.Guard.{kicks, IsAllowed, run_command-IsAllowed}

abbrev boss : Client
boss = record {
  name = codes "bob";
  server_connection_status = online;
  verified_access = 1;
  session_status = online;
  role = admin;
  termination_signal = 0;
  thread_count = 1;
  thread = 0 ∷ [];
  sent = [];
}

abbrev boss_after : Client
boss_after = record boss { sent = (header Kind.kick 5 (codes "bob") ++ codes "carol") ∷ [] }

abbrev words : List Bytes
words = codes "/kick" ∷ codes "carol" ∷ []

boss-IsName : IsName (codes "bob")
boss-IsName = record { no_nul = ground arith; no_colon = ground arith; fits = omega arith }

kick_runs : run_command (resolved []) kick_command 2 words [] boss ≡ some (boss_after, true)
unfolding run_command online_command admin_command kick post length_validate
    parameter_count_validate nth str_eq
kick_runs =
    rw
      (frame-eq Kind.kick (codes "bob") (omega arith) boss-IsName (codes "carol") (omega arith)
        (ground arith) (omega arith))
      refl

run_command-IsAllowed_example : (boss_after ≡ boss) ⊎ IsAllowed boss (codes "carol")
unfolding nth
run_command-IsAllowed_example =
    run_command-IsAllowed (resolved []) 2 words [] boss boss_after true kicks kick_runs
