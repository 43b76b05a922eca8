-- ===== src/Server/Tests/Main.antt =====
-- A server on a machine with three addresses, of which the second can be bound, with a file of two
-- users; eleven connections to it; and its end.
use ece.Base.{◌≡◌, refl, ◌≢◌, inr, true, false, List, [], ◌∷◌, ◌++◌, some, arith, codes}
use ece.Store.{Server}
use ece.Server.Startup.{in_set}
use ece.Server.Startup.Scan.{Entry, file_text}
use ece.Server.Startup.Valid.{IsFile, started}
use ece.Server.Threads.{connected, connects, goes_on, starts}
use ece.Server.Threads.Owners.{IsSafe}
use ece.Server.Main.{Candidate, listens, start_server, Accepted, accepted, would_block, accept_loop}
use ece.Server.Main.Connections.{sockets, pool, settled, accept_loop-settled}
use ece.Server.Main.Start.{start_server-IsSafe}

abbrev taken_address : Candidate
taken_address = record { listen_fd = 3; made = true; reusable = true; free = false }

abbrev free_address : Candidate
free_address = record { listen_fd = 4; made = true; reusable = true; free = true }

abbrev users : List Entry
users = (codes "ann", codes "x") ∷ (codes "ben", codes "y") ∷ []

names_apart : codes "ben" ≢ codes "ann"
names_apart = ground arith

users-IsFile : IsFile users
unfolding in_set
users-IsFile = record {
  entries = (
    record {
      name = record {
        filled = omega arith;
        fits = omega arith;
        no_nul = ground arith;
        inside = ground arith;
      };
      word = record {
        filled = omega arith;
        fits = omega arith;
        no_nul = ground arith;
        inside = ground arith;
      };
    },
    (
      record {
        name = record {
          filled = omega arith;
          fits = omega arith;
          no_nul = ground arith;
          inside = ground arith;
        };
        word = record {
          filled = omega arith;
          fits = omega arith;
          no_nul = ground arith;
          inside = ground arith;
        };
      },
      tt,
    ),
  );
  no_colon = ground arith;
  distinct = ground arith;
  few = omega arith;
}

start_server_example :
    (start_server 2
        (some (taken_address ∷ [] ++ free_address ∷ free_address ∷ []))
        3
        (some (file_text users))
        true
      ≡ listens 4 (started users))
    × IsSafe (started users) (connected ∷ [])
start_server_example =
    start_server-IsSafe (taken_address ∷ []) free_address (free_address ∷ []) users 3
      (started users) (connected ∷ []) (inr (refl, refl, refl), tt)
      (record { made = refl; reusable = refl; free = refl }) users-IsFile (omega arith)
      (goes_on starts connects)

abbrev eleven : List Accepted
eleven =
    accepted 5 true
    ∷ accepted 6 true
    ∷ would_block
    ∷ accepted 7 true
    ∷ accepted 8 true
    ∷ accepted 9 true
    ∷ accepted 10 true
    ∷ accepted 11 true
    ∷ accepted 12 true
    ∷ accepted 13 true
    ∷ accepted 14 true
    ∷ accepted 15 true
    ∷ []

accept_loop_example : accept_loop eleven (pool []) ≡ settled (sockets eleven)
accept_loop_example =
    accept_loop-settled eleven (
      refl,
      (refl, (tt, (refl, (refl, (refl, (refl, (refl, (refl, (refl, (refl, (refl, tt))))))))))),
    )
