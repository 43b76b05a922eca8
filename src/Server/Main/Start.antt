-- ===== src/Server/Main/Start.antt =====
-- The start of the server, from the addresses of the machine and the database file to the first
-- connection.
use ece.Base.{ℕ, ◌≡◌, refl, ◌⊎◌, true, false, List, [], ◌∷◌, ◌++◌, some, arith, All, length, ◌<◌}
use ece.Store.{Server}
use ece.Server.Startup.Scan.{Entry, file_text}
use ece.Server.Startup.Valid.{IsFile, started, set_up_database-IsValid}
use ece.Server.Threads.{Thread, Turns}
use ece.Server.Threads.Owners.{IsSafe}
use ece.Server.Threads.Safety.{Turns-IsSafe}
use ece.Server.Main.{Candidate, bound, bind_loop, listens, open_doors, start_server}

-- An address that the loop goes past: no socket, or one that cannot be bound.
abbrev pub IsPassed : Candidate → Type 0
IsPassed p = (p.made ≡ false) ⊎ ((p.made ≡ true) × (p.reusable ≡ true) × (p.free ≡ false))

-- One that it keeps.
pub record IsUsable (p : Candidate) : Type 0 where
  pub made : p.made ≡ true
  pub reusable : p.reusable ≡ true
  pub free : p.free ≡ true

pub bind_loop-first :
    (before : List Candidate) (p : Candidate) (behind : List Candidate)
    → All IsPassed before
    → IsUsable p
    → bind_loop (before ++ p ∷ behind) ≡ bound p.listen_fd
unfolding bind_loop
bind_loop-first [] p behind h u = ground (arith, u.made, u.reusable, u.free)
bind_loop-first (q ∷ before) p behind h u =
    ground (arith, h.0, bind_loop-first before p behind h.1 u)

-- A server that is called with its port, whose machine has an address that a socket can be made
-- for and bound to, with none before it at which setsockopt fails, and whose `listen` succeeds, on
-- a database file of at most 16 entries (each a name and a password of 1 to 16 bytes without NULs,
-- quotes and bars) with unique names without colons, for which the loop of set_up_database is
-- given more rounds than there are entries, comes to listen on the first such socket. Its table is
-- that of the file. And whatever its threads do from there, in whatever order, by the turns that
-- Turn lists, the table stays valid, the users of the threads are online, and no two threads have
-- the same user.
pub start_server-IsSafe :
    (before : List Candidate) (p : Candidate) (behind : List Candidate) (es : List Entry) (fuel : ℕ)
    (t : Server) (ts : List Thread)
    → All IsPassed before
    → IsUsable p
    → IsFile es
    → length es < fuel
    → Turns (started es) t ts
    → (start_server 2 (some (before ++ p ∷ behind)) fuel (some (file_text es)) true
        ≡ listens p.listen_fd (started es))
      × IsSafe t ts
unfolding start_server
start_server-IsSafe before p behind es fuel t ts passed usable file enough turns =
    let (run, valid) = set_up_database-IsValid es fuel file enough in
    (
      rw (bind_loop-first before p behind passed usable, start_server, run, open_doors) refl,
      Turns-IsSafe valid turns,
    )
