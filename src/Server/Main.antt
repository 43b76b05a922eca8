-- ===== src/Server/Main.antt =====
-- server.c: `main`, up to its loop over connections, and that loop. The answers of the system are
-- arguments.
pub mod Start
pub mod Connections
use ece.Base.{
  ℕ, ◌+◌, Bool, true, false, not, List, [], ◌∷◌, ◌++◌, Option, none, some, Bytes, ◌==◌,
  if◌then◌else◌,
}
use ece.Store.{Server, Outcome, ok, stop, Stop, uninitialised}
use ece.Database.{user_database_init}
use ece.Server.Startup.{set_up_database}

abbrev pub thread_capacity : ℕ
thread_capacity = 10

-- One address of `servinfo`: the socket that would be made, and whether `socket`, `setsockopt` and
-- `bind` succeed.
pub record Candidate : Type 0 where
  pub listen_fd : ℕ
  pub made : Bool
  pub reusable : Bool
  pub free : Bool

pub data Bound : Type 0 where
  bound : ℕ → Bound
  setsockopt_failed exhausted : Bound

-- The loop over the addresses.
unfoldable pub bind_loop : List Candidate → Bound
bind_loop [] = exhausted
bind_loop (p ∷ ps) =
    let rest = bind_loop ps in
    if not p.made
    then rest
    else if not p.reusable
    then setsockopt_failed
    else if not p.free
    then rest
    else bound p.listen_fd

-- How `main` comes to its loop: it ends with a code, or with that of `errno`; C leaves what happens
-- undefined; set_up_database does not end within its fuel; or the socket listens.
pub data Launch : Type 0 where
  exits : ℕ → Launch
  exits_with_errno : Launch
  stops : Stop → Launch
  spins : Launch
  listens : ℕ → Server → Launch

-- What follows the database.
unfoldable pub open_doors : ℕ → Bool → Outcome Bool → Launch
open_doors listen_fd listening (stop e) = stops e
open_doors listen_fd listening (ok false s) = spins
open_doors listen_fd listening (ok true s) =
    if listening then listens listen_fd s else exits_with_errno

-- `argc`, what `getaddrinfo` gives, the database file, and whether `listen` succeeds. Where
-- `getaddrinfo` fails, `freeaddrinfo` is given a pointer that was never written.
unfoldable pub start_server : ℕ → Option (List Candidate) → ℕ → Option Bytes → Bool → Launch
unfolding bind_loop open_doors
start_server argc servinfo fuel file listening =
    if not (argc == 2) then exits 1 else elim servinfo [
      | none ↦ stops uninitialised
      | some candidates ↦ elim (bind_loop candidates) [
        | setsockopt_failed ↦ exits 1
        | exhausted ↦ exits 2
        | bound listen_fd ↦
            open_doors listen_fd listening (set_up_database fuel (user_database_init file))
      ]
    ]

-- What `accept` gives. `connection_handler` reads the variable `accept_fd` through a pointer; the Boolean
-- says whether its thread does so before the round of `main` ends, and the variable with it.
pub data Accepted : Type 0 where
  accepted : ℕ → Bool → Accepted
  would_block failed : Accepted

-- `thread_pool` with the socket of each thread.
pub record Listener : Type 0 where
  pub thread_count : ℕ
  pub thread_pool : List ℕ

pub data Listening : Type 0 where
  waits pool_full : Listener → Listening
  dangling ends_with_errno : Listening

-- One round; a full pool ends the loop, and the program when its threads have ended.
unfoldable pub accept_round : Accepted → Listener → Listening
accept_round a l = if l.thread_count == thread_capacity then pool_full l else elim a [
  | accepted fd prompt ↦
      if prompt
      then waits
          (record { thread_count = l.thread_count + 1; thread_pool = l.thread_pool ++ fd ∷ [] })
      else dangling
  | would_block ↦ waits l
  | failed ↦ ends_with_errno
]

unfoldable pub accept_loop : List Accepted → Listener → Listening
accept_loop [] l = if l.thread_count == thread_capacity then pool_full l else waits l
accept_loop (a ∷ as') l = elim (accept_round a l) [
  | waits next ↦ accept_loop as' next
  | pool_full last ↦ pool_full last
  | dangling ↦ dangling
  | ends_with_errno ↦ ends_with_errno
]
