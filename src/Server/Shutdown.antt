-- ===== src/Server/Shutdown.antt =====
-- The end of the server: KILL_HANDLER and the end of `main` in server.c, which join the threads and give
-- the table back by remove_all_users_in_database of user.c. A thread is given by whether it comes to its
-- end, which a thread that waits for `recv` or for a mutex need not.
pub mod Laws
use ece.Base.{ℕ, suc, Bool, true, false, List, [], ◌∷◌, Option, none, some, Bytes}
use ece.Store.{Server, Mutex, user_lock, held, set_held, M, pure}
use ece.Server.Login.{Peer}
use ece.Server.Handler.{Connection, Event, Next, finished, connection_handler}

-- What is left of the globals when the table was given back.
pub record Released : Type 0 where
  pub rw_mutex : Bool
  pub user_list_mutex : Bool
  pub sent : List (ℕ × Bytes)
  pub database : Option Bytes

abbrev pub released : Server → Released
released s = record {
  rw_mutex = s.rw_mutex;
  user_list_mutex = s.user_list_mutex;
  sent = s.sent;
  database = s.database;
}

-- `none` waits for the mutex for ever.
unfoldable pub remove_all_users_in_database : Mutex → Server → Option Released
remove_all_users_in_database m s = elim (held m s) [
  | true ↦ none
  | false ↦ some (released (set_held m false (set_held m true s)))
]

-- The loop of `pthread_join`: the thread that it waits for for ever, if there is one.
unfoldable pub join_loop : ℕ → List Bool → Option ℕ
join_loop i [] = none
join_loop i (true ∷ ends) = join_loop (suc i) ends
join_loop i (false ∷ ends) = some i

-- Waiting for a thread, or for the mutex; or the end of the program, with what is left of the globals if
-- there was a table.
pub data Shutdown : Type 0 where
  joins : ℕ → Shutdown
  blocks : Shutdown
  exits : Option Released → Shutdown

abbrev pub release : Option Released → Shutdown
release none = blocks
release (some r) = exits (some r)

-- The handler of SIGINT. The table is `none` before `main` has made it.
unfoldable pub kill_handler : List Bool → Option Server → Shutdown
unfolding join_loop remove_all_users_in_database
kill_handler ends user_list = elim (join_loop 0 ends) [
  | some i ↦ joins i
  | none ↦ elim user_list [
    | none ↦ exits none
    | some s ↦ release (remove_all_users_in_database user_lock s)
  ]
]

-- The end of `main`, when its pool is full.
unfoldable pub finish_main : List Bool → Server → Shutdown
unfolding join_loop remove_all_users_in_database
finish_main ends s = elim (join_loop 0 ends) [
  | some i ↦ joins i
  | none ↦ release (remove_all_users_in_database user_lock s)
]

-- A round of the loop of `connection_handler`, whose head reads what the handler of SIGINT has set.
unfoldable pub connection_round : Bool → (ℕ → Peer) → Connection → Event → M Next
unfolding connection_handler
connection_round true peer c e = pure finished
connection_round false peer c e = connection_handler peer c e
