-- ===== src/Database.antt =====
-- Text_Conferencing_Lab/server/user.c: the table of users. Every call passes the same table, and
-- the mutex is an argument. What goes to stdout and stderr is left out.
pub mod Listing
pub mod Laws
pub mod Run
pub mod Removal
use ece.Base.{
  ℕ, zero, suc, ◌+◌, ◌-◌, ◌≡◌, Bool, true, false, not, ◌&&◌, List, [], ◌∷◌, ◌++◌, map, Option, none,
  some, Bytes, ltb, leb, ◌==◌, if◌then◌else◌, length, str_eq, strcpy, codes,
}
use ece.Base
use ece.Message.{max_name, maximum_buffer_size}
use ece.Store.{
  offline, online, user, admin, max_password_length, max_session_length, max_address_length,
  not_in_session, User, zero_user, Server, Stop, null_pointer, overflow, deadlock, Outcome, ok,
  stop, M, pure, ◌>>=◌, ◌>>◌, lift, Mutex, rw as rw_mutex, user_lock, lock, unlock, get_users,
  deref, assign, append_user,
}
use mathlib.Core.Option

abbrev pub add_user_success : ℕ
add_user_success = 3

abbrev pub user_already_exist : ℕ
user_already_exist = 2

abbrev pub user_list_full : ℕ
user_list_full = 4

abbrev pub max_session_user : ℕ
max_session_user = 6

abbrev pub max_user_count : ℕ
max_user_count = 100

-- `user_database_init`: an empty table with room for 16 users.
unfoldable pub user_database_init : Option Bytes → Server
user_database_init file = record {
  user_list = [];
  capacity = 16;
  rw_mutex = false;
  user_list_mutex = false;
  sent = [];
  database = file;
}

-- `create_user` copies all fields but `in_session`.
unfoldable pub create_user : User → User → Option User
create_user u v = Base.◌>>=◌ (strcpy max_name v.username) λ name.
    Base.◌>>=◌ (strcpy max_password_length v.password) λ word.
      Base.◌>>=◌ (strcpy max_session_length v.session_id) λ session.
        Base.◌>>=◌ (strcpy max_address_length v.ip_address) λ address. some (record u {
          username = name;
          password = word;
          session_id = session;
          ip_address = address;
          status = v.status;
          port = v.port;
          socket_fd = v.socket_fd;
          role = v.role;
        })

-- The loop of both searches: the index of the first user of that name.
unfoldable pub find_user : Bytes → List User → Option ℕ
find_user name [] = none
find_user name (u ∷ us) =
    if str_eq u.username name then some 0 else Option.map suc (find_user name us)

unfoldable pub database_search_user : Bytes → M (Option ℕ)
unfolding get_users
database_search_user name = do users ← get_users; pure (find_user name users)

unfoldable pub return_user_by_username : Bytes → M (Option ℕ)
unfolding get_users
return_user_by_username name = do users ← get_users; pure (find_user name users)

unfoldable pub get_user_count_in_database : Mutex → M ℕ
unfolding lock unlock get_users
get_user_count_in_database m = do lock m; users ← get_users; unlock m; pure (length users)

unfoldable pub count_in_session : Bytes → List User → ℕ
count_in_session id [] = 0
count_in_session id (u ∷ us) =
    let rest = count_in_session id us in if str_eq u.session_id id then suc rest else rest

unfoldable pub get_user_count_in_a_session : Bytes → Mutex → M ℕ
unfolding lock unlock get_users
get_user_count_in_a_session id m = do
  lock m
  users ← get_users
  unlock m
  pure (count_in_session id users)

unfoldable pub user_database_add_user : User → Mutex → M ℕ
unfolding get_user_count_in_database lock unlock database_search_user append_user
user_database_add_user data' m = do
  count ← get_user_count_in_database m
  lock m
  if leb max_user_count count then (do unlock m; pure user_list_full) else do
    found ← database_search_user data'.username
    elim found [
      | some i ↦ (do unlock m; pure user_already_exist)
      | none ↦ do
        new_user ← lift overflow (create_user zero_user data')
        append_user new_user
        unlock m
        pure add_user_success
    ]

unfoldable pub promote_in_session : Bytes → User → User
promote_in_session id u =
    if str_eq u.session_id id then (if u.role == user then record u { role = admin } else u) else u

unfoldable pub set_the_only_user_admin : Bytes → Mutex → M (Unit {0})
unfolding lock unlock
set_the_only_user_admin id m = do
  lock m
  λ s. ok tt (record s { user_list = map (promote_in_session id) s.user_list })
  unlock m

-- What `user_exit_current_session` writes to the user.
abbrev pub leave_session : User → User
leave_session u = record u { in_session = offline; role = user; session_id = not_in_session }

-- The early return keeps the mutex.
unfoldable pub user_exit_current_session : Bytes → Mutex → M (Unit {0})
unfolding lock unlock return_user_by_username deref assign get_user_count_in_a_session
    set_the_only_user_admin
user_exit_current_session name m = do
  lock m
  p ← return_user_by_username name
  u ← deref p
  id ← lift overflow (strcpy max_session_length u.session_id)
  if str_eq u.session_id not_in_session then pure tt else do
    assign p leave_session
    unlock m
    first ← get_user_count_in_a_session id m
    second ← get_user_count_in_a_session id m
    if second == 1 then set_the_only_user_admin id m else pure tt
