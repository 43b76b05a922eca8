-- ===== src/Server/Login.antt =====
-- server.c: login, logout of a user's data, and registration.
pub mod Verify
pub mod Register
pub mod Safety
pub mod Registration
pub mod Arrival
use ece.Base.{
  ℕ, ◌+◌, ◌-◌, Bool, true, false, List, [], ◌∷◌, ◌++◌, Option, none, some, Bytes, ◌==◌, ◌||◌,
  if◌then◌else◌, str_eq, strcpy, codes, get_elem?,
}
use ece.Message.{max_name}
use ece.Store.{
  offline, online, user, max_password_length, max_session_length, max_address_length,
  not_in_session, User, zero_user, Server, overflow, uninitialised, Outcome, ok, M, pure, ◌>>=◌,
  ◌>>◌, lift, rw, user_lock, lock, unlock, get_users, deref, assign,
}
use ece.Database.{
  database_search_user, user_database_add_user, get_user_count_in_database, user_already_exist,
  user_list_full,
}

-- The return codes of `verify_login`; LIST_EMPTY would say that the table was never made.
pub data LoginResult : Type 0 where
  success_login username_error password_error already_login multiple_log_at_same_ip : LoginResult

unfoldable pub verify_login : Bytes → Bytes → M LoginResult
unfolding database_search_user deref
verify_login name word = do
  p ← database_search_user name
  elim p [
    | none ↦ pure username_error
    | some i ↦ do
      u ← deref (some i)
      pure (
          if str_eq u.password word
          then (if u.status == online then already_login else success_login)
          else password_error)
  ]

-- SUCCESS_LOGIN and MULTIPLE_LOG_AT_SAME_IP are both 3, and have one text.
unfoldable pub select_login_message : LoginResult → Option Bytes
select_login_message username_error = some (codes "Your username does not appear to be valid.")
select_login_message password_error = some (codes "Your password is incorrect.")
select_login_message already_login =
    some (
      codes
        "You have logged in elsewhere.\n Please log out of the other session before proceeding.")
select_login_message multiple_log_at_same_ip =
    some (codes "Logging into another account while staying online is not permitted!")
select_login_message success_login =
    some (codes "Logging into another account while staying online is not permitted!")

-- What `getpeername` and `inet_ntop` say of a socket.
pub data Peer : Type 0 where
  ipv4 ipv6 : Bytes → ℕ → Peer
  unknown_family failed : Peer

-- The address and the port; `none` is the buffer of `malloc` with nothing written to it.
unfoldable pub get_user_ip_address_and_port : (ℕ → Peer) → ℕ → Option (Bytes × ℕ)
get_user_ip_address_and_port peer fd = elim (peer fd) [
  | ipv4 address port ↦ some (address, port)
  | ipv6 address port ↦ some (address, port)
  | unknown_family ↦ none
  | failed ↦ none
]

unfoldable pub user_login : (ℕ → Peer) → Bytes → ℕ → ℕ → M (Unit {0})
unfolding lock unlock database_search_user assign get_user_ip_address_and_port
user_login peer name status fd = do
  lock user_lock
  p ← database_search_user name
  elim p [
    | none ↦ unlock user_lock
    | some i ↦ do
      assign (some i) (λ u. record u { socket_fd = fd; status = status })
      at ← lift uninitialised (get_user_ip_address_and_port peer fd)
      address ← lift overflow (strcpy max_address_length at.0)
      assign (some i) (λ u. record u { port = at.1; ip_address = address })
      unlock user_lock
  ]

-- `fprintf(fp, "\n\"%s\":\"%s\"", …)`; an index outside of the array is an undefined read.
unfoldable pub write_to_database : ℕ → M (Unit {0})
unfolding deref
write_to_database index = do
  u ← deref (some index)
  λ s. ok tt (record s {
    database = elim s.database [
      | none ↦ none
      | some text ↦ some (
          text ++ (b'\n' ∷ b'"' ∷ (u.username ++ (b'"' ∷ b':' ∷ b'"' ∷ (u.password ++ b'"' ∷ [])))))
    ];
  })

unfoldable pub user_registration : (ℕ → Peer) → Bytes → Bytes → ℕ → M ℕ
unfolding lock unlock get_user_ip_address_and_port user_database_add_user get_user_count_in_database
    write_to_database
user_registration peer name word fd = do
  lock user_lock
  username ← lift overflow (strcpy max_name name)
  password ← lift overflow (strcpy max_password_length word)
  at ← lift uninitialised (get_user_ip_address_and_port peer fd)
  address ← lift overflow (strcpy max_address_length at.0)
  let new_user = record zero_user {
    username = username;
    password = password;
    session_id = not_in_session;
    ip_address = address;
    status = online;
    in_session = offline;
    role = user;
    socket_fd = fd;
    port = at.1;
  }
  code ← user_database_add_user new_user rw
  if code == user_already_exist || code == user_list_full
      then (do unlock user_lock; pure code)
      else do
        count ← get_user_count_in_database rw
        write_to_database (count - 1)
        unlock user_lock
        pure code

unfoldable pub user_registration_message : ℕ → Option Bytes
user_registration_message value =
    if value == user_already_exist
    then some (codes "Username already exists!.")
    else if value == user_list_full
    then some (codes "User list is full!.")
    else none
