-- ===== src/Database/Listing.antt =====
-- The listings of user.c, which write into a `char[maximum_buffer_size]` of the caller.
pub mod Bounds
pub mod Fits
use ece.Base.{
  ℕ, zero, suc, ◌-◌, List, [], ◌∷◌, ◌++◌, Option, none, some, Bytes, ◌==◌, if◌then◌else◌, length,
  str_eq, strcpy, codes, ◌>>=◌ as then_try,
}
use ece.Message.{max_name, maximum_buffer_size}
use ece.Store.{
  online, admin, User, overflow, M, pure, ◌>>=◌, ◌>>◌, lift, Mutex, lock, unlock, get_users,
}
use ece.Database.{get_user_count_in_a_session}

abbrev pub max_session_count : ℕ
max_session_count = 10

abbrev pub spaces : ℕ → Bytes
spaces zero = []
spaces (suc n) = b' ' ∷ spaces n

-- `%*s` at a negative width: the text, then spaces up to the width.
pub pad : ℕ → Bytes → Bytes
pad width s = s ++ spaces (width - length s)

pub strcat : ℕ → Bytes → Bytes → Option Bytes
strcat cap s t = strcpy cap (s ++ t)

pub row : Bytes → Bytes → Bytes
unfolding pad
row name id = pad max_name name ++ b' ' ∷ (pad max_session_count id ++ b'\n' ∷ [])

pub row_with_role : Bytes → Bytes → Bytes → Bytes
unfolding pad
row_with_role name id role =
    pad max_name name ++ b' ' ∷ (pad max_session_count id ++ b' ' ∷ (pad 6 role ++ b'\n' ∷ []))

-- `sprintf` into `message`, then `strcat` to the list.
pub add_row : Bytes → Bytes → Option Bytes
unfolding strcat
add_row list text =
    then_try (strcpy maximum_buffer_size text) (λ message. strcat maximum_buffer_size list message)

pub online_rows : Bytes → List User → Option Bytes
unfolding add_row row
online_rows list [] = some list
online_rows list (u ∷ us) =
    then_try (if u.status == online then add_row list (row u.username u.session_id) else some list)
      (λ longer. online_rows longer us)

pub role_name : ℕ → Bytes
role_name r = if r == admin then codes "ADMIN" else codes "USER"

pub session_rows : Bytes → Bytes → List User → Option Bytes
unfolding add_row row_with_role role_name
session_rows id list [] = some list
session_rows id list (u ∷ us) =
    then_try
      (if str_eq u.session_id id
        then add_row list (row_with_role u.username u.session_id (role_name u.role))
        else some list)
      (λ longer. session_rows id longer us)

unfoldable pub get_active_user_list_in_database : Mutex → M Bytes
unfolding online_rows lock unlock get_users strcat
get_active_user_list_in_database m = do
  lock m
  users ← get_users
  title ← lift overflow (strcat maximum_buffer_size [] (codes "Active User List:\n"))
  top ← lift overflow (add_row title (row (codes "Username") (codes "Session ID")))
  list ← lift overflow (online_rows top users)
  unlock m
  pure list

-- `none` is SESSION_NAME_INVALID.
unfoldable pub get_active_user_list_in_a_session : Bytes → Mutex → M (Option Bytes)
unfolding session_rows lock unlock get_users strcat get_user_count_in_a_session
get_active_user_list_in_a_session id m = do
  count ← get_user_count_in_a_session id m
  if count == 0 then pure none else do
    lock m
    users ← get_users
    title ← lift overflow (strcat maximum_buffer_size [] (codes "Active User List:\n"))
    top ←
        lift overflow
          (add_row title (row_with_role (codes "Username") (codes "Session ID") (codes "Role")))
    list ← lift overflow (session_rows id top users)
    unlock m
    pure (some list)
