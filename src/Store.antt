-- ===== src/Store.antt =====
-- The state that Text_Conferencing_Lab/server shares between its threads, and the steps that its
-- functions are made of. A function stops where C leaves the behaviour undefined, or where it waits
-- for a mutex that nobody will release.
pub mod Laws
use ece.Base.{
  ℕ, zero, suc, ◌+◌, ◌≡◌, Bool, true, false, List, [], ◌∷◌, ◌++◌, Option, none, some, Bytes, ltb,
  codes, if◌then◌else◌, length, get_elem?, modify,
}
use ece.Message.{frame}

-- user.h and message.h: the values of `in_session` and `status`, and of `role`.
abbrev pub offline : ℕ
offline = 0

abbrev pub online : ℕ
online = 1

abbrev pub user : ℕ
user = 0

abbrev pub admin : ℕ
admin = 1

abbrev pub max_password_length : ℕ
max_password_length = 20

abbrev pub max_session_length : ℕ
max_session_length = 20

-- INET6_ADDRSTRLEN
abbrev pub max_address_length : ℕ
max_address_length = 46

abbrev pub not_in_session : Bytes
not_in_session = codes "Not in session"

-- `user_t`
pub record User : Type 0 where
  pub username : Bytes
  pub password : Bytes
  pub session_id : Bytes
  pub ip_address : Bytes
  pub in_session : ℕ
  pub status : ℕ
  pub port : ℕ
  pub socket_fd : ℕ
  pub role : ℕ

-- `{ 0 }`
abbrev pub zero_user : User
zero_user = record {
  username = [];
  password = [];
  session_id = [];
  ip_address = [];
  in_session = offline;
  status = offline;
  port = 0;
  socket_fd = 0;
  role = user;
}

-- The globals of server.c. `user_list` holds the first `count` users of the array, which has room
-- for `capacity`; a mutex is `true` while it is held; `sent` is what was handed to `send`, with its
-- socket; `database` is the text of the database file, if it can be opened.
pub record Server : Type 0 where
  pub user_list : List User
  pub capacity : ℕ
  pub rw_mutex : Bool
  pub user_list_mutex : Bool
  pub sent : List (ℕ × Bytes)
  pub database : Option Bytes

pub data Stop : Type 0 where
  null_pointer overflow uninitialised deadlock : Stop

pub data Outcome (A : Type 0) : Type 0 where
  ok : A → Server → Outcome A
  stop : Stop → Outcome A

abbrev pub M : Type 0 → Type 0
M A = Server → Outcome A

abbrev pub pure : {A : Type 0} → A → M A
pure a s = ok a s

infixl 5 ◌>>=◌ ◌>>◌
-- Shut, so that a proof takes a run apart step by step.
unfoldable pub ◌>>=◌ : {A B : Type 0} → M A → (A → M B) → M B
◌>>=◌ m f s = elim (m s) [ ok a t ↦ f a t | stop e ↦ stop e ]

abbrev pub ◌>>◌ : {B : Type 0} → M (Unit {0}) → M B → M B
m >> k = m >>= λ _. k

abbrev pub lift : {A : Type 0} → Stop → Option A → M A
lift e none s = stop e
lift e (some a) s = ok a s

pub data Mutex : Type 0 where
  rw user_lock : Mutex

abbrev pub held : Mutex → Server → Bool
held rw s = s.rw_mutex
held user_lock s = s.user_list_mutex

abbrev pub set_held : Mutex → Bool → Server → Server
set_held rw b s = record s { rw_mutex = b }
set_held user_lock b s = record s { user_list_mutex = b }

-- `pthread_mutex_lock`: the mutexes are not recursive.
unfoldable pub lock : Mutex → M (Unit {0})
lock m s = elim (held m s) [ true ↦ stop deadlock | false ↦ ok tt (set_held m true s) ]

unfoldable pub unlock : Mutex → M (Unit {0})
unlock m s = ok tt (set_held m false s)

unfoldable pub get_users : M (List User)
get_users s = ok s.user_list s

-- A `user_t*` into the array is an index; `none` is NULL.
unfoldable pub deref : Option ℕ → M User
deref none s = stop null_pointer
deref (some i) s = lift overflow (get_elem? s.user_list i) s

unfoldable pub assign : Option ℕ → (User → User) → M (Unit {0})
assign none f s = stop null_pointer
assign (some i) f s = ok tt (record s { user_list = modify s.user_list i f })

-- `list->user_list[list->count] = new_user; list->count++`
unfoldable pub append_user : User → M (Unit {0})
append_user u s = elim (ltb (length s.user_list) s.capacity) [
  | true ↦ ok tt (record s { user_list = s.user_list ++ u ∷ [] })
  | false ↦ stop overflow
]

-- `send`, whose result the callers of this step ignore.
unfoldable pub emit : ℕ → Bytes → M (Unit {0})
emit fd b s = ok tt (record s { sent = s.sent ++ (fd, b) ∷ [] })

unfoldable pub fill_and_send_message : ℕ → ℕ → Bytes → Option Bytes → M (Unit {0})
unfolding emit ◌>>=◌
fill_and_send_message fd type source d = do b ← lift overflow (frame type source d); emit fd b
