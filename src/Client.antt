-- ===== src/Client.antt =====
-- Text_Conferencing_Lab/client/client.c: the flags of the client and the requests that it sends.
-- `none` is a write behind the end of an array, or a use of a pointer or of a thread that was never
-- written. What
-- goes to the terminal is left out.
pub mod Commands
pub mod Replies
pub mod Delivery
pub mod Joining
pub mod LoggingIn
pub mod Flags
pub mod CommandFlags
pub mod Guard
pub mod History
pub mod LateAnswer
pub mod Main
pub mod Tests
use ece.Base.{
  ℕ, zero, suc, ◌+◌, Bool, true, false, not, ◌&&◌, List, [], ◌∷◌, ◌++◌, Option, none, some, Bytes,
  leb, ltb, ◌==◌, if◌then◌else◌, ◌>>=◌, length, str_eq, codes,
}
use ece.Message.{frame, max_name}
use ece.Message.Kind
use ece.Store.{offline, online, user, not_in_session, max_password_length}

abbrev pub off : ℕ
off = 0

abbrev pub on : ℕ
on = 1

-- The globals of client.c, and the texts that were handed to `send`. `thread` holds the places of the
-- array that `pthread_create` has written.
pub record Client : Type 0 where
  pub name : Bytes
  pub server_connection_status : ℕ
  pub verified_access : ℕ
  pub session_status : ℕ
  pub role : ℕ
  pub termination_signal : ℕ
  pub thread_count : ℕ
  pub thread : List ℕ
  pub sent : List Bytes

unfoldable pub start : Client
start = record {
  name = [];
  server_connection_status = offline;
  verified_access = off;
  session_status = offline;
  role = user;
  termination_signal = off;
  thread_count = 0;
  thread = [];
  sent = [];
}

-- 1 is `validation_success`, and `true` here.
unfoldable pub length_validate : ℕ → ℕ → Bool
length_validate received_length expected_length = not (leb expected_length received_length)

unfoldable pub parameter_count_validate : ℕ → ℕ → Bool
parameter_count_validate received_count expected_count =
    if ltb expected_count received_count
    then false
    else if ltb received_count expected_count
    then false
    else true

unfoldable pub post : ℕ → Bytes → Option Bytes → Client → Option Client
post type source d c = frame type source d >>= λ b. some (record c { sent = c.sent ++ b ∷ [] })

-- One address of the server: whether `socket` and `connect` succeed.
pub record Attempt : Type 0 where
  pub made : Bool
  pub accepted : Bool

-- What `getaddrinfo` finds.
pub data Network : Type 0 where
  unresolved : Network
  resolved : List Attempt → Network

-- The loop over the addresses: whether one of them could be connected.
unfoldable pub connect_loop : List Attempt → Bool
connect_loop [] = false
connect_loop (p ∷ ps) =
    let rest = connect_loop ps in if not p.made then rest else if not p.accepted then rest else true

-- `login` and `user_registration` differ in the type of their message. Where `getaddrinfo` fails,
-- `freeaddrinfo` is given a pointer that was never written.
unfoldable pub connect_and_post : ℕ → Network → Bytes → Bytes → Client → Option Client
unfolding length_validate post connect_loop
connect_and_post type net username password c =
    if not (length_validate (length username) max_name)
    then some c
    else if not (length_validate (length password) max_password_length)
    then some c
    else elim net [
      | unresolved ↦ none
      | resolved addresses ↦
          if not (connect_loop addresses)
          then some c
          else post type username (some password)
              (record c { server_connection_status = on; thread = c.thread ++ c.thread_count ∷ [] })
    ]

unfoldable pub login : Network → Bytes → Bytes → Client → Option Client
unfolding connect_and_post
login net username password c = connect_and_post Kind.login net username password c

unfoldable pub user_registration : Network → Bytes → Bytes → Client → Option Client
unfolding connect_and_post
user_registration net username password c = connect_and_post Kind.create net username password c

unfoldable pub leave_session : Client → Option Client
unfolding post
leave_session c =
    if c.session_status == offline
    then some c
    else post Kind.leave_sess c.name none (record c { session_status = offline; role = user })

unfoldable pub logout : Client → Option Client
unfolding post leave_session
logout c = (if c.session_status == online then leave_session c else some c) >>= λ d.
    post Kind.exit d.name none
      (record d { verified_access = off; server_connection_status = offline })

unfoldable pub join_session : Bytes → Client → Option Client
unfolding post
join_session id c = if c.session_status == online then some c else post Kind.join c.name (some id) c

unfoldable pub create_session : Bytes → Client → Option Client
unfolding post
create_session id c =
    if c.session_status == online then some c else post Kind.new_sess c.name (some id) c

unfoldable pub list : Client → Option Client
unfolding post
list c = post Kind.query c.name none c

unfoldable pub user_list : Bytes → Client → Option Client
unfolding post
user_list id c =
    if str_eq id not_in_session then some c else post Kind.sess_query c.name (some id) c

unfoldable pub promote : Bytes → Client → Option Client
unfolding post length_validate
promote username c =
    if not (length_validate (length username) max_name)
    then some c
    else post Kind.promote c.name (some username) c

unfoldable pub kick : Bytes → Client → Option Client
unfolding post length_validate
kick username c =
    if not (length_validate (length username) max_name)
    then some c
    else post Kind.kick c.name (some username) c

unfoldable pub written : ℕ → List ℕ → Bool
written i [] = false
written i (j ∷ js) = let rest = written i js in if i == j then true else rest

-- The loop of `pthread_join`, with the rounds that are left: whether every thread that it joins was ever
-- created. Those that were are taken to come to their ends.
unfoldable pub join_threads : ℕ → ℕ → List ℕ → Bool
unfolding written
join_threads zero i thread = true
join_threads (suc rounds) i thread =
    let rest = join_threads rounds (i + 1) thread in if written i thread then rest else false

unfoldable pub terminate_program : Client → Option Client
unfolding logout join_threads
terminate_program c = (if c.server_connection_status == on then logout c else some c) >>= λ d.
    if join_threads d.thread_count 0 d.thread
    then some (record d { termination_signal = on })
    else none

-- The handler of SIGINT, up to the release of the line.
unfoldable pub sig_kill_handler : Client → Option Client
unfolding logout join_threads
sig_kill_handler c = (if c.server_connection_status == on then logout c else some c) >>= λ d.
    if join_threads d.thread_count 0 d.thread
    then some (record d { termination_signal = on })
    else none
