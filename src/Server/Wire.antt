-- ===== src/Server/Wire.antt =====
-- server.c: what a user who is logged in can ask for, by the type of the message and its text.
pub mod Rounds
use ece.Base.{
  ℕ, ◌≡◌, refl, sym, ◌∙◌, ◌≢◌, ◌<◌, ◌≤◌, int_max, [], ◌∷◌, Option, none, some, arith, Bytes, NoNul,
  length, c_str-NoNul,
}
use ece.Message.{Message, frame, receive_message, max_data}
use ece.Message.Kind
use ece.Message.RoundTrip.{IsName, string_to_message-frame, frame-none}
use ece.Store.{User, Server, M, ok, admin, offline, online}
use ece.Store.Laws.{bind_ok}
use ece.Server.Login.{Peer}
use ece.Server.Session.{
  server_side_session_join, server_side_session_create, server_side_session_leave,
  server_side_user_exit,
}
use ece.Server.Admin.{server_side_kick_user, server_side_promote_user}
use ece.Server.Handler.{
  Connection, SendResult, received, refused, receive_error, hang_up, Next, again, finished, name_of,
  dispatch, connection_handler,
}
use ece.Server.Invariant.{IsValid}
use ece.Server.Safety.{
  LoggedIn, IsSession, this_name, server_side_session_join-IsValid,
  server_side_session_create-IsValid, server_side_session_leave-IsValid,
  server_side_user_exit-IsValid,
}
use ece.Server.AdminSafety.{server_side_kick_user-IsValid, server_side_promote_user-IsValid}
use ece.Server.Reachable.{Request}
use ece.Server.Reachable

-- What a user can ask for, with the session or the user that it names.
pub data Ask : Type 0 where
  joins creates kicks promotes : Bytes → Ask
  leaves exits : Ask

abbrev pub type_of : Ask → ℕ
type_of (joins id) = Kind.join
type_of (creates id) = Kind.new_sess
type_of (kicks target) = Kind.kick
type_of (promotes target) = Kind.promote
type_of leaves = Kind.leave_sess
type_of exits = Kind.exit

abbrev pub text_of : Ask → Bytes
text_of (joins id) = id
text_of (creates id) = id
text_of (kicks target) = target
text_of (promotes target) = target
text_of leaves = []
text_of exits = []

-- What the client hands to fill_and_send_message.
abbrev pub data_of : Ask → Option Bytes
data_of (joins id) = some id
data_of (creates id) = some id
data_of (kicks target) = some target
data_of (promotes target) = some target
data_of leaves = none
data_of exits = none

abbrev pub next_of : Ask → Connection → Next
next_of (joins id) c = again c
next_of (creates id) c = again c
next_of (kicks target) c = again c
next_of (promotes target) c = again c
next_of leaves c = again c
next_of exits c = finished

-- A text that a message can carry, and that does not name the user.
pub record IsTarget (name target : Bytes) : Type 0 where
  pub no_nul : NoNul target
  pub fits : length target < max_data
  pub other : name ≢ target

-- What the client sees to before it sends.
abbrev pub IsAllowed : Bytes → User → Ask → Type 0
IsAllowed name u (joins id) = IsSession id
IsAllowed name u (creates id) = IsSession id
IsAllowed name u (kicks target) = IsTarget name target
IsAllowed name u (promotes target) = IsTarget name target × (u.role ≡ admin)
IsAllowed name u leaves = u.in_session ≢ offline
IsAllowed name u exits = Unit

-- The function that serves the request.
abbrev pub service : Bytes → Ask → M (Unit {0})
service name (joins id) = server_side_session_join name id
service name (creates id) = server_side_session_create name id
service name (kicks target) = server_side_kick_user name target
service name (promotes target) = server_side_promote_user name target
service name leaves = server_side_session_leave name
service name exits = server_side_user_exit name
