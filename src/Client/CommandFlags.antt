-- ===== src/Client/CommandFlags.antt =====
-- The flags of the client over the commands of the loop in main.
use ece.Base.{
  ℕ, ◌≡◌, refl, subst, inl, inr, Bool, false, not, Option, some, none, Bool-cases, arith, Bytes,
  ◌==◌, if◌then◌else◌, List, [], ◌∷◌, ◌++◌, length, str_eq,
}
use ece.Message.Kind
use mathlib.Core.Option.{some-injective}
use ece.Message.{max_name, maximum_buffer_size, fill_message, message_to_string}
use ece.Store.{offline, online, user, not_in_session, max_password_length}
use ece.Client.{
  Client, Network, unresolved, resolved, connect_loop, on, length_validate, post, connect_and_post,
  logout, join_session, create_session, list, user_list, promote, kick,
}
use ece.Client.Commands.{
  Command, invalid_command, login_command, logout_command, join_session_command,
  leave_session_command, create_session_command, list_command, quit_command, create_command,
  kick_command, promote_command, message_command, userlist_command, cut_line, nth, text_line,
  admin_command, online_command,
}
use ece.Client.Flags.{IsClient, post-flags, some_bind, leave_session-IsClient, logout-IsClient}

-- What a request does to a client that it keeps valid.
abbrev pub Keeps : (Client → Option Client) → Type 0
Keeps request = (c d : Client) → request c ≡ some d → IsClient c → IsClient d

post-IsClient :
    (type : ℕ) (source : Client → Bytes) (text : Option Bytes)
    → Keeps (λ c. post type (source c) text c)
post-IsClient type source text c d h v = record {
  connected = λ e. ground (arith, v.connected, post-flags type (source c) text c d h);
}

pub skip-IsClient : Keeps some
skip-IsClient c d h v = subst IsClient (some-injective _ _ h) v

pub if-IsClient :
    (t : Client → Bool) (f g : Client → Option Client)
    → Keeps f
    → Keeps g
    → Keeps (λ c. if t c then f c else g c)
if-IsClient t f g kf kg c d h v = elim (Bool-cases (t c)) [
  | inl e ↦ kf c d (rw e at h) v
  | inr e ↦ kg c d (rw e at h) v
]

join_session-IsClient : (id : Bytes) → Keeps (join_session id)
unfolding join_session
join_session-IsClient id =
    if-IsClient (λ c. c.session_status == online) _ _ skip-IsClient
      (post-IsClient Kind.join (λ c. c.name) (some id))

create_session-IsClient : (id : Bytes) → Keeps (create_session id)
unfolding create_session
create_session-IsClient id =
    if-IsClient (λ c. c.session_status == online) _ _ skip-IsClient
      (post-IsClient Kind.new_sess (λ c. c.name) (some id))

list-IsClient : Keeps list
unfolding list
list-IsClient = post-IsClient Kind.query (λ c. c.name) none

user_list-IsClient : (id : Bytes) → Keeps (user_list id)
unfolding user_list
user_list-IsClient id =
    if-IsClient (λ c. str_eq id not_in_session) _ _ skip-IsClient
      (post-IsClient Kind.sess_query (λ c. c.name) (some id))

promote-IsClient : (target : Bytes) → Keeps (promote target)
unfolding promote
promote-IsClient target =
    if-IsClient (λ c. not (length_validate (length target) max_name)) _ _ skip-IsClient
      (post-IsClient Kind.promote (λ c. c.name) (some target))

kick-IsClient : (target : Bytes) → Keeps (kick target)
unfolding kick
kick-IsClient target =
    if-IsClient (λ c. not (length_validate (length target) max_name)) _ _ skip-IsClient
      (post-IsClient Kind.kick (λ c. c.name) (some target))

connected-IsClient :
    (type : ℕ) (username : Bytes) (text : Option Bytes)
    → Keeps (λ c.
      post type username text
        (record c { server_connection_status = on; thread = c.thread ++ c.thread_count ∷ [] }))
connected-IsClient type username text c d h v =
    post-IsClient type (λ e. username) text
      (record c { server_connection_status = on; thread = c.thread ++ c.thread_count ∷ [] }) d h
      (record { connected = λ e. refl })

pub connect_and_post-IsClient :
    (type : ℕ) (net : Network) (username password : Bytes)
    → Keeps (connect_and_post type net username password)
unfolding connect_and_post
connect_and_post-IsClient type unresolved username password =
    if-IsClient (λ c. not (length_validate (length username) max_name)) _ _ skip-IsClient
      (if-IsClient (λ c. not (length_validate (length password) max_password_length)) _ (λ c. none)
        skip-IsClient (λ c d h v. absurd (cc)))
connect_and_post-IsClient type (resolved addresses) username password =
    if-IsClient (λ c. not (length_validate (length username) max_name)) _ _ skip-IsClient
      (if-IsClient (λ c. not (length_validate (length password) max_password_length)) _ _
        skip-IsClient
        (if-IsClient (λ c. not (connect_loop addresses)) _ _ skip-IsClient
          (connected-IsClient type username (some password))))

text_line-IsClient : (line : Bytes) → Keeps (text_line line)
unfolding text_line
text_line-IsClient line c d h v =
    let (m, first, more) =
      some_bind (fill_message Kind.message (length line) c.name (cut_line false line)) _ d h in
    let (b, second, last) = some_bind (message_to_string maximum_buffer_size m m.size) _ d more in
    subst IsClient (some-injective _ _ last) (record { connected = v.connected })

admin_command-IsClient :
    (code : Command) (index : ℕ) (input : List Bytes) → Keeps (admin_command code index input)
unfolding admin_command
admin_command-IsClient promote_command index input =
    if-IsClient _ _ _ (promote-IsClient (nth 1 input)) skip-IsClient
admin_command-IsClient kick_command index input =
    if-IsClient _ _ _ (kick-IsClient (nth 1 input)) skip-IsClient
admin_command-IsClient invalid_command index input = skip-IsClient
admin_command-IsClient login_command index input = skip-IsClient
admin_command-IsClient logout_command index input = skip-IsClient
admin_command-IsClient join_session_command index input = skip-IsClient
admin_command-IsClient leave_session_command index input = skip-IsClient
admin_command-IsClient create_session_command index input = skip-IsClient
admin_command-IsClient list_command index input = skip-IsClient
admin_command-IsClient quit_command index input = skip-IsClient
admin_command-IsClient create_command index input = skip-IsClient
admin_command-IsClient message_command index input = skip-IsClient
admin_command-IsClient userlist_command index input = skip-IsClient

guarded-IsClient :
    (code : Command) (index : ℕ) (input : List Bytes)
    → Keeps (λ c.
      if c.session_status == offline
      then some c
      else if c.role == user
      then some c
      else admin_command code index input c)
guarded-IsClient code index input =
    if-IsClient (λ c. c.session_status == offline) _ _ skip-IsClient
      (if-IsClient (λ c. c.role == user) _ _ skip-IsClient
        (admin_command-IsClient code index input))

pub logout-Keeps : Keeps logout
logout-Keeps c d h v = logout-IsClient c d h

pub online_command-IsClient :
    (code : Command) (index : ℕ) (input : List Bytes) (line : Bytes)
    → Keeps (online_command code index input line)
unfolding online_command
online_command-IsClient message_command index input line =
    if-IsClient (λ c. c.session_status == offline) _ _ skip-IsClient (text_line-IsClient line)
online_command-IsClient logout_command index input line =
    if-IsClient _ _ _ logout-Keeps skip-IsClient
online_command-IsClient list_command index input line =
    if-IsClient _ _ _ list-IsClient skip-IsClient
online_command-IsClient userlist_command index input line =
    if-IsClient _ _ _ (user_list-IsClient (nth 1 input)) skip-IsClient
online_command-IsClient join_session_command index input line =
    if-IsClient _ _ _ (join_session-IsClient (nth 1 input)) skip-IsClient
online_command-IsClient create_session_command index input line =
    if-IsClient _ _ _ (create_session-IsClient (nth 1 input)) skip-IsClient
online_command-IsClient leave_session_command index input line =
    if-IsClient _ _ _ leave_session-IsClient skip-IsClient
online_command-IsClient promote_command index input line =
    guarded-IsClient promote_command index input
online_command-IsClient kick_command index input line = guarded-IsClient kick_command index input
online_command-IsClient invalid_command index input line =
    guarded-IsClient invalid_command index input
online_command-IsClient login_command index input line = guarded-IsClient login_command index input
online_command-IsClient quit_command index input line = guarded-IsClient quit_command index input
online_command-IsClient create_command index input line =
    guarded-IsClient create_command index input
