-- ===== src/Client/History.antt =====
-- The states that the client reaches, by commands, by SIGINT and by messages of the server.
use ece.Base.{
  ℕ, ◌+◌, ◌≡◌, subst, Bool, true, false, not, Option, some, none, ◌>>=◌, Bool-cases, inl, inr,
  arith, Bytes, ◌==◌, if◌then◌else◌, List,
}
use ece.Store.{offline, online}
use ece.Client.{
  Client, Network, start, on, parameter_count_validate, login, user_registration, logout,
  join_threads, terminate_program, sig_kill_handler,
}
use ece.Client.Commands.{
  Command, invalid_command, login_command, logout_command, join_session_command,
  leave_session_command, create_session_command, list_command, quit_command, create_command,
  kick_command, promote_command, message_command, userlist_command, login_parameter_size, nth,
  online_command, connect_command, run_command,
}
use ece.Client.Replies.{Arrival, server_message_handler}
use ece.Client.Flags.{IsClient, some_bind, same_client, server_message_handler-IsClient}
use ece.Client.CommandFlags.{
  Keeps, skip-IsClient, if-IsClient, logout-Keeps, connect_and_post-IsClient,
  online_command-IsClient,
}

bind-IsClient : (f g : Client → Option Client) → Keeps f → Keeps g → Keeps (λ c. f c >>= g)
bind-IsClient f g kf kg c d h v =
    let (e, first, second) = some_bind (f c) g d h in kg e d second (kf c e first v)

count-IsClient : Keeps (λ c. some (record c { thread_count = c.thread_count + 1 }))
count-IsClient c d h v =
    skip-IsClient (record c { thread_count = c.thread_count + 1 }) d h
      (record { connected = v.connected })

connect_command-IsClient :
    (request : Bytes → Bytes → Client → Option Client)
    → ((name word : Bytes) → Keeps (request name word))
    → (index : ℕ) (input : List Bytes) → Keeps (connect_command request index input)
unfolding connect_command
connect_command-IsClient request k index input =
    if-IsClient (λ c. not (parameter_count_validate index login_parameter_size)) _ _ skip-IsClient
      (if-IsClient (λ c. c.verified_access == on) _ _ skip-IsClient
        (bind-IsClient (request (nth 1 input) (nth 2 input)) _ (k (nth 1 input) (nth 2 input))
          count-IsClient))

login-IsClient : (net : Network) (name word : Bytes) → Keeps (login net name word)
unfolding login
login-IsClient net name word = connect_and_post-IsClient _ net name word

user_registration-IsClient :
    (net : Network) (name word : Bytes) → Keeps (user_registration net name word)
unfolding user_registration
user_registration-IsClient net name word = connect_and_post-IsClient _ net name word

end-IsClient : Keeps (λ c.
    if join_threads c.thread_count 0 c.thread
    then some (record c { termination_signal = on })
    else none)
end-IsClient =
    if-IsClient (λ c. join_threads c.thread_count 0 c.thread) _ (λ c. none)
      (λ c d h v.
        skip-IsClient (record c { termination_signal = on }) d h
          (record { connected = v.connected }))
      (λ c d h v. absurd (cc))

terminate_program-IsClient : Keeps terminate_program
unfolding terminate_program
terminate_program-IsClient =
    bind-IsClient _ _
      (if-IsClient (λ c. c.server_connection_status == on) logout some logout-Keeps skip-IsClient)
      end-IsClient

sig_kill_handler-IsClient : Keeps sig_kill_handler
unfolding sig_kill_handler
sig_kill_handler-IsClient =
    bind-IsClient _ _
      (if-IsClient (λ c. c.server_connection_status == on) logout some logout-Keeps skip-IsClient)
      end-IsClient

abbrev flagged : Bool → Client → Option (Client × Bool)
flagged b c = some (c, b)

-- A request, with a Boolean that says whether the loop goes on.
flag-IsClient :
    (f : Client → Option Client) (flag b : Bool)
    → Keeps f
    → (c d : Client) → (f c >>= flagged flag) ≡ flagged b d
    → IsClient c
    → IsClient d
flag-IsClient f flag b k c d h v =
    let (e, first, second) = some_bind (f c) (flagged flag) (d, b) h in
    subst IsClient (same_client second) (k c e first v)

online_step :
    (code : Command) (index : ℕ) (input : List Bytes) (line : Bytes) (c d : Client) (b : Bool)
    → (if c.server_connection_status == offline
        then flagged true c
        else (online_command code index input line c >>= flagged true))
      ≡ flagged b d
    → IsClient c
    → IsClient d
online_step code index input line c d b h v =
    elim (Bool-cases (c.server_connection_status == offline)) [
      | inl e ↦ subst IsClient (same_client (rw e at h)) v
      | inr e ↦
          flag-IsClient (online_command code index input line) true b
            (online_command-IsClient code index input line) c d (rw e at h) v
    ]

quit_step :
    (index : ℕ) (c d : Client) (b : Bool)
    → (if parameter_count_validate index 1
        then (terminate_program c >>= flagged false)
        else flagged true c)
      ≡ flagged b d
    → IsClient c
    → IsClient d
quit_step index c d b h v = elim (Bool-cases (parameter_count_validate index 1)) [
  | inl e ↦ flag-IsClient terminate_program false b terminate_program-IsClient c d (rw e at h) v
  | inr e ↦ subst IsClient (same_client (rw e at h)) v
]

run_command-IsClient :
    (net : Network) (code : Command) (index : ℕ) (input : List Bytes) (line : Bytes) (c d : Client)
    (b : Bool)
    → run_command net code index input line c ≡ some (d, b)
    → IsClient c
    → IsClient d
unfolding run_command
run_command-IsClient t invalid_command index input line c d b h v = subst IsClient (same_client h) v
run_command-IsClient t quit_command index input line c d b h v = quit_step index c d b h v
run_command-IsClient t login_command index input line c d b h v =
    flag-IsClient _ true b (connect_command-IsClient (login t) (login-IsClient t) index input) c d h
      v
run_command-IsClient t create_command index input line c d b h v =
    flag-IsClient _ true b
      (connect_command-IsClient (user_registration t) (user_registration-IsClient t) index input) c
      d h v
run_command-IsClient t logout_command index input line c d b h v =
    online_step logout_command index input line c d b h v
run_command-IsClient t join_session_command index input line c d b h v =
    online_step join_session_command index input line c d b h v
run_command-IsClient t leave_session_command index input line c d b h v =
    online_step leave_session_command index input line c d b h v
run_command-IsClient t create_session_command index input line c d b h v =
    online_step create_session_command index input line c d b h v
run_command-IsClient t list_command index input line c d b h v =
    online_step list_command index input line c d b h v
run_command-IsClient t kick_command index input line c d b h v =
    online_step kick_command index input line c d b h v
run_command-IsClient t promote_command index input line c d b h v =
    online_step promote_command index input line c d b h v
run_command-IsClient t message_command index input line c d b h v =
    online_step message_command index input line c d b h v
run_command-IsClient t userlist_command index input line c d b h v =
    online_step userlist_command index input line c d b h v

-- The commands of the user, the messages of the server that arrive while the connection is up, and
-- SIGINT, in any order.
pub data Lives : Client → Type 0 where
  starts : Lives start
  types :
      {c d : Client} (net : Network) (code : Command) (index : ℕ) (input : List Bytes)
      (line : Bytes) (b : Bool)
      → Lives c
      → run_command net code index input line c ≡ some (d, b)
      → Lives d
  hears :
      {c d : Client} (a : Arrival) (b : Bool)
      → Lives c
      → c.server_connection_status ≡ online
      → server_message_handler a c ≡ some (d, b)
      → Lives d
  interrupted : {c d : Client} → Lives c → sig_kill_handler c ≡ some d → Lives d

start-IsClient : IsClient start
unfolding start
start-IsClient = record { connected = λ e. absurd (omega arith) }

-- In every state that the client reaches from its start, by commands and by SIGINT that write
-- behind no array and use no pointer and no thread that was never written, and by messages that
-- arrive while the connection is up and are handled without a write behind an array, in any order,
-- access is verified only while the connection is up.
pub Lives-IsClient : {c : Client} → Lives c → IsClient c
Lives-IsClient starts = start-IsClient
Lives-IsClient {c = d} (types {c} net code index input line b l h) =
    run_command-IsClient net code index input line c d b h (Lives-IsClient l)
Lives-IsClient {c = d} (hears {c} a b l up h) =
    server_message_handler-IsClient a c d b up h (Lives-IsClient l)
Lives-IsClient {c = d} (interrupted {c} l h) = sig_kill_handler-IsClient c d h (Lives-IsClient l)
