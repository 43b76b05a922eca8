-- ===== src/Client/Commands.antt =====
-- client.c: the loop of `main`, which reads a line and carries out its command.
use ece.Base.{
  is_delimiter, tokens, ℕ, zero, suc, ◌+◌, Bool, true, false, not, ◌&&◌, List, [], ◌∷◌, ◌++◌,
  Option, some, Bytes, leb, ◌==◌, if◌then◌else◌, ◌>>=◌, length, str_eq, strcpy, codes, c_str,
}
use ece.Message.{fill_message, message_to_string, max_name, maximum_buffer_size}
use ece.Message.Kind
use ece.Store.{offline, user, max_session_length}
use ece.Client.{
  Client, Network, on, length_validate, parameter_count_validate, login, user_registration, logout,
  join_session, leave_session, create_session, list, user_list, promote, kick, terminate_program,
}

pub data Command : Type 0 where
  invalid_command login_command logout_command join_session_command : Command
  leave_session_command create_session_command list_command quit_command : Command
  create_command kick_command promote_command message_command userlist_command : Command

abbrev pub login_parameter_size : ℕ
login_parameter_size = 5

-- Whether the first byte is a slash; `command[0]` of an empty text is its NUL.
unfoldable pub starts_with_slash : Bytes → Bool
starts_with_slash [] = false
starts_with_slash (c ∷ s) = c == b'/'

unfoldable pub check_commands : Bytes → Command
unfolding starts_with_slash
check_commands command =
    if not (starts_with_slash command)
    then message_command
    else if str_eq command (codes "/login")
    then login_command
    else if str_eq command (codes "/logout")
    then logout_command
    else if str_eq command (codes "/quit")
    then quit_command
    else if str_eq command (codes "/joinsession")
    then join_session_command
    else if str_eq command (codes "/leavesession")
    then leave_session_command
    else if str_eq command (codes "/createsession")
    then create_session_command
    else if str_eq command (codes "/list")
    then list_command
    else if str_eq command (codes "/create")
    then create_command
    else if str_eq command (codes "/kick")
    then kick_command
    else if str_eq command (codes "/promote")
    then promote_command
    else if str_eq command (codes "/userlist")
    then userlist_command
    else invalid_command

-- What the first call of `strtok` makes of the line: the byte behind the first token becomes NUL.
pub cut_line : Bool → Bytes → Bytes
unfolding is_delimiter
cut_line inside [] = []
cut_line true (c ∷ line) =
    let rest = cut_line true line in if is_delimiter c then 0 ∷ line else c ∷ rest
cut_line false (c ∷ line) = c ∷ cut_line (not (is_delimiter c)) line

-- The copies into `input`, whose rows have 50 bytes.
unfoldable pub copy_tokens : List Bytes → Option (List Bytes)
copy_tokens [] = some []
copy_tokens (t ∷ ts) = strcpy 50 t >>= λ row. copy_tokens ts >>= λ rows. some (row ∷ rows)

unfoldable pub first_tokens : ℕ → List Bytes → List Bytes
first_tokens zero ts = []
first_tokens (suc n) [] = []
first_tokens (suc n) (t ∷ ts) = t ∷ first_tokens n ts

-- `index` and `input` after the loop over the tokens. A line that is no command gives its first
-- token only, with `index` 0; more than five tokens give 6.
unfoldable pub read_input : Bytes → Option (ℕ × List Bytes)
unfolding tokens copy_tokens starts_with_slash first_tokens
read_input line =
    let all = tokens [] line in
    if starts_with_slash line
    then (copy_tokens (first_tokens login_parameter_size all) >>= λ rows.
        some (if leb (length all) login_parameter_size then length all else 6, rows))
    else (copy_tokens (first_tokens 1 all) >>= λ rows. some (0, rows))

-- `input[k]`, which was zeroed before.
unfoldable pub nth : ℕ → List Bytes → Bytes
nth k [] = []
nth zero (t ∷ ts) = t
nth (suc k) (t ∷ ts) = nth k ts

-- The line that `message_command` sends; the buffer holds `bytes_read` bytes and a NUL.
unfoldable pub text_line : Bytes → Client → Option Client
unfolding cut_line
text_line line c = fill_message Kind.message (length line) c.name (cut_line false line) >>= λ m.
    message_to_string maximum_buffer_size m m.size >>= λ b.
    some (record c { sent = c.sent ++ c_str b ∷ [] })

-- The commands that want a session in which the user is the admin.
unfoldable pub admin_command : Command → ℕ → List Bytes → Client → Option Client
unfolding nth
admin_command code index input c =
    let target = nth 1 input in
    let allowed =
      parameter_count_validate index 2
      && length_validate (length target) max_name
      && not (str_eq c.name target) in
    elim code [
      | promote_command ↦ if allowed then promote target c else some c
      | kick_command ↦ if allowed then kick target c else some c
      | other ↦ some c
    ]

-- The commands that want a connection.
unfoldable pub online_command : Command → ℕ → List Bytes → Bytes → Client → Option Client
unfolding nth text_line admin_command
online_command code index input line c =
    let first = nth 1 input in
    let guarded =
      if c.session_status == offline
      then some c
      else if c.role == user
      then some c
      else admin_command code index input c in
    elim code [
      | message_command ↦ if c.session_status == offline then some c else text_line line c
      | logout_command ↦ if parameter_count_validate index 1 then logout c else some c
      | list_command ↦ if parameter_count_validate index 1 then list c else some c
      | userlist_command ↦ if parameter_count_validate index 2 then user_list first c else some c
      | join_session_command ↦
          if parameter_count_validate index 2 && length_validate (length first) max_session_length
          then join_session first c
          else some c
      | create_session_command ↦
          if parameter_count_validate index 2 && length_validate (length first) max_session_length
          then create_session first c
          else some c
      | leave_session_command ↦ if parameter_count_validate index 1 then leave_session c else some c
      | other ↦ guarded
    ]

-- `login` and `user_registration`, from the loop.
unfoldable pub connect_command :
    (Bytes → Bytes → Client → Option Client) → ℕ → List Bytes → Client → Option Client
unfolding nth
connect_command request index input c =
    if not (parameter_count_validate index login_parameter_size)
    then some c
    else if c.verified_access == on
    then some c
    else request (nth 1 input) (nth 2 input) c >>= λ d.
        some (record d { thread_count = d.thread_count + 1 })

-- One command; the Boolean says whether the loop goes on.
unfoldable pub run_command :
    Network → Command → ℕ → List Bytes → Bytes → Client → Option (Client × Bool)
unfolding online_command connect_command
run_command net code index input line c =
    let going : Client → Option (Client × Bool) = λ d. some (d, true) in
    elim code [
      | invalid_command ↦ some (c, true)
      | quit_command ↦
          if parameter_count_validate index 1
          then terminate_program c >>= (λ d. some (d, false))
          else some (c, true)
      | login_command ↦ connect_command (login net) index input c >>= going
      | create_command ↦ connect_command (user_registration net) index input c >>= going
      | other ↦
          if c.server_connection_status == offline
          then some (c, true)
          else online_command other index input line c >>= going
    ]
