-- ===== src/Server/Startup.antt =====
-- server.c: set_up_database, which reads the file that write_to_database writes.
pub mod Scan
pub mod RoundTrip
pub mod Valid
pub mod Endless
pub mod Overflow
use ece.Base.{
  ℕ, zero, suc, Bool, true, false, ◌||◌, not, List, [], ◌∷◌, Option, none, some, Bytes, ◌==◌,
  if◌then◌else◌, length, codes, c_str, strcpy, skip_spaces,
}
use ece.Base
use ece.Message.{max_name}
use ece.Store.{
  offline, user, not_in_session, User, zero_user, Server, overflow, uninitialised, null_pointer,
  stop, M, pure, ◌>>=◌, lift, rw,
}
use ece.Database.{user_database_add_user}

-- MAX_PASSWORD of server.h, the size of the array that `fscanf` fills. A `user_t` has room for
-- max_password_length.
abbrev pub max_password : ℕ
max_password = 17

-- The bytes that `%[^|\"]` takes.
unfoldable pub in_set : ℕ → Bool
in_set c = not (c == b'|' || c == b'"')

unfoldable pub span_set : Bytes → Bytes × Bytes
unfolding in_set
span_set [] = ([], [])
span_set (c ∷ s) = let rest = span_set s in if in_set c then (c ∷ rest.0, rest.1) else ([], c ∷ s)

-- Bytes of the format that stand for themselves: whether they are all there, and what is left.
unfoldable pub literals : Bytes → Bytes → Bool × Bytes
literals [] s = (true, s)
literals (c ∷ cs) [] = (false, [])
literals (c ∷ cs) (d ∷ s) = if c == d then literals cs s else (false, d ∷ s)

unfoldable pub at_end : Bytes → Bool
at_end [] = true
at_end (c ∷ s) = false

-- What one `fscanf` leaves: whether it returned EOF, the two arrays, where they were ever written, and
-- what is left of the file.
pub record Scanned : Type 0 where
  pub end_of_file : Bool
  pub username : Option Bytes
  pub password : Option Bytes
  pub rest : Bytes

-- The closing quote, and the newline of the format, which takes any white space.
unfoldable pub close_entry : Bytes → Bytes
unfolding literals skip_spaces
close_entry input =
    let quote = literals (codes "\"") input in if quote.0 then skip_spaces quote.1 else quote.1

-- The part of the format behind the name.
unfoldable pub scan_password : Bytes → Option Bytes → Bytes → Option Scanned
unfolding literals span_set close_entry
scan_password name password input =
    let colon = literals (codes "\":\"") input in
    let word = span_set colon.1 in
    if colon.0
    then (if length word.0 == 0
        then some (record {
          end_of_file = false;
          username = some name;
          password = password;
          rest = word.1;
        })
        else Base.◌>>=◌ (strcpy max_password word.0) λ w. some (record {
          end_of_file = false;
          username = some name;
          password = some w;
          rest = close_entry word.1;
        }))
    else some
        (record { end_of_file = false; username = some name; password = password; rest = colon.1 })

-- `fscanf` with the format `"%[^|"]":"%[^|"]"` and a newline.
unfoldable pub scan_entry : Option Bytes → Option Bytes → Bytes → Option Scanned
unfolding literals span_set at_end scan_password
scan_entry username password input =
    let quote = literals (codes "\"") input in
    let name = span_set quote.1 in
    if at_end input
    then some (record { end_of_file = true; username = username; password = password; rest = [] })
    else if quote.0
    then (if length name.0 == 0
        then some (record {
          end_of_file = at_end name.1;
          username = username;
          password = password;
          rest = name.1;
        })
        else Base.◌>>=◌ (strcpy max_name name.0) λ n. scan_password n password name.1)
    else some
        (record { end_of_file = false; username = username; password = password; rest = quote.1 })

abbrev pub loaded_user : Bytes → Bytes → User
loaded_user name word = record zero_user {
  username = name;
  password = word;
  session_id = not_in_session;
  ip_address = [];
  status = offline;
  in_session = offline;
  role = user;
  socket_fd = offline;
  port = offline;
}

-- The loop, on fuel; `false` is fuel that ran out. The code of `user_database_add_user` is not read.
unfoldable pub read_entries : ℕ → Option Bytes → Option Bytes → Bytes → M Bool
unfolding scan_entry user_database_add_user
read_entries zero username password input = pure false
read_entries (suc fuel) username password input = do
  scan ← lift overflow (scan_entry username password input)
  if scan.end_of_file then pure true else do
    name ← lift uninitialised scan.username
    word ← lift uninitialised scan.password
    code ← user_database_add_user (loaded_user (c_str name) (c_str word)) rw
    read_entries fuel scan.username scan.password scan.rest

-- A file that cannot be opened is closed all the same.
unfoldable pub set_up_database : ℕ → M Bool
unfolding read_entries
set_up_database fuel s = elim s.database [
  | none ↦ stop null_pointer
  | some text ↦ read_entries fuel none none text s
]
