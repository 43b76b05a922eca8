-- ===== src/Transfer/Plain/Deliver.antt =====
-- File_Transfer_Lab_Part_II/deliver/deliver.c: the commands and the replies. How a file is cut into
-- datagrams is the same as in Part III. `none` is a write behind the end of an array, or a copy from a
-- null pointer.
pub mod Commands
use ece.Base.{
  ℕ, ◌-◌, Bool, true, false, List, [], ◌∷◌, ◌++◌, Option, none, some, Bytes, if◌then◌else◌, ◌>>=◌,
  length, take, codes, c_str, str_eq, strcpy, tokens,
}
use ece.Transfer.Deliver.{Request, say_done, retry, send_file, max_len, null_padded_max_len}

abbrev pub ftp_length : ℕ
ftp_length = 4

-- The words of a line. The first one is copied before it is looked at.
unfoldable pub command_words : List Bytes → Option Request
command_words [] = none
command_words (word ∷ []) = strcpy ftp_length word >>= λ ftp. some retry
command_words (word ∷ name ∷ []) = strcpy ftp_length word >>= λ ftp.
    strcpy max_len name >>= λ file_name.
    some (if str_eq ftp (codes "ftp") then send_file file_name else retry)
command_words (word ∷ name ∷ other ∷ others) =
    strcpy ftp_length word >>= λ ftp. strcpy max_len name >>= λ file_name. some retry

-- What a line of the terminal asks for.
unfoldable pub read_command : Bytes → Option Request
unfolding tokens command_words
read_command line =
    if str_eq line (codes "done\n") then some say_done else command_words (tokens [] line)

-- The loop over the fragments, at a `sendto`; the `recvfrom` of the goodbye, which it got or not; or a
-- `recvfrom` of the loop that nothing will answer.
pub data PlainSender : Type 0 where
  sending : Bytes → List Bytes → PlainSender
  parting blocked : PlainSender
  finished : Bytes → PlainSender

unfoldable pub next_datagram : List Bytes → PlainSender
next_datagram [] = parting
next_datagram (datagram ∷ datagrams) = sending datagram datagrams

-- A reply, behind which the program writes a newline; the text of an error ends the loop.
unfoldable pub receive_reply : Bytes → List Bytes → PlainSender
unfolding next_datagram
receive_reply text datagrams =
    if str_eq (c_str (take null_padded_max_len text ++ b'\n' ∷ [])) (codes "packet missing!")
    then parting
    else next_datagram datagrams

unfoldable pub receive_goodbye : Bytes → PlainSender → PlainSender
receive_goodbye text parting = finished (take null_padded_max_len text)
receive_goodbye text (sending datagram datagrams) = sending datagram datagrams
receive_goodbye text blocked = blocked
receive_goodbye text (finished other) = finished other
