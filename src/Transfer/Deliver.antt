-- ===== src/Transfer/Deliver.antt =====
-- File_Transfer_Lab_Part_III/deliver/deliver.c: the commands, the fragments, and the waiting. Whether
-- `recvfrom` gives up is an event; the estimate of the round trip time, which sets when it may, stands
-- in Timer. `none` is a write behind the end of an array.
pub mod Timer
pub mod Fragments
use ece.Base.{
  ◌-◌, ℕ, zero, suc, ◌+◌, ◌/◌, Bool, true, false, List, [], ◌∷◌, ◌++◌, Option, none, some, Bytes,
  ◌==◌, if◌then◌else◌, ◌>>=◌, length, take, drop, codes, str_eq, strcpy, tokens,
}
use ece.Transfer.Packet.{file_frag_size, write_packets, convert_to_string}

abbrev pub max_len : ℕ
max_len = 256

abbrev pub null_padded_max_len : ℕ
null_padded_max_len = max_len - 1

-- What a line of the terminal asks for; `retry` is every `continue`.
pub data Request : Type 0 where
  say_done retry : Request
  send_file : Bytes → Request

-- The words of a line.
unfoldable pub read_words : List Bytes → Option Request
read_words [] = some retry
read_words (word ∷ []) = strcpy max_len word >>= λ ftp. some retry
read_words (word ∷ name ∷ more) = strcpy max_len word >>= λ ftp.
    if str_eq ftp (codes "ftp")
    then (strcpy max_len name >>= λ file_name. elim more [
      | [] ↦ some (send_file file_name)
      | other ∷ others ↦ some retry
    ])
    else some retry

unfoldable pub read_request : Bytes → Option Request
unfolding tokens read_words
read_request line =
    if str_eq line (codes "done\n") then some say_done else read_words (tokens [] line)

-- `ceil((double) size/file_frag_size)`, which is exact for every size that a `double` holds.
unfoldable pub fragment_count : ℕ → ℕ
fragment_count size = (size + 999) / file_frag_size

-- The datagrams of the rounds that are left, from the round `i` on, for what is left of the file. A
-- `read` that gives nothing ends the loop.
unfoldable pub fragments : ℕ → ℕ → ℕ → Bytes → Bytes → Option (List Bytes)
fragments zero i total_frag file_name content = some []
fragments (suc rounds) i total_frag file_name content =
    let chunk = take file_frag_size content in
    let rest = fragments rounds (i + 1) total_frag file_name (drop file_frag_size content) in
    if length chunk == 0
    then some []
    else (write_packets total_frag (i + 1) (length chunk) file_name chunk >>= λ sender.
        convert_to_string sender file_name >>= λ datagram.
        rest >>= λ datagrams. some (datagram ∷ datagrams))

unfoldable pub file_datagrams : Bytes → Bytes → Option (List Bytes)
unfolding fragment_count fragments
file_datagrams file_name content =
    let total_frag = fragment_count (length content) in
    fragments total_frag 0 total_frag file_name content

-- What `recvfrom` gives: a datagram, EAGAIN, or another error.
pub data Answer : Type 0 where
  reply : Bytes → Answer
  timed_out failed : Answer

-- The datagram that the inner loop sends, with those that follow; the loop that waits for the goodbye;
-- the goodbye that it got; or the end of the program.
pub data Sender : Type 0 where
  sending : Bytes → List Bytes → Sender
  parting : Sender
  finished : Bytes → Sender
  exited : Sender

-- The head of the loop over the fragments.
unfoldable pub next_fragment : List Bytes → Sender
next_fragment [] = parting
next_fragment (datagram ∷ datagrams) = sending datagram datagrams

-- One `recvfrom` of either loop, which takes at most `null_padded_max_len` bytes. Any datagram counts as an acknowledgement.
unfoldable pub receive_answer : Answer → Sender → Sender
unfolding next_fragment
receive_answer (reply text) (sending datagram datagrams) = next_fragment datagrams
receive_answer timed_out (sending datagram datagrams) = sending datagram datagrams
receive_answer failed (sending datagram datagrams) = exited
receive_answer (reply text) parting = finished (take null_padded_max_len text)
receive_answer timed_out parting = parting
receive_answer failed parting = exited
receive_answer answer (finished text) = finished text
receive_answer answer exited = exited
