-- ===== src/Transfer/Handshake.antt =====
-- File_Transfer_Lab_Part_I: deliver.c up to its datagram and from the reply on, and the loop of server.c.
-- `none` is a write behind the end of an array, or a read of one that was never written.
pub mod Laws
use ece.Base.{
  ℕ, ◌-◌, Bool, true, false, List, [], ◌∷◌, ◌++◌, Option, none, some, Bytes, if◌then◌else◌, ◌>>=◌,
  ◌==◌, length, take, codes, c_str, str_eq, strcpy, overlay, is_space, skip_spaces,
}

-- `max_len` of deliver.c is that of server.c.
abbrev pub reply_size : ℕ
reply_size = 50 - 1

-- What `strcmp` of server.c compares is the buffer, with what earlier datagrams left in it.
unfoldable pub answer : Bytes → Bytes
answer buffer =
    if str_eq (c_str buffer) (codes "ftp") then codes "yes" ++ 0 ∷ [] else codes "no" ++ 0 ∷ []

-- One round of the loop: the buffer behind it, and the datagram that is sent back.
unfoldable pub serve : Bytes → Bytes → Bytes × Bytes
unfolding answer
serve datagram buffer =
    let received = overlay reply_size datagram buffer in (received, answer received)

-- The bytes up to the next white space, and those from it on.
unfoldable pub split_word : Bytes → Bytes × Bytes
split_word [] = ([], [])
split_word (c ∷ s) =
    let rest = split_word s in if is_space c then ([], c ∷ s) else (c ∷ rest.0, rest.1)

-- `%s` of `scanf`.
unfoldable pub scan_word : Bytes → Bytes × Bytes
unfolding split_word
scan_word input = split_word (skip_spaces input)

-- What deliver.c does before it looks at the network: it exits, or it sends the bytes of `ftp`.
pub data Opening : Type 0 where
  incorrect_format file_missing : Opening
  sends : Bytes → Opening

-- `getchar` behind the two words gives a newline or EOF.
unfoldable pub ends_line : Bytes → Bool
ends_line [] = true
ends_line (c ∷ s) = c == b'\n'

abbrev pub ftp_size : ℕ
ftp_size = 3

-- The first word has to fit `ftp`, the second one `file_name`; the argument says which files can be
-- opened.
unfoldable pub read_names : (Bytes → Bool) → Bytes → Option Opening
unfolding scan_word ends_line
read_names exists input =
    let first = scan_word input in
    let second = scan_word first.1 in
    if length first.0 == 0
    then none
    else (strcpy ftp_size first.0 >>= λ ftp. strcpy 256 second.0 >>= λ file_name.
        if ends_line second.1
        then (if str_eq ftp (codes "ftp")
            then (if length second.0 == 0
                then none
                else if exists file_name
                then some (sends (take ftp_size (ftp ++ 0 ∷ [])))
                else some file_missing)
            else some incorrect_format)
        else some incorrect_format)

-- Whether a transfer can start, by the reply and what stood in the buffer for it.
unfoldable pub accepts : Bytes → Bytes → Bool
accepts reply buffer = str_eq (c_str (overlay reply_size reply buffer)) (codes "yes")
