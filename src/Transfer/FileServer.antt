-- ===== src/Transfer/FileServer.antt =====
-- File_Transfer_Lab_Part_III/server/server.c: what the loop of `main` does with one datagram and one
-- draw of `rand() % 100 + 1`. `none` is a write behind the end of an array. What goes to the terminal
-- is left out.
pub mod Laws
use ece.Base.{
  ℕ, ◌+◌, Bool, true, false, List, [], ◌∷◌, ◌++◌, Option, none, some, Bytes, ltb, if◌then◌else◌,
  ◌>>=◌, length, c_str, codes, read_bytes, str_eq, strcpy,
}
use ece.Transfer.Packet.{Packet, buffer_to_packet, sending_buffer_size}
use ece.Transfer.Ack.{fill_the_ack, ack_to_buffer, recevd}
use ece.Transfer.Disk.{Files, open_file, write_file}

-- Where the program waits: at the first `recvfrom`, or at the one of the loop over `i`, with the name
-- under which the file was opened and the position of its descriptor; or it has left `main`.
pub data Phase : Type 0 where
  waiting : Phase
  receiving : ℕ → Bytes → ℕ → Phase
  quit exited : Phase

-- The global `total_frag`, the files, and the phase.
pub record FileServer : Type 0 where
  pub total_frag : ℕ
  pub files : Files
  pub phase : Phase

-- The new state, and the texts that went to `sendto`, in their order.
abbrev pub Step : Type 0
Step = Option (FileServer × List Bytes)

-- A datagram in the zeroed `buffer`, which holds 2000 bytes.
unfoldable pub receive_buffer : Bytes → Bytes
receive_buffer datagram = read_bytes sending_buffer_size datagram

-- The `strlen + 1` bytes of an acknowledgement.
unfoldable pub ack_text : ℕ → ℕ → Bytes
ack_text total number = ack_to_buffer (fill_the_ack total number recevd) ++ 0 ∷ []

abbrev pub end_of_file_size : ℕ
end_of_file_size = 256

-- The text of the goodbye, which has to fit `end_of_file`.
unfoldable pub goodbye_text : Bytes → Option Bytes
goodbye_text name =
    strcpy end_of_file_size (codes "End of File Transfer for " ++ (name ++ codes ".\n")) >>= λ text.
    some (text ++ 0 ∷ [])

-- The head of the loop over `i`: another round, or the goodbye.
unfoldable pub next_round : ℕ → Bytes → Bytes → ℕ → List Bytes → FileServer → Step
unfolding goodbye_text
next_round i opened name position replies s =
    if ltb i s.total_frag
    then some (record s { phase = receiving i opened position }, replies)
    else (goodbye_text name >>= λ text. some (record s { phase = waiting }, replies ++ text ∷ []))

-- The rest of a round of the outer loop, behind the acknowledgement; `opens` says of a name whether
-- `open` succeeds. Where it does not, `write` fails on the descriptor -1, and the program exits.
unfoldable pub first_fragment : (Bytes → Bool) → Bytes → List Bytes → FileServer → Step
unfolding next_round
first_fragment opens buffer replies s =
    if str_eq (c_str buffer) (codes "done\n")
    then some (record s { phase = quit }, replies)
    else (buffer_to_packet buffer >>= λ p.
        if opens p.filename
        then next_round 1 p.filename p.filename p.size replies (record s {
          total_frag = p.total_frag;
          files = write_file p.filename 0 p.filedata (open_file p.filename s.files);
        })
        else some (record s { total_frag = p.total_frag; phase = exited }, replies))

-- A round of the loop over `i`. The name of the goodbye is that of the last packet.
unfoldable pub later_fragment : ℕ → Bytes → ℕ → Bytes → List Bytes → FileServer → Step
unfolding next_round
later_fragment i opened position buffer replies s = buffer_to_packet buffer >>= λ p.
    next_round (i + 1) opened p.filename (position + p.size) replies
      (record s { files = write_file opened position p.filedata s.files })

-- A draw of at most 5 stands for a loss: the datagram is thrown away.
unfoldable pub receive_datagram : (Bytes → Bool) → ℕ → Bytes → FileServer → Step
unfolding receive_buffer ack_text first_fragment later_fragment
receive_datagram opens draw datagram s =
    let buffer = receive_buffer datagram in
    if ltb 5 draw
    then elim s.phase [
      | waiting ↦ first_fragment opens buffer (ack_text s.total_frag 1 ∷ []) s
      | receiving i opened position ↦
          later_fragment i opened position buffer (ack_text s.total_frag (i + 1) ∷ []) s
      | quit ↦ some (s, [])
      | exited ↦ some (s, [])
    ]
    else some (s, [])
