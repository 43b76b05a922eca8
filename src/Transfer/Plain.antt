-- ===== src/Transfer/Plain.antt =====
-- File_Transfer_Lab_Part_II/server/server.c: what the loop of `main` does with one datagram; nothing is
-- lost here. `none` is a write behind the end of an array. Its packets folder is that of Part III.
pub mod Refinement
pub mod Deliver
pub mod Link
use ece.Base.{
  ℕ, ◌+◌, ◌-◌, ◌%◌, Bool, true, false, List, [], ◌∷◌, ◌++◌, Option, none, some, Bytes, ltb,
  if◌then◌else◌, ◌>>=◌, c_str, codes, str_eq, print_int, u32_mod, overlay,
}
use ece.Transfer.Packet.{Packet, buffer_to_packet, sending_buffer_size}
use ece.Transfer.Disk.{Files, open_file, write_file}
use ece.Transfer.FileServer.{receive_buffer, goodbye_text}

-- Where the program waits, as in Part III; the loop over `i` keeps the bytes of `buffer`.
pub data PlainPhase : Type 0 where
  waiting : PlainPhase
  receiving : ℕ → Bytes → ℕ → Bytes → PlainPhase
  quit exited : PlainPhase

pub record PlainServer : Type 0 where
  pub total_frag : ℕ
  pub files : Files
  pub phase : PlainPhase

abbrev pub PlainStep : Type 0
PlainStep = Option (PlainServer × List Bytes)

-- The reply to a packet. It has at most 78 bytes, so that it fits `messages`.
unfoldable pub received_text : ℕ → ℕ → Bytes
received_text number total =
    (codes "Received "
      ++ (print_int number
          ++ (codes " packets out of "
              ++ (print_int total
                  ++ (codes ", waiting for "
                      ++ (print_int ((total + u32_mod - number) % u32_mod) ++ codes " more"))))))
    ++ 0 ∷ []

-- The head of the loop over `i`: another round, or the goodbye.
unfoldable pub next_packet : ℕ → Bytes → Bytes → ℕ → Bytes → List Bytes → PlainServer → PlainStep
next_packet i opened name position buffer replies s =
    if ltb i s.total_frag
    then some (record s { phase = receiving i opened position buffer }, replies)
    else (goodbye_text name >>= λ text. some (record s { phase = waiting }, replies ++ text ∷ []))

-- A round of the outer loop. Where the file cannot be opened, `write` fails and the program exits.
unfoldable pub first_packet : (Bytes → Bool) → Bytes → PlainServer → PlainStep
unfolding received_text next_packet
first_packet opens buffer s =
    if str_eq (c_str buffer) (codes "done\n")
    then some (record s { phase = quit }, [])
    else (buffer_to_packet buffer >>= λ p.
        if opens p.filename
        then next_packet 1 p.filename p.filename p.size buffer (received_text 1 p.total_frag ∷ [])
            (record s {
              total_frag = p.total_frag;
              files = write_file p.filename 0 p.filedata (open_file p.filename s.files);
            })
        else some (
          record s { total_frag = p.total_frag; phase = exited },
          received_text 1 p.total_frag ∷ [],
        ))

-- A round of the loop over `i`.
unfoldable pub later_packet : ℕ → Bytes → ℕ → Bytes → PlainServer → PlainStep
unfolding received_text next_packet
later_packet i opened position buffer s = buffer_to_packet buffer >>= λ p.
    next_packet (i + 1) opened p.filename (position + p.size) buffer
      (received_text (i + 1) s.total_frag ∷ [])
      (record s { files = write_file opened position p.filedata s.files })

-- The outer loop clears `buffer`; the loop over `i` receives on top of what stands in it.
unfoldable pub receive_packet : (Bytes → Bool) → Bytes → PlainServer → PlainStep
unfolding first_packet later_packet
receive_packet opens datagram s = elim s.phase [
  | waiting ↦ first_packet opens (receive_buffer datagram) s
  | receiving i opened position buffer ↦
      later_packet i opened position (overlay sending_buffer_size datagram buffer) s
  | quit ↦ some (s, [])
  | exited ↦ some (s, [])
]
