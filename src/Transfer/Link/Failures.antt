-- ===== src/Transfer/Link/Failures.antt =====
-- Part III: where a transfer goes wrong.
use ece.Base.{
  ℕ, zero, suc, ◌≡◌, refl, ◌∙◌, ◌<◌, ◌≢◌, List, [], ◌∷◌, ◌++◌, none, some, Bool, true, false, arith,
  Bytes, Lacks, lt→ltb, length, codes, c_str, str_eq, str_eq_iff, read_bytes, take_field_missing,
}
use ece.Transfer.Packet.{Packet, IsPacket, buffer_to_packet}
use ece.Transfer.Disk.{Files, put, found, over, put-get}
use ece.Transfer.FileServer.{
  FileServer, waiting, receiving, ack_text, next_round, first_fragment, receive_datagram,
  receive_buffer,
}
use ece.Transfer.FileServer.Laws.{
  goodbye, goodbye_text-goodbye, receive_datagram_first, receive_datagram_later,
}
use ece.Transfer.Deliver.{parting, fragment_count}
use ece.Transfer.Deliver.Fragments.{IsFileName, datagram}
use ece.Transfer.Link.{Link, run, exchange, start_transfer}

module _ (opens : Bytes → Bool) (p : Packet) (h : IsPacket p) (n : IsFileName p.filename)
    (total : ℕ) (files : Files) where
  abbrev idle : FileServer
  idle = record { total_frag = total; files = files; phase = waiting }

  -- The first of two fragments, valid and under a name of at most 227 bytes that the server can
  -- open, arrives at an idle server twice and neither is lost: the second is taken for the other
  -- fragment, is acknowledged and followed by the goodbye, and the file begins with the same data
  -- twice.
  pub duplicate_written :
      (draw again : ℕ)
      → opens p.filename ≡ true
      → p.total_frag ≡ 2
      → 5 < draw
      → 5 < again
      → (s t : FileServer) × (receive_datagram opens draw (datagram p) idle
          ≡ some (s, ack_text total 1 ∷ []))
        × (receive_datagram opens again (datagram p) s
            ≡ some (t, ack_text 2 2 ∷ goodbye p.filename ∷ []))
        × (t.phase ≡ waiting)
        × (t.files p.filename ≡ some (over (p.filedata ++ p.filedata) (found (files p.filename))))
  unfolding next_round
  duplicate_written draw again o two d a =
      let old = found (files p.filename) in
      (
        record {
          total_frag = 2;
          files = put p.filename (over p.filedata old) files;
          phase = receiving 1 p.filename (length p.filedata);
        },
        record {
          total_frag = 2;
          files = put p.filename (over (p.filedata ++ p.filedata) old) files;
          phase = waiting;
        },
        receive_datagram_first p h n opens draw d total files o ∙ rw (two, h.data_size) refl,
        receive_datagram_later p h n opens again a 2 1 p.filedata old files
            ∙ rw (goodbye_text-goodbye p.filename n) refl,
        refl,
        put-get p.filename (over (p.filedata ++ p.filedata) old) files,
      )

read_bytes-Lacks : (k : ℕ) (s : Bytes) → Lacks b':' s → Lacks b':' (read_bytes k s)
unfolding read_bytes
read_bytes-Lacks zero s h = tt
read_bytes-Lacks (suc k) [] h = (omega arith, read_bytes-Lacks k [] tt)
read_bytes-Lacks (suc k) (c ∷ s) h = (h.0, read_bytes-Lacks k s h.1)

module _ (opens : Bytes → Bool) (total : ℕ) (files : Files) where
  abbrev idle_server : FileServer
  idle_server = record { total_frag = total; files = files; phase = waiting }

  -- A datagram without a colon that is not the command to end, and that an idle server does not
  -- lose, makes the parser run behind the end of an array.
  pub datagram_malformed :
      (draw : ℕ) (text : Bytes)
      → 5 < draw
      → Lacks b':' text
      → c_str (receive_buffer text) ≢ codes "done\n"
      → receive_datagram opens draw text idle_server ≡ none
  unfolding receive_datagram first_fragment receive_buffer buffer_to_packet
  datagram_malformed draw text d l other =
      let differs : str_eq (c_str (receive_buffer text)) (codes "done\n") ≡ false =
        ground (arith, str_eq_iff (c_str (receive_buffer text)) (codes "done\n")) in
      rw
        (
          lt→ltb 5 draw d,
          differs,
          take_field_missing 12 (receive_buffer text) (read_bytes-Lacks 2000 text l),
        )
        refl

  parting_stays :
      (draws : List ℕ) (server : FileServer)
      → run opens draws (record { sender = parting; inbox = []; server = server })
        ≡ some (record { sender = parting; inbox = []; server = server })
  unfolding run exchange
  parting_stays [] server = refl
  parting_stays (draw ∷ draws) server = parting_stays draws server

  -- An empty file has no fragments: the sender goes to the wait for the goodbye at once, and
  -- however many rounds follow, it stays there.
  pub empty_file_waits :
      (name : Bytes) (draws : List ℕ)
      → (link : Link) × (start_transfer name [] idle_server ≡ some link)
        × (run opens draws link ≡ some link)
        × (link.sender ≡ parting)
  unfolding start_transfer fragment_count
  empty_file_waits name draws = (_, refl, parting_stays draws idle_server, refl)
