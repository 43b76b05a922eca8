-- ===== src/Transfer/Plain/Link/Complete.antt =====
-- Every exchange of a transfer of Part II.
use ece.Base.{
  ℕ, suc, ◌+◌, ◌≡◌, refl, ◌∙◌, ap, sym, ◌≤◌, ◌<◌, List, [], ◌∷◌, ◌++◌, append_assoc, append-nil,
  map, some, Bool, true, false, arith, Bytes, take, length, length-append, ltb, lt→ltb, int_max,
  str_eq, c_str, overlay,
}
use ece.Transfer.Packet.{file_frag_size}
use ece.Transfer.Disk.{Files, put, found, over, write_file-over, write_file-open_file}
use ece.Transfer.FileServer.Laws.{goodbye, goodbye_text-goodbye, goodbye-short, not_done, parsed}
use ece.Transfer.Deliver.Fragments.{IsFileName, datagram, packet, packets, flat, packet-IsPacket}
use ece.Transfer.Plain.{
  PlainServer, waiting, receiving, receive_packet, first_packet, later_packet, next_packet,
}
use ece.Transfer.Plain.Deliver.{sending, finished, receive_reply, next_datagram}
use ece.Transfer.Plain.Link.{PlainLink, exchange_packet, exchanges, read_reply}
use ece.Transfer.Plain.Refinement.{parsed_over}
use ece.Transfer.Link.Complete.{Small}

module _ (opens : Bytes → Bool) (name : Bytes) (n : IsFileName name) (total : ℕ)
    (small : total ≤ int_max) (old : Bytes) (files : Files) where
  abbrev pub end : Bytes → PlainServer
  end written = record {
    total_frag = total;
    files = put name (over written old) files;
    phase = waiting;
  }

  abbrev pub closed : Bytes → PlainLink
  closed written = record { sender = finished (goodbye name); inbox = []; server = end written }

  -- Behind the `i` pieces that bring the file to `written`, before the piece `c`.
  abbrev pub middle : ℕ → Bytes → Bytes → Bytes → List Bytes → PlainLink
  middle i buffer written c cs = record {
    sender =
        sending (datagram (packet total i name c)) (map datagram (packets total (i + 1) name cs));
    inbox = [];
    server = record {
      total_frag = total;
      files = put name (over written old) files;
      phase = receiving i name (length written) buffer;
    };
  }

  received_goodbye :
      (written : Bytes)
      → some
          (record { sender = finished (take 255 (goodbye name)); inbox = []; server = end written })
        ≡ some (closed written)
  received_goodbye written =
      ap (λ w. some (record { sender = finished w; inbox = []; server = end written }))
        (goodbye-short name n)

  later :
      (i : ℕ) (buffer written c c' : Bytes) (cs : List Bytes)
      → i + 1 < total
      → length c ≤ file_frag_size
      → exchange_packet opens (middle i buffer written c (c' ∷ cs))
        ≡ some (
            middle
              (i + 1)
              (overlay 2000 (datagram (packet total i name c)) buffer)
              (written ++ c)
              c'
              cs)
  unfolding exchange_packet receive_packet later_packet next_packet packets read_reply receive_reply
      next_datagram str_eq c_str
  later i buffer written c c' cs lt hc =
      rw
        (
          parsed_over (packet total i name c)
              (packet-IsPacket total name n small i c (omega arith) hc) n buffer,
          lt→ltb (i + 1) total lt,
          write_file-over name written c old files,
          length-append written c,
        )
        refl

  past_end : (i : ℕ) → i + 1 ≡ total → ltb (i + 1) total ≡ false
  past_end i e = ground arith

  last :
      (i : ℕ) (buffer written c : Bytes)
      → i + 1 ≡ total
      → length c ≤ file_frag_size
      → exchange_packet opens (middle i buffer written c []) ≡ some (closed (written ++ c))
  unfolding exchange_packet receive_packet later_packet next_packet packets read_reply receive_reply
      next_datagram str_eq c_str
  last i buffer written c e hc =
      rw
        (
          parsed_over (packet total i name c)
              (packet-IsPacket total name n small i c (omega arith) hc) n buffer,
          past_end i e,
          write_file-over name written c old files,
          goodbye_text-goodbye name n,
        )
        (received_goodbye (written ++ c))

  middle_finishes :
      (i : ℕ) (buffer written c : Bytes) (cs : List Bytes)
      → i + 1 + length cs ≡ total
      → length c ≤ file_frag_size
      → Small cs
      → exchanges opens (suc (length cs)) (middle i buffer written c cs)
        ≡ some (closed (written ++ (c ++ flat cs)))
  unfolding exchanges flat
  middle_finishes i buffer written c [] e hc hs =
      rw (last i buffer written c (omega arith) hc, append-nil c) refl
  middle_finishes i buffer written c (c' ∷ cs) e hc hs =
      rw (later i buffer written c c' cs (omega arith) hc) (
        middle_finishes (i + 1) _ (written ++ c) c' cs (omega arith) hs.0 hs.1
        ∙ ap (λ w. some (closed w)) (append_assoc written c (c' ++ flat cs)))

  module _ (before : ℕ) (fresh : old ≡ found (files name)) (o : opens name ≡ true) where
    abbrev pub start : Bytes → List Bytes → PlainLink
    start c cs = record {
      sender = sending (datagram (packet total 0 name c)) (map datagram (packets total 1 name cs));
      inbox = [];
      server = record { total_frag = before; files = files; phase = waiting };
    }

    pub start_finishes :
        (c : Bytes) (cs : List Bytes)
        → suc (length cs) ≡ total
        → length c ≤ file_frag_size
        → Small cs
        → exchanges opens (suc (length cs)) (start c cs) ≡ some (closed (c ++ flat cs))
    unfolding exchanges exchange_packet receive_packet first_packet next_packet packets read_reply
        receive_reply next_datagram str_eq c_str flat
    start_finishes c [] e hc hs =
        rw
          (
            not_done (packet total 0 name c)
                (packet-IsPacket total name n small 0 c (omega arith) hc) n,
            parsed (packet total 0 name c) (packet-IsPacket total name n small 0 c (omega arith) hc)
                n,
            o,
            past_end 0 (omega arith),
            write_file-open_file name c files,
            sym fresh,
            goodbye_text-goodbye name n,
            append-nil c,
          )
          (received_goodbye c)
    start_finishes c (c' ∷ cs) e hc hs =
        rw
          (
            not_done (packet total 0 name c)
                (packet-IsPacket total name n small 0 c (omega arith) hc) n,
            parsed (packet total 0 name c) (packet-IsPacket total name n small 0 c (omega arith) hc)
                n,
            o,
            lt→ltb 1 total (omega arith),
            write_file-open_file name c files,
            sym fresh,
          )
          (middle_finishes 1 _ c c' cs (omega arith) hs.0 hs.1)
