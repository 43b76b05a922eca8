-- ===== src/Transfer/FileServer/Laws.antt =====
-- What the server does with a fragment that it does not lose.
use ece.Base.{
  ℕ, ◌+◌, ◌-◌, ◌≡◌, refl, sym, ◌<◌, [], ◌∷◌, ◌++◌, append_assoc, append-nil, some, Bool, true,
  false, arith, Bytes, All, IsDigit, lt→ltb, length, length-append, c_str, codes, str_eq,
  strcpy_fits, read_bytes, read_bytes-append, take, take_all, print_int, print_int-IsDigit,
}
use ece.Transfer.Packet.{
  Packet, IsPacket, sending_buffer_size, packet_header, buffer_to_packet, buffer_to_packet-eq,
  packet_header-append,
}
use ece.Transfer.Disk.{Files, put, found, over, write_file-over, write_file-open_file}
use ece.Transfer.Deliver.Fragments.{IsFileName, datagram, length-datagram-le}
use ece.Transfer.FileServer.{
  waiting, receiving, receive_buffer, ack_text, goodbye_text, next_round, first_fragment,
  later_fragment, receive_datagram,
}

-- The bytes of the goodbye.
abbrev pub goodbye : Bytes → Bytes
goodbye name = (codes "End of File Transfer for " ++ (name ++ codes ".\n")) ++ 0 ∷ []

pub goodbye_text-goodbye :
    (name : Bytes) → IsFileName name → goodbye_text name ≡ some (goodbye name)
unfolding goodbye_text
goodbye_text-goodbye name n =
    rw
      (strcpy_fits 256 (codes "End of File Transfer for " ++ (name ++ codes ".\n"))
        (omega (arith, length-append name (codes ".\n"), n.fits)))
      refl

-- A text that starts with digits and a colon is not the command that ends the server.
digits_differ :
    (s rest : Bytes) → All IsDigit s → str_eq (c_str (s ++ b':' ∷ rest)) (codes "done\n") ≡ false
unfolding str_eq c_str
digits_differ [] rest h = refl
digits_differ (c ∷ s) rest h = ground arith

module _ (p : Packet) (h : IsPacket p) (n : IsFileName p.filename) where
  -- What stands behind the datagram in the buffer.
  abbrev zeros : Bytes
  zeros = read_bytes (sending_buffer_size - length (datagram p)) []

  receive_buffer-append :
      (k : ℕ)
      → length (datagram p) + k ≡ sending_buffer_size
      → receive_buffer (datagram p) ≡ datagram p ++ read_bytes k []
  unfolding receive_buffer
  receive_buffer-append k e =
      rw (sym e) (rw (append-nil (datagram p)) at (read_bytes-append (datagram p) k []))

  receive_buffer-datagram : receive_buffer (datagram p) ≡ datagram p ++ zeros
  receive_buffer-datagram =
      receive_buffer-append (sending_buffer_size - length (datagram p))
        (omega (arith, length-datagram-le p h, n.fits))

  pub parsed : buffer_to_packet (receive_buffer (datagram p)) ≡ some p
  parsed = rw receive_buffer-datagram (buffer_to_packet-eq p h zeros)

  pub not_done : str_eq (c_str (receive_buffer (datagram p))) (codes "done\n") ≡ false
  not_done =
      rw
        (
          receive_buffer-datagram,
          append_assoc (packet_header p p.filename) p.filedata zeros,
          packet_header-append p h (p.filedata ++ zeros),
        )
        (digits_differ (print_int p.total_frag) _ (print_int-IsDigit p.total_frag h.total_fits))

  module _ (opens : Bytes → Bool) (draw : ℕ) (kept : 5 < draw) (total : ℕ) where
    -- The first fragment of a file.
    pub receive_datagram_first :
        (files : Files)
        → opens p.filename ≡ true
        → receive_datagram opens draw
            (datagram p)
            (record { total_frag = total; files = files; phase = waiting })
          ≡ next_round 1 p.filename p.filename p.size (ack_text total 1 ∷ []) (record {
            total_frag = p.total_frag;
            files = put p.filename (over p.filedata (found (files p.filename))) files;
            phase = waiting;
          })
    unfolding receive_datagram first_fragment
    receive_datagram_first files o =
        rw
          (
            lt→ltb 5 draw kept,
            not_done,
            parsed,
            o,
            write_file-open_file p.filename p.filedata files,
          )
          refl

    -- A later one, where the file is open under its name.
    pub receive_datagram_later :
        (i : ℕ) (written old : Bytes) (files : Files)
        → receive_datagram opens draw (datagram p) (record {
          total_frag = total;
          files = put p.filename (over written old) files;
          phase = receiving i p.filename (length written);
        })
          ≡ next_round
              (i + 1)
              p.filename
              p.filename
              (length written + p.size)
              (ack_text total (i + 1) ∷ [])
              (record {
                total_frag = total;
                files = put p.filename (over (written ++ p.filedata) old) files;
                phase = receiving i p.filename (length written);
              })
    unfolding receive_datagram later_fragment
    receive_datagram_later i written old files =
        rw (lt→ltb 5 draw kept, parsed, write_file-over p.filename written p.filedata old files)
          refl

pub goodbye-short : (name : Bytes) → IsFileName name → take 255 (goodbye name) ≡ goodbye name
goodbye-short name n = take_all 255 (goodbye name) (
    omega (
      arith,
      length-append (codes "End of File Transfer for " ++ (name ++ codes ".\n")) (0 ∷ []),
      length-append name (codes ".\n"),
      n.fits,
    ))
