-- ===== src/Transfer/Tests.antt =====
-- A fragment and an acknowledgement.
pub mod Timer
pub mod Link
pub mod Plain
pub mod Handshake
use ece.Base.{◌≡◌, refl, ◌++◌, [], ◌∷◌, some, arith, Bytes, codes}
use ece.Transfer.Packet.{
  Packet, IsPacket, convert_to_string, buffer_to_packet, buffer_to_packet-convert_to_string,
}
use ece.Transfer.Ack.{AckPacket, ack_to_buffer, buffer_to_ack, buffer_to_ack-ack_to_buffer}

abbrev fragment : Packet
fragment = record {
  total_frag = 3;
  frag_no = 2;
  size = 4;
  filename = codes "a.txt";
  filedata = 0 ∷ 58 ∷ 10 ∷ 255 ∷ [];
}

fragment-IsPacket : IsPacket fragment
fragment-IsPacket = record {
  total_fits = omega arith;
  number_fits = omega arith;
  size_fits = omega arith;
  data_size = refl;
  no_nul = ground arith;
  no_colon = ground arith;
  name_fits = omega arith;
}

packet_example :
    (b : Bytes) × (convert_to_string fragment fragment.filename ≡ some b)
    × (buffer_to_packet (b ++ codes "tail") ≡ some fragment)
packet_example = buffer_to_packet-convert_to_string fragment fragment-IsPacket (codes "tail")

abbrev reply : AckPacket
reply = record { total_fragment = 3; fragment_no = 2; received = 1 }

ack_example :
    buffer_to_ack (ack_to_buffer reply ++ (0 ∷ [])) (codes "9") (codes "9") (codes "0") ≡ some reply
ack_example =
    buffer_to_ack-ack_to_buffer reply (0 ∷ []) (codes "9") (codes "9") (codes "0") (omega arith)
      (omega arith) (omega arith)
