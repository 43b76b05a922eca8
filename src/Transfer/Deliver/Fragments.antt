-- ===== src/Transfer/Deliver/Fragments.antt =====
-- The datagrams of a file against its content.
use ece.Base.{
  false, ℕ, zero, suc, ◌+◌, ◌≡◌, refl, ◌∙◌, ap, sym, ◌≤◌, ◌<◌, List, [], ◌∷◌, ◌++◌, map, some,
  arith, Bytes, NoNul, Lacks, ◌==◌, length, length-append, take, drop, take-append-drop,
  length-take-le, length-drop, take_pos, ==_ne, read_bytes_all, int_max,
}
use ece.Transfer.Packet.{
  Packet, IsPacket, file_frag_size, write_packets, packet_header, convert_to_string-eq,
  length-packet_header-le,
}
use ece.Transfer.Deliver.{fragment_count, fragments, file_datagrams}

-- A name that the header can carry and that leaves the goodbye within what `deliver` receives.
pub record IsFileName (name : Bytes) : Type 0 where
  pub no_nul : NoNul name
  pub no_colon : Lacks b':' name
  pub fits : length name ≤ 227

-- The bytes of a packet.
abbrev pub datagram : Packet → Bytes
datagram p = packet_header p p.filename ++ p.filedata

-- The packet of a round whose `read` gives `chunk`.
abbrev pub packet : ℕ → ℕ → Bytes → Bytes → Packet
packet total i name chunk = record {
  total_frag = total;
  frag_no = i + 1;
  size = length chunk;
  filename = name;
  filedata = chunk;
}

pub length-datagram-le :
    (p : Packet) → IsPacket p → length (datagram p) ≤ 34 + length p.filename + file_frag_size
length-datagram-le p h = omega (
  arith,
  length-append (packet_header p p.filename) p.filedata,
  length-packet_header-le p h,
  h.data_size,
  h.size_fits,
)

-- The content cut into pieces of 1000 bytes, the last of which may be shorter.
unfoldable pub chunks : ℕ → Bytes → List Bytes
chunks zero content = []
chunks (suc rounds) content =
    take file_frag_size content ∷ chunks rounds (drop file_frag_size content)

unfoldable pub packets : ℕ → ℕ → Bytes → List Bytes → List Packet
packets total i name [] = []
packets total i name (chunk ∷ more) = packet total i name chunk ∷ packets total (i + 1) name more

-- The pieces of a file in `rounds` rounds, each with something in it.
abbrev pub Fills : ℕ → Bytes → Type 0
Fills zero content = content ≡ []
Fills (suc rounds) content = (0 < length content) × Fills rounds (drop file_frag_size content)

pub fragment_count-Fills :
    (rounds : ℕ) (content : Bytes) → fragment_count (length content) ≡ rounds → Fills rounds content
unfolding fragment_count
fragment_count-Fills zero [] h = refl
fragment_count-Fills zero (c ∷ content) h = absurd (omega arith)
fragment_count-Fills (suc rounds) content h = (
  omega arith,
  fragment_count-Fills rounds (drop file_frag_size content)
      (omega (arith, length-drop file_frag_size content)),
)

unfoldable pub flat : List Bytes → Bytes
flat [] = []
flat (d ∷ ds) = d ++ flat ds

pub flat-chunks :
    (rounds : ℕ) (content : Bytes) → Fills rounds content → flat (chunks rounds content) ≡ content
unfolding flat chunks
flat-chunks zero content h = sym h
flat-chunks (suc rounds) content h =
    ap (λ r. take file_frag_size content ++ r)
      (flat-chunks rounds (drop file_frag_size content) h.1)
    ∙ take-append-drop file_frag_size content

module _ (total : ℕ) (name : Bytes) (n : IsFileName name) (small : total ≤ int_max) where
  pub packet-IsPacket :
      (i : ℕ) (chunk : Bytes)
      → i < total
      → length chunk ≤ file_frag_size
      → IsPacket (packet total i name chunk)
  packet-IsPacket i chunk hi hc = record {
    total_fits = small;
    number_fits = omega arith;
    size_fits = hc;
    data_size = refl;
    no_nul = n.no_nul;
    no_colon = n.no_colon;
    name_fits = omega (arith, n.fits);
  }

  write_packets-packet :
      (i : ℕ) (chunk : Bytes)
      → length chunk ≤ file_frag_size
      → write_packets total (i + 1) (length chunk) name chunk ≡ some (packet total i name chunk)
  unfolding write_packets
  write_packets-packet i chunk h = ground (arith, read_bytes_all chunk)

  fragments-packets :
      (rounds i : ℕ) (content : Bytes)
      → i + rounds ≡ total
      → Fills rounds content
      → fragments rounds i total name content
        ≡ some (map datagram (packets total i name (chunks rounds content)))
  unfolding fragments packets chunks
  fragments-packets zero i content e f = refl
  fragments-packets (suc rounds) i content e f =
      let chunk = take file_frag_size content in
      let short = length-take-le file_frag_size content in
      let full : (length chunk == 0) ≡ false =
        ==_ne (length chunk) 0 (omega (arith, take_pos file_frag_size content (omega arith) f.0)) in
      rw
        (
          full,
          write_packets-packet i chunk short,
          convert_to_string-eq (packet total i name chunk)
              (packet-IsPacket i chunk (omega arith) short),
          fragments-packets rounds (i + 1) (drop file_frag_size content) (omega arith) f.1,
        )
        refl

  -- All datagrams of a file.
  pub file_datagrams-packets :
      (content : Bytes)
      → fragment_count (length content) ≡ total
      → file_datagrams name content
        ≡ some (map datagram (packets total 0 name (chunks total content)))
  unfolding file_datagrams
  file_datagrams-packets content e =
      rw e (fragments-packets total 0 content (omega arith) (fragment_count-Fills total content e))
