-- ===== src/Transfer/Packet.antt =====
-- packets/packet.c of Part II and Part III, which are the same file.
use ece.Base.{
  ℕ, ◌+◌, ◌≡◌, ◌≤◌, ◌<◌, ◌&&◌, [], ◌∷◌, ◌++◌, append_assoc, Option, none, some, arith, Bytes, NoNul,
  Lacks, ltb, leb, if◌then◌else◌, ◌>>=◌, length, c_str, c_str-NoNul, read_bytes, print_int, atoi,
  take_field, take_field-append, atoi-print_int, print_int-IsDigit, length-print_int-le, IsDigit-ne,
  int_max, inl, inr, length-append, read_bytes_all, read_bytes_front,
}

abbrev pub file_frag_size : ℕ
file_frag_size = 1000

abbrev pub sending_buffer_size : ℕ
sending_buffer_size = 2000

-- The length of the array that both programs give for a file name.
abbrev pub name_length : ℕ
name_length = 256

-- `struct packet`
pub record Packet : Type 0 where
  pub total_frag : ℕ
  pub frag_no : ℕ
  pub size : ℕ
  pub filename : Bytes
  pub filedata : Bytes

-- `memcpy` of `frag_size` bytes into `filedata`.
unfoldable pub write_packets : ℕ → ℕ → ℕ → Bytes → Bytes → Option Packet
write_packets total_frag frag_number frag_size file_name d =
    if leb frag_size file_frag_size
    then some (record {
      total_frag = total_frag;
      frag_no = frag_number;
      size = frag_size;
      filename = file_name;
      filedata = read_bytes frag_size d;
    })
    else none

unfoldable pub packet_header : Packet → Bytes → Bytes
packet_header p filename =
    print_int p.total_frag
    ++ b':' ∷ (print_int p.frag_no ++ b':' ∷ (print_int p.size ++ b':' ∷ (filename ++ b':' ∷ [])))

-- The `bound` bytes that are written to the buffer of `sending_buffer_size` bytes.
unfoldable pub convert_to_string : Packet → Bytes → Option Bytes
convert_to_string p filename =
    let front = packet_header p filename in
    if ltb (length front) sending_buffer_size
      && leb (length front + p.size) sending_buffer_size
      && leb p.size file_frag_size
    then some (front ++ read_bytes p.size p.filedata)
    else none

unfoldable pub buffer_to_packet : Bytes → Option Packet
buffer_to_packet buffer = do
  first ← take_field 12 buffer
  total_frag ← atoi (c_str first.0)
  second ← take_field 12 first.1
  frag_no ← atoi (c_str second.0)
  third ← take_field 12 second.1
  size ← atoi (c_str third.0)
  name ← take_field name_length third.1
  if leb size file_frag_size && leb size (length name.1)
      then some (record {
        total_frag = total_frag;
        frag_no = frag_no;
        size = size;
        filename = c_str name.0;
        filedata = read_bytes size name.1;
      })
      else none

-- A packet that `write_packets` can make, with a file name that the header can carry.
pub record IsPacket (p : Packet) : Type 0 where
  pub total_fits : p.total_frag ≤ int_max
  pub number_fits : p.frag_no ≤ int_max
  pub size_fits : p.size ≤ file_frag_size
  pub data_size : length p.filedata ≡ p.size
  pub no_nul : NoNul p.filename
  pub no_colon : Lacks b':' p.filename
  pub name_fits : length p.filename < name_length

NoNul-print_int : (n : ℕ) → n ≤ int_max → NoNul (print_int n)
NoNul-print_int n h = IsDigit-ne 0 (print_int n) (inl (omega arith)) (print_int-IsDigit n h)

Lacks-print_int : (n : ℕ) → n ≤ int_max → Lacks b':' (print_int n)
Lacks-print_int n h = IsDigit-ne b':' (print_int n) (inr (omega arith)) (print_int-IsDigit n h)

module _ (p : Packet) (h : IsPacket p) where
  pub length-packet_header-le : length (packet_header p p.filename) ≤ 34 + length p.filename
  unfolding packet_header
  length-packet_header-le = omega (
    arith,
    length-append (print_int p.total_frag) (
        b':'
        ∷ (print_int p.frag_no ++ b':' ∷ (print_int p.size ++ b':' ∷ (p.filename ++ b':' ∷ [])))),
    length-append (print_int p.frag_no)
        (b':' ∷ (print_int p.size ++ b':' ∷ (p.filename ++ b':' ∷ []))),
    length-append (print_int p.size) (b':' ∷ (p.filename ++ b':' ∷ [])),
    length-append p.filename (b':' ∷ []),
    length-print_int-le p.total_frag h.total_fits,
    length-print_int-le p.frag_no h.number_fits,
    length-print_int-le p.size (omega (arith, h.size_fits)),
  )

  pub convert_to_string-eq :
      convert_to_string p p.filename ≡ some (packet_header p p.filename ++ p.filedata)
  unfolding convert_to_string
  convert_to_string-eq = ground (
    arith,
    length-packet_header-le,
    h.name_fits,
    h.size_fits,
    h.data_size,
    read_bytes_all p.filedata,
  )

  pub packet_header-append :
      (rest : Bytes)
      → packet_header p p.filename ++ rest
        ≡ print_int p.total_frag
          ++ b':'
            ∷ (print_int p.frag_no
                ++ b':' ∷ (print_int p.size ++ b':' ∷ (p.filename ++ b':' ∷ rest)))
  unfolding packet_header
  packet_header-append rest = simp append_assoc

  pub buffer_to_packet-eq :
      (rest : Bytes)
      → buffer_to_packet ((packet_header p p.filename ++ p.filedata) ++ rest) ≡ some p
  unfolding buffer_to_packet
  buffer_to_packet-eq rest =
      rw
        (
          append_assoc (packet_header p p.filename) p.filedata rest,
          packet_header-append (p.filedata ++ rest),
          take_field-append 12 (print_int p.total_frag) _
              (Lacks-print_int p.total_frag h.total_fits)
              (omega (arith, length-print_int-le p.total_frag h.total_fits)),
          c_str-NoNul (print_int p.total_frag) (NoNul-print_int p.total_frag h.total_fits),
          atoi-print_int p.total_frag h.total_fits,
          take_field-append 12 (print_int p.frag_no)
              (print_int p.size ++ b':' ∷ (p.filename ++ b':' ∷ (p.filedata ++ rest)))
              (Lacks-print_int p.frag_no h.number_fits)
              (omega (arith, length-print_int-le p.frag_no h.number_fits)),
          c_str-NoNul (print_int p.frag_no) (NoNul-print_int p.frag_no h.number_fits),
          atoi-print_int p.frag_no h.number_fits,
          take_field-append 12 (print_int p.size) (p.filename ++ b':' ∷ (p.filedata ++ rest))
              (Lacks-print_int p.size size_fits')
              (omega (arith, length-print_int-le p.size size_fits')),
          c_str-NoNul (print_int p.size) (NoNul-print_int p.size size_fits'),
          atoi-print_int p.size size_fits',
          take_field-append name_length p.filename (p.filedata ++ rest) h.no_colon h.name_fits,
          c_str-NoNul p.filename h.no_nul,
        )
        (ground (
          arith,
          h.size_fits,
          h.data_size,
          length-append p.filedata rest,
          read_bytes_front p.filedata rest,
        ))
    where
      size_fits' : p.size ≤ int_max
      size_fits' = omega (arith, h.size_fits)

  -- A packet with numbers within int, at most 1000 bytes of data, of which its size is the number,
  -- and a name without NULs and colons that fits its array, is written without overflow, and read
  -- back whatever follows it in the buffer.
  pub buffer_to_packet-convert_to_string :
      (rest : Bytes)
      → (b : Bytes) × (convert_to_string p p.filename ≡ some b)
        × (buffer_to_packet (b ++ rest) ≡ some p)
  buffer_to_packet-convert_to_string rest =
      (packet_header p p.filename ++ p.filedata, convert_to_string-eq, buffer_to_packet-eq rest)
