-- ===== src/Message/RoundTrip.antt =====
-- What is sent is what is received: the text form against its parser, for control messages and for
-- group texts.
use ece.Base.{
  ℕ, suc, ◌+◌, ◌-◌, ◌≡◌, refl, sym, ap, ◌≤◌, ◌<◌, ◌≢◌, [], ◌∷◌, ◌++◌, append_assoc, append-nil,
  none, some, arith, Bytes, All-append, NoNul, Lacks, length, length-append, c_str-NoNul,
  read_bytes, read_bytes_all, read_bytes-append, read_bytes-zeros, length-read_bytes, strcpy_fits,
  int_max,
}
use ece.Message.{
  header, fill_message, fill_data, message_to_string, string_to_message, receive_message, frame,
  data_size, data_bytes, max_name, max_data, maximum_buffer_size,
}
use ece.Message.Header.{length-header-le, header-NoNul, string_to_message-header}
use ece.Message.Kind

-- A source that the wire format can carry.
pub record IsName (source : Bytes) : Type 0 where
  pub no_nul : NoNul source
  pub no_colon : Lacks b':' source
  pub fits : length source < max_name

pub receive_message-append :
    (b : Bytes) (n : ℕ)
    → length b + n ≡ maximum_buffer_size
    → receive_message b ≡ b ++ read_bytes n []
unfolding receive_message
receive_message-append b n e = rw (sym e) (rw (append-nil b) at (read_bytes-append b n []))

module _ (type : ℕ) (source : Bytes) (ht : type ≤ int_max) (name : IsName source) where
  -- Parsing what was received gives the fields back, where `body` is followed by zeros only.
  pub received :
      (size : ℕ) (d : Bytes)
      → length d ≤ size
      → size ≤ max_data
      → string_to_message (receive_message (header type size source ++ d))
        ≡ some (record { type = type; size = size; source = source; body = read_bytes size d })
  received size d hd hs =
      let front = header type size source in
      let zeros = maximum_buffer_size - length (front ++ d) in
      let room : length (front ++ d) ≤ 39 + length d = omega (
        arith,
        length-append front d,
        length-header-le type size source ht (omega arith),
        name.fits,
      ) in
      rw (
        receive_message-append (front ++ d) zeros (omega arith),
        append_assoc front d (read_bytes zeros []),
        string_to_message-header type size source (d ++ read_bytes zeros []) ht hs
            (omega (arith, length-append d (read_bytes zeros []), length-read_bytes zeros []))
            name.no_nul name.no_colon name.fits,
        read_bytes-zeros size d zeros (omega arith),
      )

  pub frame-eq :
      (d : Bytes)
      → type ≢ Kind.message
      → NoNul d
      → length d < max_data
      → frame type source (some d) ≡ some (header type (length d) source ++ d)
  unfolding frame fill_message fill_data message_to_string data_size data_bytes
  frame-eq [] hm nul hd = rw (strcpy_fits max_name source name.fits) (
      rw
        (strcpy_fits maximum_buffer_size (header type 0 source)
          (omega (arith, length-header-le type 0 source ht (omega arith), name.fits)))
        (ap some (
          rw (append-nil (header type 0 source))
            (c_str-NoNul _ (header-NoNul type 0 source ht (omega arith) name.no_nul)))))
  frame-eq (c ∷ d) hm nul hd = ground (
    arith,
    c_str-NoNul (c ∷ d) nul,
    strcpy_fits max_data (c ∷ d) hd,
    strcpy_fits max_name source name.fits,
    length-header-le type (suc (length d)) source ht (omega arith),
    read_bytes_all (c ∷ d),
    name.fits,
    c_str-NoNul (header type (suc (length d)) source ++ c ∷ d) (
        All-append _ (header type (suc (length d)) source) (c ∷ d)
          (header-NoNul type (suc (length d)) source ht (omega arith) name.no_nul) nul),
  )

  -- A NULL pointer is sent as the empty text.
  pub frame-none-eq : frame type source none ≡ frame type source (some [])
  unfolding frame data_size data_bytes
  frame-none-eq = refl

  -- A message of a type other than MESSAGE, with a name of at most 16 bytes without NULs and
  -- colons and a text without NULs of fewer than MAX_DATA bytes, is framed without overflow, and
  -- the receiver's parser gives back its type, its length, its name and its text.
  pub string_to_message-frame :
      (d : Bytes)
      → type ≢ Kind.message
      → NoNul d
      → length d < max_data
      → (b : Bytes) × (frame type source (some d) ≡ some b)
        × (string_to_message (receive_message b)
            ≡ some (record { type = type; size = length d; source = source; body = d }))
  string_to_message-frame d hm nul hd = (
    header type (length d) source ++ d,
    frame-eq d hm nul hd,
    rw (read_bytes_all d) at (received (length d) d (omega arith) (omega arith)),
  )

-- A message without data is one with an empty text.
pub frame-none : (type : ℕ) (source : Bytes) → frame type source (some []) ≡ frame type source none
unfolding frame data_size data_bytes
frame-none type source = refl
