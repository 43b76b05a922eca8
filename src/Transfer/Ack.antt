-- ===== src/Transfer/Ack.antt =====
-- File_Transfer_Lab_Part_III/packets/ack.c.
use ece.Base.{
  ℕ, ◌≡◌, refl, ◌≤◌, [], ◌∷◌, ◌++◌, Option, some, arith, Bytes, ◌>>=◌, c_str, print_int, atoi,
  take_field, take_field-append, atoi-print_int-append, print_int-IsDigit, length-print_int-le,
  IsDigit-ne, int_max, inl, inr, c_str-append, append_assoc, scan,
}

abbrev pub recevd : ℕ
recevd = 1

-- `struct ack_packet`; `received` is 0 or 1.
pub record AckPacket : Type 0 where
  pub total_fragment : ℕ
  pub fragment_no : ℕ
  pub received : ℕ

unfoldable pub fill_the_ack : ℕ → ℕ → ℕ → AckPacket
fill_the_ack tf fn recv = record { total_fragment = tf; fragment_no = fn; received = recv }

unfoldable pub ack_to_buffer : AckPacket → Bytes
ack_to_buffer p =
    print_int p.total_fragment
    ++ b':' ∷ (print_int p.fragment_no ++ b':' ∷ (print_int p.received ++ b':' ∷ []))

-- `content` ends in a newline and not in a NUL, so `atoi` also sees what stood behind it before.
pub field_value : Bytes → Bytes → Option ℕ
field_value content old = atoi (c_str (content ++ b'\n' ∷ old))

-- The last three arguments are the bytes that `content` holds behind each field.
unfoldable pub buffer_to_ack : Bytes → Bytes → Bytes → Bytes → Option AckPacket
unfolding field_value
buffer_to_ack buffer old1 old2 old3 = do
  first ← take_field 12 buffer
  total_fragment ← field_value first.0 old1
  second ← take_field 12 first.1
  fragment_no ← field_value second.0 old2
  third ← take_field 12 second.1
  received ← field_value third.0 old3
  some (record { total_fragment = total_fragment; fragment_no = fragment_no; received = received })

-- The newline ends the number: what stands behind it does not count.
field_value-print_int : (n : ℕ) (old : Bytes) → n ≤ int_max → field_value (print_int n) old ≡ some n
unfolding field_value scan c_str
field_value-print_int n old h =
    rw
      (c_str-append (print_int n) (b'\n' ∷ old)
        (IsDigit-ne 0 (print_int n) (inl (omega arith)) (print_int-IsDigit n h)))
      (atoi-print_int-append n h (c_str (b'\n' ∷ old)) refl)

field-print_int :
    (n : ℕ) (rest : Bytes)
    → n ≤ int_max
    → take_field 12 (print_int n ++ b':' ∷ rest) ≡ some (print_int n, rest)
field-print_int n rest h =
    take_field-append 12 (print_int n) rest
      (IsDigit-ne b':' (print_int n) (inr (omega arith)) (print_int-IsDigit n h))
      (omega (arith, length-print_int-le n h))

-- An acknowledgement with numbers within int and a flag of 0 or 1 is read back as it was written,
-- whatever the arrays held before and whatever follows it in the buffer.
pub buffer_to_ack-ack_to_buffer :
    (p : AckPacket) (rest old1 old2 old3 : Bytes)
    → p.total_fragment ≤ int_max
    → p.fragment_no ≤ int_max
    → p.received ≤ 1
    → buffer_to_ack (ack_to_buffer p ++ rest) old1 old2 old3 ≡ some p
unfolding buffer_to_ack ack_to_buffer
buffer_to_ack-ack_to_buffer p rest old1 old2 old3 h k r = rw (
  append_assoc (print_int p.total_fragment)
      (b':' ∷ (print_int p.fragment_no ++ b':' ∷ (print_int p.received ++ b':' ∷ []))) rest,
  append_assoc (print_int p.fragment_no) (b':' ∷ (print_int p.received ++ b':' ∷ [])) rest,
  append_assoc (print_int p.received) (b':' ∷ []) rest,
  field-print_int p.total_fragment _ h,
  field_value-print_int p.total_fragment old1 h,
  field-print_int p.fragment_no (print_int p.received ++ b':' ∷ rest) k,
  field_value-print_int p.fragment_no old2 k,
  field-print_int p.received rest (omega arith),
  field_value-print_int p.received old3 (omega arith),
)
