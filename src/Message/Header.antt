-- ===== src/Message/Header.antt =====
-- The parts of the text form: the header that `sprintf` writes, and the fields that the parser reads.
use ece.Base.{
  take_field-append, ℕ, ◌+◌, ◌≡◌, ◌≤◌, ◌<◌, inl, inr, [], ◌∷◌, ◌++◌, append_assoc, some, arith,
  Bytes, All-append, NoNul, Lacks, length, length-append, c_str-NoNul, read_bytes, atoi-print_int,
  print_int, print_int-IsDigit, length-print_int-le, IsDigit-ne, int_max,
}
use ece.Message.{header, string_to_message, max_name, max_data}

pub length-header-le :
    (type size : ℕ) (source : Bytes)
    → type ≤ int_max
    → size ≤ int_max
    → length (header type size source) ≤ 23 + length source
unfolding header
length-header-le type size source ht hs = omega (
  arith,
  length-append (print_int type) (b':' ∷ (print_int size ++ b':' ∷ (source ++ b':' ∷ []))),
  length-append (print_int size) (b':' ∷ (source ++ b':' ∷ [])),
  length-append source (b':' ∷ []),
  length-print_int-le type ht,
  length-print_int-le size hs,
)

NoNul-print_int : (n : ℕ) → n ≤ int_max → NoNul (print_int n)
NoNul-print_int n h = IsDigit-ne 0 (print_int n) (inl (omega arith)) (print_int-IsDigit n h)

Lacks-print_int : (n : ℕ) → n ≤ int_max → Lacks b':' (print_int n)
Lacks-print_int n h = IsDigit-ne b':' (print_int n) (inr (omega arith)) (print_int-IsDigit n h)

pub header-NoNul :
    (type size : ℕ) (source : Bytes)
    → type ≤ int_max
    → size ≤ int_max
    → NoNul source
    → NoNul (header type size source)
unfolding header
header-NoNul type size source ht hs h = All-append _ (print_int type) _ (NoNul-print_int type ht) (
  omega arith,
  All-append _ (print_int size) _ (NoNul-print_int size hs)
      (omega arith, All-append _ source _ h (omega arith)),
)

pub header-append :
    (type size : ℕ) (source rest : Bytes)
    → header type size source ++ rest
      ≡ print_int type ++ b':' ∷ (print_int size ++ b':' ∷ (source ++ b':' ∷ rest))
unfolding header
header-append type size source rest = simp append_assoc

-- What the parser reads behind a header that the printer wrote.
pub string_to_message-header :
    (type size : ℕ) (source rest : Bytes)
    → type ≤ int_max
    → size ≤ max_data
    → size ≤ length rest
    → NoNul source
    → Lacks b':' source
    → length source < max_name
    → string_to_message (header type size source ++ rest)
      ≡ some (record { type = type; size = size; source = source; body = read_bytes size rest })
unfolding string_to_message
string_to_message-header type size source rest ht hs hr nul colon fits =
    rw
      (
        header-append type size source rest,
        take_field-append 12 (print_int type) _ (Lacks-print_int type ht)
            (omega (arith, length-print_int-le type ht)),
        c_str-NoNul (print_int type) (NoNul-print_int type ht),
        atoi-print_int type ht,
        take_field-append 12 (print_int size) (source ++ b':' ∷ rest)
            (Lacks-print_int size (omega arith))
            (omega (arith, length-print_int-le size (omega arith))),
        c_str-NoNul (print_int size) (NoNul-print_int size (omega arith)),
        atoi-print_int size (omega arith),
        take_field-append max_name source rest colon fits,
        c_str-NoNul source nul,
      )
      (ground arith)
