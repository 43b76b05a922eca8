-- ===== src/Message/Text.antt =====
-- Group texts: `fill_message` at type MESSAGE, whose body may hold NULs where `strtok` cut the line.
use ece.Base.{
  ℕ, zero, suc, ◌≡◌, refl, ap, ◌≤◌, ◌<◌, [], ◌∷◌, ◌++◌, append_assoc, append-nil, some, arith,
  Bytes, All-append, NoNul, length, length-append, c_str, c_str-append, read_bytes, read_bytes_all,
  strcpy_fits, modify, ◌==◌, if◌then◌else◌,
}
use ece.Message.{
  Message, header, fill_message, fill_data, copy_text, message_to_string, string_to_message,
  receive_message, max_name, max_data, maximum_buffer_size,
}
use ece.Message.Header.{length-header-le, header-NoNul}
use ece.Message.RoundTrip.{IsName, received}
use ece.Message.Kind

pub copy_text-NoNul : (n : ℕ) (d : Bytes) → NoNul (copy_text n d)
unfolding copy_text
copy_text-NoNul zero d = tt
copy_text-NoNul (suc n) [] = (omega arith, copy_text-NoNul n [])
copy_text-NoNul (suc n) (c ∷ d) = ground (arith, copy_text-NoNul n d)

pub length-copy_text : (n : ℕ) (d : Bytes) → length (copy_text n d) ≡ n
unfolding copy_text
length-copy_text zero d = refl
length-copy_text (suc n) [] = ap suc (length-copy_text n [])
length-copy_text (suc n) (c ∷ d) = ap suc (length-copy_text n d)

-- The write of the last NUL.
copy_text_closed :
    (k : ℕ) (d : Bytes) → modify (copy_text (suc k) d) k (λ _. 0) ≡ copy_text k d ++ 0 ∷ []
unfolding copy_text
copy_text_closed zero [] = refl
copy_text_closed zero (c ∷ d) = refl
copy_text_closed (suc k) [] = ap (λ r. b' ' ∷ r) (copy_text_closed k [])
copy_text_closed (suc k) (c ∷ d) = ap (λ r. (if c == 0 then b' ' else c) ∷ r) (copy_text_closed k d)

-- A text without NULs is copied as it is.
pub copy_text_lem : (t rest : Bytes) → NoNul t → copy_text (length t) (t ++ rest) ≡ t
unfolding copy_text
copy_text_lem [] rest h = refl
copy_text_lem (c ∷ t) rest h = ground (arith, copy_text_lem t rest h.1)

-- The message that both ends build from a line of `k + 1` bytes.
abbrev pub text_message : ℕ → Bytes → Bytes → Message
text_message k source d = record {
  type = Kind.message;
  size = suc k;
  source = source;
  body = copy_text k d ++ 0 ∷ [];
}

c_str_end : c_str (0 ∷ []) ≡ []
unfolding c_str
c_str_end = refl

-- Reading one byte more than was written gives a NUL at the end.
read_closed : (k : ℕ) (t : Bytes) → length t ≡ k → read_bytes (suc k) t ≡ t ++ 0 ∷ []
unfolding read_bytes
read_closed zero [] h = refl
read_closed zero (c ∷ t) h = absurd (omega arith)
read_closed (suc k) [] h = absurd (omega arith)
read_closed (suc k) (c ∷ t) h = ap (λ r. c ∷ r) (read_closed k t (omega arith))

module _ (k : ℕ) (source : Bytes) (d : Bytes) (hk : k < max_data) (name : IsName source) where
  pub fill_message-text :
      fill_message Kind.message (suc k) source d ≡ some (text_message k source d)
  unfolding fill_message fill_data
  fill_message-text = ground (arith, strcpy_fits max_name source name.fits, copy_text_closed k d)

  pub message_to_string-text :
      (cap : ℕ)
      → maximum_buffer_size ≤ cap
      → message_to_string cap (text_message k source d) (suc k)
        ≡ some ((header Kind.message (suc k) source ++ copy_text k d) ++ 0 ∷ [])
  unfolding message_to_string
  message_to_string-text cap hc = ground (
    arith,
    c_str-append (copy_text k d) (0 ∷ []) (copy_text-NoNul k d),
    append-nil (copy_text k d),
    length-copy_text k d,
    c_str_end,
    length-append (copy_text k d) (0 ∷ []),
    read_bytes_all (copy_text k d ++ 0 ∷ []),
    length-header-le Kind.message (suc k) source (omega arith) (omega arith),
    append_assoc (header Kind.message (suc k) source) (copy_text k d) (0 ∷ []),
    name.fits,
  )

  pub c_str-text :
      c_str ((header Kind.message (suc k) source ++ copy_text k d) ++ 0 ∷ [])
      ≡ header Kind.message (suc k) source ++ copy_text k d
  c_str-text = rw (
    c_str-append (header Kind.message (suc k) source ++ copy_text k d) (0 ∷ []) (
        All-append _ (header Kind.message (suc k) source) (copy_text k d)
          (header-NoNul Kind.message (suc k) source (omega arith) (omega arith) name.no_nul)
          (copy_text-NoNul k d)),
    c_str_end,
    append-nil (header Kind.message (suc k) source ++ copy_text k d),
  )

  pub string_to_message-text :
      string_to_message (receive_message (header Kind.message (suc k) source ++ copy_text k d))
      ≡ some (text_message k source d)
  string_to_message-text = rw (read_closed k (copy_text k d) (length-copy_text k d)) at (
      received Kind.message source (omega arith) name (suc k) (copy_text k d)
        (omega (arith, length-copy_text k d)) (omega arith))

-- The server's copy of a received text is the text: a second pass changes nothing.
pub text_message_again :
    (k : ℕ) (source d : Bytes)
    → text_message k source (text_message k source d).body ≡ text_message k source d
text_message_again k source d =
    ap (λ t. record { type = Kind.message; size = suc k; source = source; body = t ++ 0 ∷ [] })
      (rw (length-copy_text k d) at (copy_text_lem (copy_text k d) (0 ∷ []) (copy_text-NoNul k d)))
