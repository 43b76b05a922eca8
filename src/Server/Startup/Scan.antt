-- ===== src/Server/Startup/Scan.antt =====
-- What `fscanf` makes of the lines that write_to_database writes.
use ece.Base.{
  ℕ, ◌≡◌, refl, ap, ◌∙◌, ◌<◌, true, false, List, [], ◌∷◌, ◌++◌, append_assoc, Option, some, arith,
  Bytes, NoNul, All, ◌==◌, ==_ne, length, strcpy_fits, skip_spaces, is_space,
}
use ece.Message.{max_name}
use ece.Server.Startup.{
  max_password, in_set, span_set, literals, at_end, close_entry, scan_password, scan_entry,
}

-- A name or a password that the format reads back.
pub record IsField (cap : ℕ) (text : Bytes) : Type 0 where
  pub filled : 0 < length text
  pub fits : length text < cap
  pub no_nul : NoNul text
  pub inside : All (λ c. in_set c ≡ true) text

abbrev pub Entry : Type 0
Entry = Bytes × Bytes

-- A name, and a password for the array of set_up_database.
pub record IsEntry (e : Entry) : Type 0 where
  pub name : IsField max_name e.0
  pub word : IsField max_password e.1

-- What write_to_database writes for a user, without the newline in front.
abbrev pub entry : Entry → Bytes
entry e = b'"' ∷ (e.0 ++ (b'"' ∷ b':' ∷ b'"' ∷ (e.1 ++ b'"' ∷ [])))

abbrev pub appended : List Entry → Bytes
appended [] = []
appended (e ∷ es) = b'\n' ∷ (entry e ++ appended es)

-- The text from the first entry on.
abbrev pub file_text : List Entry → Bytes
file_text [] = []
file_text (e ∷ es) = entry e ++ appended es

pub span_quote :
    (text rest : Bytes)
    → All (λ c. in_set c ≡ true) text
    → span_set (text ++ b'"' ∷ rest) ≡ (text, b'"' ∷ rest)
unfolding span_set in_set
span_quote [] rest h = refl
span_quote (c ∷ text) rest h = rw (h.0, span_quote text rest h.1) refl

skip_newline : (es : List Entry) → skip_spaces (appended es) ≡ file_text es
unfolding skip_spaces is_space
skip_newline [] = refl
skip_newline (e ∷ es) = refl

-- One line, whatever follows it.
pub scan_entry-front :
    (e : Entry) (tail : Bytes) (username password : Option Bytes)
    → IsEntry e
    → scan_entry username password (entry e ++ tail)
      ≡ some (record {
        end_of_file = false;
        username = some e.0;
        password = some e.1;
        rest = skip_spaces tail;
      })
unfolding scan_entry scan_password close_entry literals at_end
scan_entry-front e tail username password h =
    let some_name : (length e.0 == 0) ≡ false =
      ==_ne (length e.0) 0 (omega (arith, h.name.filled)) in
    let some_word : (length e.1 == 0) ≡ false =
      ==_ne (length e.1) 0 (omega (arith, h.word.filled)) in
    rw
      (
        append_assoc e.0 (b'"' ∷ b':' ∷ b'"' ∷ (e.1 ++ b'"' ∷ [])) tail,
        append_assoc e.1 (b'"' ∷ []) tail,
        span_quote e.0 (b':' ∷ b'"' ∷ (e.1 ++ b'"' ∷ tail)) h.name.inside,
        some_name,
        strcpy_fits max_name e.0 h.name.fits,
        span_quote e.1 tail h.word.inside,
        some_word,
        strcpy_fits max_password e.1 h.word.fits,
      )
      refl

pub scan_entry-entry :
    (e : Entry) (es : List Entry) (username password : Option Bytes)
    → IsEntry e
    → scan_entry username password (entry e ++ appended es)
      ≡ some (record {
        end_of_file = false;
        username = some e.0;
        password = some e.1;
        rest = file_text es;
      })
scan_entry-entry e es username password h =
    scan_entry-front e (appended es) username password h
    ∙ ap
        (λ left.
          some
            (record { end_of_file = false; username = some e.0; password = some e.1; rest = left }))
        (skip_newline es)
