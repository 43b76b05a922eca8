-- ===== src/Transfer/Plain/Deliver/Commands.antt =====
-- Which lines send a file.
use ece.Base.{
  ◌≡◌, refl, ◌≤◌, ◌≢◌, List, [], ◌∷◌, none, some, false, arith, Bytes, length, codes, str_eq,
  str_eq_iff, strcpy, strcpy_overflow, tokens,
}
use ece.Transfer.Deliver.{Request, read_request, read_words}
use ece.Transfer.Plain.Deliver.{read_command, command_words, ftp_length}

words_same :
    (words : List Bytes) (r : Request) → command_words words ≡ some r → read_words words ≡ some r
unfolding command_words read_words strcpy
words_same [] r h = cc
words_same (word ∷ []) r h = ground arith
words_same (word ∷ name ∷ []) r h = ground arith
words_same (word ∷ name ∷ other ∷ others) r h = ground arith

-- Every line that the deliver of Part II reads within its arrays asks for the same in Part III.
pub read_command-read_request :
    (line : Bytes) (r : Request) → read_command line ≡ some r → read_request line ≡ some r
unfolding read_command read_request
read_command-read_request line r h = ground (arith, words_same (tokens [] line) r)

long_word :
    (word : Bytes) (words : List Bytes)
    → ftp_length ≤ length word
    → command_words (word ∷ words) ≡ none
unfolding command_words
long_word word [] h = rw (strcpy_overflow ftp_length word h) refl
long_word word (name ∷ []) h = rw (strcpy_overflow ftp_length word h) refl
long_word word (name ∷ other ∷ others) h = rw (strcpy_overflow ftp_length word h) refl

-- A line other than the command to end, whose first word has four bytes or more, makes the deliver
-- of Part II write behind the end of ftp, whatever words follow.
pub read_command-crashes :
    (line word : Bytes) (words : List Bytes)
    → line ≢ codes "done\n"
    → tokens [] line ≡ word ∷ words
    → 4 ≤ length word
    → read_command line ≡ none
unfolding read_command
read_command-crashes line word words n e h =
    let other : str_eq line (codes "done\n") ≡ false =
      ground (arith, str_eq_iff line (codes "done\n")) in
    rw (other, e) (long_word word words h)
