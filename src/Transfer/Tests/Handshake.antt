-- ===== src/Transfer/Tests/Handshake.antt =====
-- Part I on a few words.
use ece.Base.{◌≡◌, refl, ◌↔◌, true, some, [], codes, c_str, is_space, skip_spaces, str_eq, strcpy}
use ece.Transfer.Handshake.{
  serve, accepts, read_names, split_word, scan_word, ends_line, incorrect_format,
}
use ece.Transfer.Handshake.Laws.{accepts-serve, read_names-fails}
use ece.Transfer.Tests.Link.{every_name}

accepts-serve_example :
    (accepts (serve (codes "ftp") (codes "x")).1 [] ≡ true)
    ↔ (c_str (serve (codes "ftp") (codes "x")).0 ≡ codes "ftp")
accepts-serve_example = accepts-serve (codes "ftp") (codes "x") []

two_words : read_names every_name (codes "ab c\n") ≡ some incorrect_format
unfolding read_names scan_word split_word ends_line is_space skip_spaces str_eq strcpy
two_words = refl

read_names_example : incorrect_format ≡ incorrect_format
read_names_example = read_names-fails every_name (codes "ab c\n") incorrect_format two_words
