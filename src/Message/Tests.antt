-- ===== src/Message/Tests.antt =====
-- A login request on the wire.
use ece.Base.{
  ◌≡◌, refl, ◌≢◌, some, arith, Bytes, codes, length, strcpy, c_str, print_int, read_bytes,
}
use ece.Message.{frame, receive_message, string_to_message}
use ece.Message.Kind
use ece.Message.RoundTrip.{IsName, string_to_message-frame}

-- The bytes that the client sends.
frame_login : frame Kind.login (codes "Jack") (some (codes "pw")) ≡ some (codes "0:2:Jack:pw")
unfolding frame strcpy c_str print_int read_bytes
frame_login = refl

jack-IsName : IsName (codes "Jack")
jack-IsName = record { no_nul = ground arith; no_colon = ground arith; fits = omega arith }

not_text : Kind.login ≢ Kind.message
not_text = omega arith

frame_example :
    (b : Bytes) × (frame Kind.login (codes "Jack") (some (codes "pw")) ≡ some b)
    × (string_to_message (receive_message b)
        ≡ some (record {
          type = Kind.login;
          size = length (codes "pw");
          source = codes "Jack";
          body = codes "pw";
        }))
frame_example =
    string_to_message-frame Kind.login (codes "Jack") (omega arith) jack-IsName (codes "pw")
      not_text (ground arith) (omega arith)
