-- ===== src/Message.antt =====
-- Text_Conferencing_Lab/message/message.c and message.h: the message struct and its text form.
-- `none` is a read or a write outside an array, or an `atoi` that C leaves undefined.
pub mod Kind
pub mod Header
pub mod RoundTrip
pub mod Text
pub mod Tests
use Kind
use ece.Base.{
  ℕ, zero, suc, ◌+◌, ◌-◌, ◌&&◌, List, [], ◌∷◌, ◌++◌, Option, none, some, Bytes, ltb, leb, ◌==◌,
  if◌then◌else◌, ◌>>=◌, length, modify, c_str, read_bytes, strcpy, print_int, atoi, take_field,
}

abbrev pub max_name : ℕ
max_name = 17

abbrev pub max_data : ℕ
max_data = 1000

abbrev pub maximum_buffer_size : ℕ
maximum_buffer_size = 1200

abbrev pub acc_buffer_size : ℕ
acc_buffer_size = 1500

-- `message_t`: `body` is its array `data`.
pub record Message : Type 0 where
  pub type : ℕ
  pub size : ℕ
  pub source : Bytes
  pub body : Bytes

-- The loop of `fill_message` for text: a NUL becomes a space.
pub copy_text : ℕ → Bytes → Bytes
copy_text zero d = []
copy_text (suc n) [] = b' ' ∷ copy_text n []
copy_text (suc n) (c ∷ d) = (if c == 0 then b' ' else c) ∷ copy_text n d

pub fill_data : ℕ → ℕ → Bytes → Option Bytes
unfolding copy_text
fill_data type size d =
    if size == 0
    then some []
    else if type == Kind.message
    then (if leb size max_data then some (modify (copy_text size d) (size - 1) (λ _. 0)) else none)
    else strcpy max_data (c_str d)

unfoldable pub fill_message : ℕ → ℕ → Bytes → Bytes → Option Message
unfolding fill_data
fill_message type size source d = do
  body ← fill_data type size d
  name ← strcpy max_name source
  some (record { type = type; size = size; source = name; body = body })

-- What `sprintf(buffer, "%d:%d:%s:", …)` writes.
unfoldable pub header : ℕ → ℕ → Bytes → Bytes
header type size source = print_int type ++ b':' ∷ (print_int size ++ b':' ∷ (source ++ b':' ∷ []))

-- The bytes before `buffer[count] = '\0'`, in a buffer of `cap` bytes. `strcat` writes the text of
-- `data` and its NUL before the loop copies `size` bytes.
unfoldable pub message_to_string : ℕ → Message → ℕ → Option Bytes
message_to_string cap m size =
    let front = header m.type size m.source in
    if size == 0
    then strcpy cap front
    else if leb size max_data
        && ltb (length front + length (c_str m.body)) cap
        && ltb (length front + size) cap
    then some (front ++ read_bytes size m.body)
    else none

unfoldable pub string_to_message : Bytes → Option Message
unfolding take_field
string_to_message buffer = do
  kind ← take_field 12 buffer
  type ← atoi (c_str kind.0)
  count ← take_field 12 kind.1
  size ← atoi (c_str count.0)
  name ← take_field max_name count.1
  if leb size max_data && leb size (length name.1)
      then some (record {
        type = type;
        size = size;
        source = c_str name.0;
        body = read_bytes size name.1;
      })
      else none

-- The buffer that `receive_message` leaves: zeroed before, then filled from the front.
unfoldable pub receive_message : Bytes → Bytes
receive_message sent = read_bytes maximum_buffer_size sent

-- The `char* data` that `fill_and_send_message` takes; `none` is NULL.
pub data_size : Option Bytes → ℕ
data_size none = 0
data_size (some d) = length d

pub data_bytes : Option Bytes → Bytes
data_bytes none = []
data_bytes (some d) = d

-- The bytes that `fill_and_send_message` hands to `send`: those before the first NUL.
unfoldable pub frame : ℕ → Bytes → Option Bytes → Option Bytes
unfolding fill_message message_to_string header data_size data_bytes
frame type source d = do
  m ← fill_message type (data_size d) source (data_bytes d)
  buffer ← message_to_string maximum_buffer_size m m.size
  some (c_str buffer)
