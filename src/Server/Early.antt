-- ===== src/Server/Early.antt =====
-- server.c: requests on a connection whose user has neither logged in nor registered.
use ece.Base.{ℕ, ◌≡◌, refl, ◌<◌, ◌≤◌, ◌≢◌, int_max, some, none, arith, Bytes, NoNul, length}
use ece.Message.{frame, receive_message, max_data}
use ece.Message.Kind
use ece.Message.RoundTrip.{IsName, string_to_message-frame}
use ece.Store.{Server, stop, uninitialised}
use ece.Store.Laws.{bind_ok, bind_stop}
use ece.Server.Login.{Peer}
use ece.Server.Handler.{Connection, SendResult, received, name_of, dispatch, connection_handler}

-- The requests for which the thread passes on the name of its user.
pub data Early : Type 0 where
  exits joins creates leaves kicks promotes : Early

abbrev pub type_of : Early → ℕ
type_of exits = Kind.exit
type_of joins = Kind.join
type_of creates = Kind.new_sess
type_of leaves = Kind.leave_sess
type_of kicks = Kind.kick
type_of promotes = Kind.promote

type_small : (r : Early) → type_of r ≤ int_max
type_small exits = omega arith
type_small joins = omega arith
type_small creates = omega arith
type_small leaves = omega arith
type_small kicks = omega arith
type_small promotes = omega arith

type_control : (r : Early) → type_of r ≢ Kind.message
type_control exits = omega arith
type_control joins = omega arith
type_control creates = omega arith
type_control leaves = omega arith
type_control kicks = omega arith
type_control promotes = omega arith

module _ (peer : ℕ → Peer) (c : Connection) (nobody : c.source ≡ none) (s : Server) where
  name_of-stop : name_of c s ≡ stop uninitialised
  unfolding name_of
  name_of-stop = rw nobody refl

  dispatch-stop :
      (r : Early) (size : ℕ) (source body b : Bytes) (result : SendResult)
      → dispatch peer c
          (record { type = type_of r; size = size; source = source; body = body })
          b
          result
          s
        ≡ stop uninitialised
  unfolding dispatch
  dispatch-stop exits size source body b result = bind_stop _ _ name_of-stop
  dispatch-stop joins size source body b result = bind_stop _ _ (bind_stop _ _ name_of-stop)
  dispatch-stop creates size source body b result = bind_stop _ _ (bind_stop _ _ name_of-stop)
  dispatch-stop leaves size source body b result = bind_stop _ _ (bind_stop _ _ name_of-stop)
  dispatch-stop kicks size source body b result = bind_stop _ _ (bind_stop _ _ name_of-stop)
  dispatch-stop promotes size source body b result = bind_stop _ _ (bind_stop _ _ name_of-stop)

  -- Whatever the state: a request to exit, join, create, leave, kick or promote that a client
  -- frames, with a name of at most 16 bytes without NULs and colons and a text without NULs of
  -- fewer than MAX_DATA bytes, makes the server read an array that was never written, if it
  -- arrives on a connection on which nobody has logged in or registered.
  pub connection_handler-early :
      (r : Early) (name d : Bytes) (result : SendResult)
      → IsName name
      → NoNul d
      → length d < max_data
      → (b : Bytes) × (frame (type_of r) name (some d) ≡ some b)
        × (connection_handler peer c (received b result) s ≡ stop uninitialised)
  unfolding connection_handler
  connection_handler-early r name d result n nul fits =
      let (b, framed, parsed) =
        string_to_message-frame (type_of r) name (type_small r) n d (type_control r) nul fits in
      (
        b,
        framed,
        bind_ok _ _ {t = s}
            {a = record { type = type_of r; size = length d; source = name; body = d }}
            (rw parsed refl) (dispatch-stop r (length d) name d (receive_message b) result),
      )
