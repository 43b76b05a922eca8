-- ===== src/Server/Wire/Rounds.antt =====
-- server.c: `connection_handler` from the bytes of a request to the request, on a connection whose user
-- is logged in.
use ece.Base.{
  ℕ, ◌≡◌, refl, sym, ◌∙◌, ◌≢◌, ◌<◌, ◌≤◌, int_max, some, arith, Bytes, NoNul, length, c_str-NoNul,
}
use ece.Message.{frame, receive_message, max_data}
use ece.Message.Kind
use ece.Message.RoundTrip.{string_to_message-frame, frame-none}
use ece.Store.{User, Server, ok, online}
use ece.Store.Laws.{bind_ok}
use ece.Server.Login.{Peer}
use ece.Server.Session.{server_side_user_exit}
use ece.Server.Handler.{
  Connection, SendResult, received, refused, receive_error, hang_up, finished, name_of, dispatch,
  connection_handler,
}
use ece.Server.Invariant.{IsValid}
use ece.Server.Safety.{
  LoggedIn, this_name, server_side_session_join-IsValid, server_side_session_create-IsValid,
  server_side_session_leave-IsValid, server_side_user_exit-IsValid,
}
use ece.Server.AdminSafety.{server_side_kick_user-IsValid, server_side_promote_user-IsValid}
use ece.Server.Reachable.{Request}
use ece.Server.Reachable
use ece.Server.Wire.{
  Ask, joins, creates, kicks, promotes, leaves, exits, type_of, text_of, data_of, next_of,
  IsAllowed, service,
}

type_small : (a : Ask) → type_of a ≤ int_max
type_small (joins id) = omega arith
type_small (creates id) = omega arith
type_small (kicks target) = omega arith
type_small (promotes target) = omega arith
type_small leaves = omega arith
type_small exits = omega arith

type_control : (a : Ask) → type_of a ≢ Kind.message
type_control (joins id) = omega arith
type_control (creates id) = omega arith
type_control (kicks target) = omega arith
type_control (promotes target) = omega arith
type_control leaves = omega arith
type_control exits = omega arith

frame_data :
    (a : Ask) (name : Bytes)
    → frame (type_of a) name (some (text_of a)) ≡ frame (type_of a) name (data_of a)
frame_data (joins id) name = refl
frame_data (creates id) name = refl
frame_data (kicks target) name = refl
frame_data (promotes target) name = refl
frame_data leaves name = frame-none Kind.leave_sess name
frame_data exits name = frame-none Kind.exit name

module _ (name : Bytes) (s : Server) (i : ℕ) (u : User) (v : IsValid s)
    (l : LoggedIn name s i u) where
  text_NoNul : (a : Ask) → IsAllowed name u a → NoNul (text_of a)
  text_NoNul (joins id) h = h.text.0
  text_NoNul (creates id) h = h.text.0
  text_NoNul (kicks target) h = h.no_nul
  text_NoNul (promotes target) h = h.0.no_nul
  text_NoNul leaves h = tt
  text_NoNul exits h = tt

  text_fits : (a : Ask) → IsAllowed name u a → length (text_of a) < max_data
  text_fits (joins id) h = omega (arith, h.fits)
  text_fits (creates id) h = omega (arith, h.fits)
  text_fits (kicks target) h = h.fits
  text_fits (promotes target) h = h.0.fits
  text_fits leaves h = omega arith
  text_fits exits h = omega arith

  serves : (a : Ask) → IsAllowed name u a → (t : Server) × (service name a s ≡ ok tt t) × IsValid t
  serves (joins id) h = server_side_session_join-IsValid name s i u v l id h
  serves (creates id) h = server_side_session_create-IsValid name s i u v l id h
  serves (kicks target) h = server_side_kick_user-IsValid name target s i u v l h.other
  serves (promotes target) h = server_side_promote_user-IsValid name target s i u v l h.0.other h.1
  serves leaves h = server_side_session_leave-IsValid name s i u v l h
  serves exits h = server_side_user_exit-IsValid name s i u v l

  service-Request :
      (a : Ask) {t : Server} → IsAllowed name u a → service name a s ≡ ok tt t → Request s t
  service-Request (joins id) h k = Reachable.joins name id i u l h k
  service-Request (creates id) h k = Reachable.creates name id i u l h k
  service-Request (kicks target) h k = Reachable.kicks name target i u l h.other k
  service-Request (promotes target) h k = Reachable.promotes name target i u l h.0.other h.1 k
  service-Request leaves h k = Reachable.leaves name i u l h k
  service-Request exits h k = Reachable.exits name i u l k

  module _ (peer : ℕ → Peer) (c : Connection) (own : c.source ≡ some name) where
    name_of-run : name_of c s ≡ ok name s
    unfolding name_of
    name_of-run = rw own refl

    dispatch-service :
        (a : Ask) (size : ℕ) (b : Bytes) (result : SendResult) {t : Server}
        → NoNul (text_of a)
        → service name a s ≡ ok tt t
        → dispatch peer c
            (record { type = type_of a; size = size; source = name; body = text_of a })
            b
            result
            s
          ≡ ok (next_of a c) t
    unfolding dispatch
    dispatch-service (joins id) size b result {t} nul k =
        bind_ok _ _ {t = t} {a = tt} (bind_ok _ _ name_of-run (rw (c_str-NoNul id nul) k)) refl
    dispatch-service (creates id) size b result {t} nul k =
        bind_ok _ _ {t = t} {a = tt} (bind_ok _ _ name_of-run (rw (c_str-NoNul id nul) k)) refl
    dispatch-service (kicks target) size b result {t} nul k =
        bind_ok _ _ {t = t} {a = tt} (bind_ok _ _ name_of-run (rw (c_str-NoNul target nul) k)) refl
    dispatch-service (promotes target) size b result {t} nul k =
        bind_ok _ _ {t = t} {a = tt} (bind_ok _ _ name_of-run (rw (c_str-NoNul target nul) k)) refl
    dispatch-service leaves size b result {t} nul k =
        bind_ok _ _ {t = t} {a = tt} (bind_ok _ _ name_of-run k) refl
    dispatch-service exits size b result {t} nul k =
        bind_ok _ _ name_of-run (bind_ok _ _ {t = t} {a = tt} k refl)

    -- A round that serves a request.
    pub served_round :
        (a : Ask) (result : SendResult)
        → IsAllowed name u a
        → (b : Bytes) × (t : Server) × (frame (type_of a) name (data_of a) ≡ some b)
          × (connection_handler peer c (received b result) s ≡ ok (next_of a c) t)
          × (service name a s ≡ ok tt t)
          × IsValid t
    unfolding connection_handler
    served_round a result h =
        let (b, made, parsed) =
          string_to_message-frame (type_of a) name (type_small a) (this_name name s i u v l)
            (text_of a) (type_control a) (text_NoNul a h) (text_fits a h) in
        let (t, run, valid) = serves a h in
        (
          b,
          t,
          sym (frame_data a name) ∙ made,
          bind_ok _ _ {t = s}
              {a = record {
                type = type_of a;
                size = length (text_of a);
                source = name;
                body = text_of a;
              }}
              (rw parsed refl)
              (dispatch-service a (length (text_of a)) (receive_message b) result (text_NoNul a h)
                run),
          run,
          valid,
        )

    hang_up-exits :
        c.server_connection_status ≡ online
        → {t : Server} → server_side_user_exit name s ≡ ok tt t
        → hang_up c s ≡ ok finished t
    unfolding hang_up
    hang_up-exits up {t} k = bind_ok _ _ {t = t} {a = tt} (rw up (bind_ok _ _ name_of-run k)) refl

    -- On the connection of a user who is logged in at a valid state, take a request that the client
    -- frames: to join or to create a session whose name fits its array and is not "Not in session",
    -- to kick another user, to promote another user where the user is an admin, to leave from inside
    -- a session, or to exit; with a target without NULs of fewer than MAX_DATA bytes. It is one buffer
    -- of bytes, and connection_handler, given those bytes, returns, takes one of the steps of Request,
    -- leaves a valid state, and goes on with the connection as it was, or ends it after an exit. Where
    -- recv fails or finds the connection closed instead, and the connection was up, it does what it does
    -- on an exit.
    pub connection_handler-Request :
        (a : Ask) (result : SendResult)
        → IsAllowed name u a
        → c.server_connection_status ≡ online
        → (b : Bytes) × (t w : Server) × (frame (type_of a) name (data_of a) ≡ some b)
          × (connection_handler peer c (received b result) s ≡ ok (next_of a c) t)
          × Request s t
          × IsValid t
          × (server_side_user_exit name s ≡ ok tt w)
          × (connection_handler peer c refused s ≡ ok finished w)
          × (connection_handler peer c receive_error s ≡ ok finished w)
          × Request s w
          × IsValid w
    unfolding connection_handler
    connection_handler-Request a result h up =
        let (b, t, framed, run, served, valid) = served_round a result h in
        let (w, gone, empty) = server_side_user_exit-IsValid name s i u v l in
        let lost = hang_up-exits up gone in
        (
          b,
          t,
          w,
          framed,
          run,
          service-Request a h served,
          valid,
          gone,
          lost,
          lost,
          service-Request exits tt gone,
          empty,
        )
