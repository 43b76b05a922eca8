-- ===== src/Client/LoggingIn.antt =====
-- `/login` from the client's request to the server's table.
use ece.Base.{
  ℕ, List, subst, sym, ◌≡◌, refl, ◌≢◌, ◌<◌, ◌++◌, [], ◌∷◌, some, arith, Bytes, length, leb, c_str,
  c_str-NoNul, true, not, NoNul, get_elem?,
}
use ece.Message.{Message, frame, max_name}
use ece.Message.RoundTrip.{IsName, string_to_message-frame}
use ece.Message.Kind
use ece.Store.{User, Server, ok, online, max_address_length, max_password_length}
use ece.Store.Laws.{bind_ok, posted, wire, strcpy-run, fill_and_send_message-none}
use ece.Database.Run.{Located}
use ece.Server.Invariant.{IsValid}
use ece.Server.Login.{Peer, success_login, get_user_ip_address_and_port, verify_login, user_login}
use ece.Server.Login.Verify.{verify_login-success_iff}
use ece.Server.Login.Arrival.{arrive, note_address, user_login-IsValid}
use ece.Server.Safety.{with_table}
use ece.Server.Handler.{
  Connection, SendResult, received, again, handle_login, dispatch, connection_handler,
}
use ece.Client.{
  Client, Attempt, resolved, connect_loop, on, post, login, connect_and_post, length_validate,
}

abbrev request : Bytes → Bytes → Message
request name word = record { type = Kind.login; size = length word; source = name; body = word }

module _ (name word : Bytes) (n : IsName name) (clean : NoNul word)
    (small : length word < max_password_length) where
  short : (k cap : ℕ) → k < cap → not (leb cap k) ≡ true
  short k cap h = ground arith

  login-posted :
      (c : Client) (addresses : List Attempt) (b : Bytes)
      → connect_loop addresses ≡ true
      → frame Kind.login name (some word) ≡ some b
      → login (resolved addresses) name word c
        ≡ some (record c {
          server_connection_status = on;
          thread = c.thread ++ c.thread_count ∷ [];
          sent = c.sent ++ b ∷ [];
        })
  unfolding login connect_and_post length_validate post
  login-posted c addresses b reached h =
      rw
        (
          short (length name) max_name n.fits,
          short (length word) max_password_length small,
          reached,
          h,
        )
        refl

  module _ (peer : ℕ → Peer) (address : Bytes) (port : ℕ) (s : Server) (i : ℕ) (u : User)
      (v : IsValid s) (l : Located name s i u) (same : u.password ≡ word) (away : u.status ≢ online)
      (conn : Connection)
      (from : get_user_ip_address_and_port peer conn.socket_fd ≡ some (address, port))
      (address_fits : length address < max_address_length) (result : SendResult) where
    abbrev welcomed : Connection
    welcomed = record conn { source = some name; server_connection_status = online }

    verified : verify_login name (c_str word) s ≡ ok success_login s
    verified =
        subst (λ w. verify_login name w s ≡ ok success_login s) (sym (c_str-NoNul word clean))
          ((verify_login-success_iff name word s).1 (i, u, l, same, away))

    handle_login-run :
        (t : Server)
        → user_login peer name online conn.socket_fd s ≡ ok tt t
        → handle_login peer conn (request name word) s
          ≡ ok (again welcomed) (posted conn.socket_fd (wire Kind.lo_ack name []) t)
    unfolding handle_login
    handle_login-run t h = bind_ok _ _ {t = s} {a = success_login} verified (
        bind_ok _ _ h (
          bind_ok _ _ (strcpy-run max_name name t n.fits) (
            bind_ok _ _
              (fill_and_send_message-none conn.socket_fd Kind.lo_ack name t (omega arith) n) refl)))

    -- What a client that can connect to one of the addresses of the server sends to log in, with a
    -- name of at most 16 bytes without NULs and colons and a password without NULs that fits its
    -- array, is one buffer of bytes; the server's thread, given those bytes at a valid state where
    -- the first user of that name has that password and is not online, and from a socket whose
    -- address is known and fits, takes the name as its own, marks the user online with that
    -- socket, address and port, and leaves a valid state.
    pub login-delivery :
        (c : Client) (addresses : List Attempt)
        → connect_loop addresses ≡ true
        → (b : Bytes) × (t : Server) × (login (resolved addresses) name word c
            ≡ some (record c {
              server_connection_status = on;
              thread = c.thread ++ c.thread_count ∷ [];
              sent = c.sent ++ b ∷ [];
            }))
          × (connection_handler peer conn (received b result) s ≡ ok (again welcomed) t)
          × IsValid t
          × (get_elem? t.user_list i ≡ some (note_address address port (arrive conn.socket_fd u)))
    unfolding connection_handler dispatch
    login-delivery c addresses reached =
        let (b, made, parsed) =
          string_to_message-frame Kind.login name (omega arith) n word (omega arith) clean
            (omega arith) in
        let (t, run, valid, there) =
          user_login-IsValid peer name conn.socket_fd address port s i u v l from address_fits in
        (
          b,
          posted conn.socket_fd (wire Kind.lo_ack name []) t,
          login-posted c addresses b reached made,
          bind_ok _ _ {t = s} {a = request name word} (rw parsed refl) (handle_login-run t run),
          with_table t t.user_list _ valid valid.table refl,
          there,
        )
