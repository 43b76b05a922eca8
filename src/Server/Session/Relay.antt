-- ===== src/Server/Session/Relay.antt =====
-- A group text on its way through the server: string_to_message, the branch MESSAGE of
-- connection_handler, and send_message_in_a_session.
use ece.Base.{
  ℕ, suc, ◌≡◌, refl, sym, ◌∙◌, ap, ◌<◌, ◌++◌, [], ◌∷◌, append-nil, append_assoc, true, false, List,
  arith, Bytes, if◌then◌else◌, c_str, Bool,
}
use ece.Message.{header, copy_text, acc_buffer_size, max_data}
use ece.Message.RoundTrip.{IsName}
use ece.Message.Kind
use ece.Message.Text.{
  text_message, fill_message-text, message_to_string-text, c_str-text, string_to_message-text,
  text_message_again,
}
use ece.Store.{User, Server, ok, pure, user_lock, emit}
use ece.Store.Laws.{bind_ok, lock-run, deref-run, locked}
use ece.Database.Run.{Ready, Located, return_user-run}
use ece.Server.Login.{Peer}
use ece.Server.Session.{receives, send_to_session, send_message_in_a_session}
use ece.Server.Handler.{
  Connection, SendResult, received, again, handle_message, dispatch, connection_handler,
}

-- One copy for the socket of each user who is online and in the session.
pub copies : Bytes → Bytes → List User → List (ℕ × Bytes)
copies id b [] = []
copies id b (u ∷ us) =
    let rest = copies id b us in if receives id u then (u.socket_fd, b) ∷ rest else rest

-- The bytes of a text.
abbrev pub text_bytes : ℕ → Bytes → Bytes → Bytes
text_bytes k source d = header Kind.message (suc k) source ++ copy_text k d

send_step :
    (id b : Bytes) (u : User) (s : Server) (t : Bool)
    → receives id u ≡ t
    → (if receives id u then emit u.socket_fd b else pure tt) s
      ≡ ok tt (record s { sent = s.sent ++ (if t then (u.socket_fd, b) ∷ [] else []) })
unfolding emit
send_step id b u s true h = rw (h, emit) refl
send_step id b u s false h = rw h (rw (append-nil s.sent) refl)

copies_step :
    (id b : Bytes) (u : User) (us : List User)
    → copies id b (u ∷ us) ≡ (if receives id u then (u.socket_fd, b) ∷ [] else []) ++ copies id b us
unfolding copies
copies_step id b u us = ground arith

pub send_to_session-run :
    (id b : Bytes) (us : List User) (s : Server)
    → send_to_session id b us s ≡ ok tt (record s { sent = s.sent ++ copies id b us })
unfolding send_to_session copies
send_to_session-run id b [] s = rw (append-nil s.sent) refl
send_to_session-run id b (u ∷ us) s = bind_ok _ _ (send_step id b u s (receives id u) refl) (
    send_to_session-run id b us _
    ∙ ap (λ l. ok tt (record s { sent = l }))
        (append_assoc s.sent (if receives id u then (u.socket_fd, b) ∷ [] else []) (copies id b us)
          ∙ ap (λ l. s.sent ++ l) (sym (copies_step id b u us))))

module _ (k : ℕ) (name d : Bytes) (small : k < max_data) (n : IsName name) (s : Server) (i : ℕ)
    (u : User) (r : Ready s) (l : Located name s i u) where
  -- The state after the text went to the session of its sender.
  abbrev pub relayed : Server
  relayed = record s { sent = s.sent ++ copies u.session_id (text_bytes k name d) s.user_list }

  send_message-run :
      send_message_in_a_session (text_message k name d) u.session_id s ≡ ok tt relayed
  unfolding send_message_in_a_session
  send_message-run = bind_ok _ _ (lock-run user_lock s r.user_free) (
      bind_ok _ _ {t = locked s} {a = text_bytes k name d ++ 0 ∷ []}
        (rw (message_to_string-text k name d small n acc_buffer_size (omega arith)) refl)
        (bind_ok _ _ refl (
          bind_ok _ _
            (send_to_session-run u.session_id (c_str (text_bytes k name d ++ 0 ∷ [])) s.user_list
              (locked s))
            (rw (c_str-text k name d small n) (rw r.user_free refl)))))

  pub handle_message-run : handle_message (text_message k name d) s ≡ ok tt relayed
  unfolding handle_message
  handle_message-run =
      bind_ok _ _ {t = s} {a = text_message k name d}
        (rw
          (fill_message-text k name (copy_text k d ++ 0 ∷ []) small n, text_message_again k name d)
          refl)
        (bind_ok _ _ (return_user-run name s l.found)
          (bind_ok _ _ (deref-run i s l.at) send_message-run))

  -- The relay.
  pub connection_handler-relay :
      (peer : ℕ → Peer) (c : Connection) (result : SendResult)
      → connection_handler peer c (received (text_bytes k name d) result) s ≡ ok (again c) relayed
  unfolding connection_handler dispatch
  connection_handler-relay peer c result =
      bind_ok _ _ {t = s} {a = text_message k name d}
        (rw (string_to_message-text k name d small n) refl) (bind_ok _ _ handle_message-run refl)
