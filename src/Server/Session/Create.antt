-- ===== src/Server/Session/Create.antt =====
-- server_side_session_create: what it leaves.
use ece.Base.{
  ℕ, ◌≡◌, refl, ◌∙◌, ◌<◌, Bool-cases, inl, inr, some, Option, Bool, true, false, arith, Bytes,
  length, modify, ◌==◌, if◌then◌else◌, strcpy_fits,
}
use ece.Message.Kind
use ece.Message.RoundTrip.{IsName}
use ece.Store.{
  User, Server, ok, M, ◌>>=◌, ◌>>◌, rw as rw_mutex, user_lock, lock, unlock, assign, online, admin,
  max_session_length,
}
use ece.Store.Laws.{
  posted, wire, locked, bind_ok, if_true, if_false, lock-run, deref-run, IsText,
  fill_and_send_message-posted,
}
use ece.Database.{count_in_session, get_user_count_in_a_session, database_search_user}
use ece.Database.Run.{search-run, Ready, Located, get_user_count_in_a_session-run}
use ece.Server.Session.{
  session_exists, session_response_message, session_response_message-IsText,
  server_side_session_create, refuse,
}

-- What creating a session does to the user.
abbrev pub found_session : Bytes → User → User
found_session id u = record u { session_id = id; in_session = online; role = admin }

unfoldable pub create_result : Bytes → Bytes → Server → ℕ → User → Server
create_result name id s i u =
    if count_in_session id s.user_list == 0
    then posted u.socket_fd (wire Kind.ns_ack name id)
        (record s { user_list = modify s.user_list i (found_session id) })
    else posted u.socket_fd (wire Kind.new_sess name (session_response_message session_exists)) s

module _ (name id : Bytes) (s : Server) (i : ℕ) (u : User) (r : Ready s) (l : Located name s i u)
    (n : IsName name) (t : IsText id) (fits : length id < max_session_length) where
  create_start :
      (rest : Option ℕ → ℕ → M (Unit {0}))
      → (do
        lock user_lock
        p ← database_search_user name
        count ← get_user_count_in_a_session id rw_mutex
        rest p count)
          s
        ≡ rest (some i) (count_in_session id s.user_list) (locked s)
  create_start rest = bind_ok _ _ (lock-run user_lock s r.user_free) (
      bind_ok _ _ (search-run name (locked s) l.found)
        (bind_ok _ _ (get_user_count_in_a_session-run id rw_mutex (locked s) r.rw_free) refl))

  create_closed :
      (b : Bool)
      → (count_in_session id s.user_list == 0) ≡ b
      → unlock user_lock (
          if b
          then posted u.socket_fd
              (wire Kind.ns_ack name id)
              (record (locked s) { user_list = modify s.user_list i (found_session id) })
          else posted u.socket_fd
              (wire Kind.new_sess name (session_response_message session_exists))
              (locked s))
        ≡ ok tt (create_result name id s i u)
  unfolding create_result unlock
  create_closed true h = rw (h, create_result) (rw r.user_free)
  create_closed false h = rw (h, create_result) (rw r.user_free)

  -- A request to create a session changes the user if nobody has that session, and is refused
  -- otherwise.
  pub server_side_session_create-run :
      server_side_session_create name id s ≡ ok tt (create_result name id s i u)
  unfolding server_side_session_create assign refuse
  server_side_session_create-run = elim (Bool-cases (count_in_session id s.user_list == 0)) [
    | inl h ↦
        create_start _
        ∙ bind_ok _ _
            (if_true _ _ h (
              bind_ok _ _ (deref-run i (locked s) l.at) (
                bind_ok _ _ (rw (strcpy_fits max_session_length id fits)) (
                  bind_ok _ _ refl (
                    fill_and_send_message-posted u.socket_fd Kind.ns_ack name id
                      (record (locked s) { user_list = modify s.user_list i (found_session id) })
                      (omega arith) n t)))))
            (create_closed true h)
    | inr h ↦
        create_start _
        ∙ bind_ok _ _
            (if_false _ _ h (
              bind_ok _ _ (deref-run i (locked s) l.at) (
                fill_and_send_message-posted u.socket_fd Kind.new_sess name
                  (session_response_message session_exists) (locked s) (omega arith) n
                  (session_response_message-IsText session_exists))))
            (create_closed false h)
  ]
