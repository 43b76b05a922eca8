-- ===== src/Server/Session/Join.antt =====
-- server_side_session_join.
use ece.Base.{
  ℕ, ◌≡◌, refl, ◌<◌, some, none, Option, arith, Bytes, length, modify, ◌==◌, if◌then◌else◌,
  Bool-cases, inl, inr, strcpy, ◌∙◌, strcpy_fits,
}
use ece.Message.Kind
use ece.Message.RoundTrip.{IsName}
use ece.Store.{
  unlock, lift, overflow, assign, lock, M, ◌>>=◌, ◌>>◌, deref, User, Server, ok, rw as rw_mutex,
  user_lock, online, max_session_length, fill_and_send_message,
}
use ece.Store.Laws.{
  posted, wire, locked, bind_ok, if_true, if_false, lock-run, deref-run, IsText,
  fill_and_send_message-posted,
}
use ece.Database.{
  count_in_session, max_session_user, get_user_count_in_a_session, database_search_user,
}
use ece.Database.Run.{search-run, Ready, Located, get_user_count_in_a_session-run}
use ece.Server.Session.{
  SessionError, session_name_invalid, session_at_full_capacity, user_name_in_session,
  session_response_message, session_response_message-IsText, server_side_session_join, refuse,
}

-- Why a user who asks for a session of `count` users is refused.
unfoldable pub join_refusal : ℕ → User → Option SessionError
join_refusal count u =
    if u.in_session == online
    then some user_name_in_session
    else if count == 0
    then some session_name_invalid
    else if count == max_session_user
    then some session_at_full_capacity
    else none

-- What joining does to the user.
abbrev pub enter : Bytes → User → User
enter id u = record u { session_id = id; in_session = online }

unfoldable pub join_result : Bytes → Bytes → Server → ℕ → User → Server
unfolding join_refusal
join_result name id s i u = elim (join_refusal (count_in_session id s.user_list) u) [
  | some e ↦ posted u.socket_fd (wire Kind.jn_nak name (session_response_message e)) s
  | none ↦
      posted u.socket_fd (wire Kind.jn_ack name id)
        (record s { user_list = modify s.user_list i (enter id) })
]

module _ (name id : Bytes) (s : Server) (i : ℕ) (u : User) (r : Ready s) (l : Located name s i u)
    (n : IsName name) where
  -- The part before the tests.
  join_start :
      (rest : Option ℕ → ℕ → User → M (Unit {0}))
      → (do
        lock user_lock
        p ← database_search_user name
        count ← get_user_count_in_a_session id rw_mutex
        v ← deref p
        rest p count v)
          s
        ≡ rest (some i) (count_in_session id s.user_list) u (locked s)
  join_start rest = bind_ok _ _ (lock-run user_lock s r.user_free) (
      bind_ok _ _ (search-run name (locked s) l.found) (
        bind_ok _ _ (get_user_count_in_a_session-run id rw_mutex (locked s) r.rw_free)
          (bind_ok _ _ (deref-run i (locked s) l.at) refl)))

  refuse-run :
      (e : SessionError)
      → refuse u Kind.jn_nak name e (locked s)
        ≡ ok tt (posted u.socket_fd (wire Kind.jn_nak name (session_response_message e)) (locked s))
  unfolding refuse
  refuse-run e =
      fill_and_send_message-posted u.socket_fd Kind.jn_nak name (session_response_message e)
        (locked s) (omega arith) n (session_response_message-IsText e)

  refused :
      (e : SessionError)
      → join_refusal (count_in_session id s.user_list) u ≡ some e
      → unlock user_lock
          (posted u.socket_fd (wire Kind.jn_nak name (session_response_message e)) (locked s))
        ≡ ok tt (join_result name id s i u)
  unfolding join_result unlock
  refused e h = rw (h, join_result) (rw r.user_free)

  admitted :
      join_refusal (count_in_session id s.user_list) u ≡ none
      → unlock user_lock (
          posted u.socket_fd
            (wire Kind.jn_ack name id)
            (record (locked s) { user_list = modify s.user_list i (enter id) }))
        ≡ ok tt (join_result name id s i u)
  unfolding join_result unlock
  admitted h = rw (h, join_result) (rw r.user_free)

  module _ (t : IsText id) (fits : length id < max_session_length) where
    admit-run :
        (do
          session ← lift overflow (strcpy max_session_length id)
          assign (some i) (λ v. record v { session_id = session; in_session = online })
          fill_and_send_message u.socket_fd Kind.jn_ack name (some id))
          (locked s)
        ≡ ok tt (
            posted u.socket_fd
              (wire Kind.jn_ack name id)
              (record (locked s) { user_list = modify s.user_list i (enter id) }))
    unfolding assign
    admit-run = bind_ok _ _ (rw (strcpy_fits max_session_length id fits)) (
        bind_ok _ _ refl (
          fill_and_send_message-posted u.socket_fd Kind.jn_ack name id
            (record (locked s) { user_list = modify s.user_list i (enter id) }) (omega arith) n t))

    -- A request to join, with the mutexes free, the user in the table, a name and a session name
    -- that fit their arrays, returns with both mutexes free and one answer sent: a refusal if the
    -- user is in a session, nobody has the session, or it has six users, in that order; otherwise
    -- the user's entry gets the session and the answer is JN_ACK.
    pub server_side_session_join-run :
        server_side_session_join name id s ≡ ok tt (join_result name id s i u)
    unfolding server_side_session_join join_refusal
    server_side_session_join-run = elim (Bool-cases (u.in_session == online)) [
      | inl a ↦
          join_start _
          ∙ bind_ok _ _ (if_true _ _ a (refuse-run user_name_in_session))
              (refused user_name_in_session (ground arith))
      | inr a ↦ elim (Bool-cases (count_in_session id s.user_list == 0)) [
        | inl b ↦
            join_start _
            ∙ bind_ok _ _ (if_false _ _ a (if_true _ _ b (refuse-run session_name_invalid)))
                (refused session_name_invalid (ground arith))
        | inr b ↦ elim (Bool-cases (count_in_session id s.user_list == max_session_user)) [
          | inl c ↦
              join_start _
              ∙ bind_ok _ _
                  (if_false _ _ a
                    (if_false _ _ b (if_true _ _ c (refuse-run session_at_full_capacity))))
                  (refused session_at_full_capacity (ground arith))
          | inr c ↦
              join_start _
              ∙ bind_ok _ _ (if_false _ _ a (if_false _ _ b (if_false _ _ c admit-run)))
                  (admitted (ground arith))
        ]
      ]
    ]
