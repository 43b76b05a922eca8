-- ===== src/Server/Admin/Run.antt =====
-- server_side_kick_user and server_side_promote_user: what they leave on every branch.
use ece.Base.{ℕ, ◌≡◌, refl, ◌∙◌, ◌≢◌, some, none, Option, arith, Bytes, modify, [], codes}
use ece.Message.Kind
use ece.Message.RoundTrip.{IsName}
use ece.Store.{
  User, Server, ok, M, ◌>>=◌, ◌>>◌, user_lock, lock, unlock, deref, assign, offline, user, admin,
  not_in_session,
}
use ece.Store.Laws.{
  posted, wire, locked, bind_ok, lock-run, deref-run, IsText, IsControl,
  fill_and_send_message-posted, fill_and_send_message-none,
}
use ece.Database.{database_search_user, find_user}
use ece.Database.Laws.{get_elem?-modify_ne}
use ece.Server.Session.Leave.{server-IsName}
use ece.Database.Run.{search-run, database_search_user-run, Ready, Located}
use ece.Server.Session.{
  SessionError, user_does_not_exist, session_response_message, session_response_message-IsText,
  refuse,
}
use ece.Server.Admin.{refusal, server_side_kick_user, server_side_promote_user}

-- What a kick does to its target.
abbrev pub expel : User → User
expel u = record u { in_session = offline; session_id = not_in_session }

abbrev pub make_admin : User → User
make_admin u = record u { role = admin }

abbrev pub make_user : User → User
make_user u = record u { role = user }

-- The state after a refused request of the user `v`.
abbrev pub refused_result : ℕ → Bytes → User → SessionError → Server → Server
refused_result type sender v e s =
    posted v.socket_fd (wire type sender (session_response_message e)) s

abbrev pub kick_result : Bytes → Server → ℕ → User → User → Server
kick_result sender s i t v = posted v.socket_fd (wire Kind.ki_ack sender t.username) (
    posted t.socket_fd (wire Kind.ki_message (codes "server") v.session_id)
      (record s { user_list = modify s.user_list i expel }))

abbrev pub promote_result : Bytes → Server → ℕ → ℕ → User → User → Server
promote_result sender s i j t v = posted v.socket_fd (wire Kind.pm_ack sender t.username) (
    posted t.socket_fd (wire Kind.pm_message (codes "server") [])
      (record s { user_list = modify (modify s.user_list i make_admin) j make_user }))

-- `v`, at `j`, asks for something to be done to `target`.
module _ (sender target : Bytes) (s : Server) (j : ℕ) (v : User) (r : Ready s)
    (l : Located sender s j v) (n : IsName sender) where
  refuse-run :
      (type : ℕ) (e : SessionError)
      → IsControl type
      → refuse v type sender e (locked s) ≡ ok tt (refused_result type sender v e (locked s))
  unfolding refuse
  refuse-run type e c =
      fill_and_send_message-posted v.socket_fd type sender (session_response_message e) (locked s) c
        n (session_response_message-IsText e)

  -- The part before the tests.
  admin_start :
      (rest : Option ℕ → Option ℕ → User → M (Unit {0}))
      → (do
        lock user_lock
        t ← database_search_user target
        p ← database_search_user sender
        sender_user ← deref p
        rest t p sender_user)
          s
        ≡ rest (find_user target s.user_list) (some j) v (locked s)
  admin_start rest = bind_ok _ _ (lock-run user_lock s r.user_free) (
      bind_ok _ _ (database_search_user-run target (locked s)) (
        bind_ok _ _ (search-run sender (locked s) l.found)
          (bind_ok _ _ (deref-run j (locked s) l.at) refl)))

  pub kick_missing :
      find_user target s.user_list ≡ none
      → server_side_kick_user sender target s
        ≡ ok tt (refused_result Kind.ki_nak sender v user_does_not_exist s)
  unfolding server_side_kick_user unlock
  kick_missing h =
      admin_start _
      ∙ rw h
          (bind_ok _ _ (refuse-run Kind.ki_nak user_does_not_exist (omega arith)) (rw r.user_free))

  pub promote_missing :
      find_user target s.user_list ≡ none
      → server_side_promote_user sender target s
        ≡ ok tt (refused_result Kind.pm_nak sender v user_does_not_exist s)
  unfolding server_side_promote_user unlock
  promote_missing h =
      admin_start _
      ∙ rw h
          (bind_ok _ _ (refuse-run Kind.pm_nak user_does_not_exist (omega arith)) (rw r.user_free))

  module _ (i : ℕ) (t : User) (k : Located target s i t) where
    pub kick_refused :
        (e : SessionError)
        → refusal t v ≡ some e
        → server_side_kick_user sender target s ≡ ok tt (refused_result Kind.ki_nak sender v e s)
    unfolding server_side_kick_user unlock
    kick_refused e h =
        admin_start _
        ∙ rw k.found (
            bind_ok _ _ {t = refused_result Kind.ki_nak sender v e (locked s)}
              (bind_ok _ _ (deref-run i (locked s) k.at)
                (rw h (refuse-run Kind.ki_nak e (omega arith))))
              (rw r.user_free))

    pub promote_refused :
        (e : SessionError)
        → refusal t v ≡ some e
        → server_side_promote_user sender target s ≡ ok tt (refused_result Kind.pm_nak sender v e s)
    unfolding server_side_promote_user unlock
    promote_refused e h =
        admin_start _
        ∙ rw k.found (
            bind_ok _ _ {t = refused_result Kind.pm_nak sender v e (locked s)}
              (bind_ok _ _ (deref-run i (locked s) k.at)
                (rw h (refuse-run Kind.pm_nak e (omega arith))))
              (rw r.user_free))

    module _ (apart : i ≢ j) (allowed : refusal t v ≡ none) (id : IsText v.session_id)
        (m : IsText t.username) where
      kicked : Server
      kicked = record (locked s) { user_list = modify s.user_list i expel }

      pub kick_allowed : server_side_kick_user sender target s ≡ ok tt (kick_result sender s i t v)
      unfolding server_side_kick_user unlock assign kicked
      kick_allowed =
          admin_start _
          ∙ rw k.found (
              bind_ok _ _ {t = kick_result sender (locked s) i t v}
                (bind_ok _ _ (deref-run i (locked s) k.at) (
                  rw allowed (
                    bind_ok _ _ refl (
                      bind_ok _ _
                        (deref-run j kicked
                          (get_elem?-modify_ne expel s.user_list i j apart ∙ l.at))
                        (bind_ok _ _
                          (fill_and_send_message-posted t.socket_fd Kind.ki_message (codes "server")
                            v.session_id kicked (omega arith) server-IsName id)
                          (fill_and_send_message-posted v.socket_fd Kind.ki_ack sender t.username _
                            (omega arith) n m))))))
                (rw r.user_free))

      promoted : Server
      promoted = record (locked s) {
        user_list = modify (modify s.user_list i make_admin) j make_user;
      }

      pub promote_allowed :
          server_side_promote_user sender target s ≡ ok tt (promote_result sender s i j t v)
      unfolding server_side_promote_user unlock assign promoted
      promote_allowed =
          admin_start _
          ∙ rw k.found (
              bind_ok _ _ {t = promote_result sender (locked s) i j t v}
                (bind_ok _ _ (deref-run i (locked s) k.at) (
                  rw allowed (
                    bind_ok _ _ refl (
                      bind_ok _ _ refl (
                        bind_ok _ _
                          (fill_and_send_message-none t.socket_fd Kind.pm_message (codes "server")
                            promoted (omega arith) server-IsName)
                          (fill_and_send_message-posted v.socket_fd Kind.pm_ack sender t.username _
                            (omega arith) n m))))))
                (rw r.user_free))
