-- ===== src/Server/Session/Leave.antt =====
-- server_side_session_leave and server_side_user_exit: what they leave, and the mutex that an early
-- return keeps.
use ece.Base.{
  ℕ, ◌≡◌, refl, ap, ◌∙◌, ◌<◌, ◌≢◌, Bool-cases, inl, inr, some, Option, Bool, true, false, arith,
  Bytes, List, [], ◌∷◌, ◌++◌, append_assoc, append-nil, map, length, modify, ◌==◌, ==_eq, ==_ne,
  if◌then◌else◌, strcpy, str_eq, codes,
}
use ece.Message.Kind
use ece.Message.RoundTrip.{IsName}
use ece.Store.{
  deref, lift, overflow, pure, User, Server, ok, M, ◌>>=◌, ◌>>◌, rw as rw_mutex, user_lock, lock,
  unlock, assign, online, offline, admin, max_session_length, not_in_session,
}
use ece.Store.Laws.{
  wire, locked, bind_ok, if_true, if_false, lock-run, deref-run, strcpy-run,
  fill_and_send_message-none,
}
use ece.Database.{
  count_in_session, database_search_user, return_user_by_username, user_exit_current_session,
  leave_session, promote_in_session, set_the_only_user_admin,
}
use ece.Database.Run.{search-run, return_user-run, Ready, Located, get_user_count_in_a_session-run}
use ece.Server.Session.{server_side_session_leave, server_side_user_exit, notify_admins}

-- The table after the user at `i` has left the session `id`: a user who is alone in it is its admin.
unfoldable pub left_users : Bytes → ℕ → List User → List User
left_users id i us =
    let rest = modify us i leave_session in
    if count_in_session id rest == 1 then map (promote_in_session id) rest else rest

-- One notice for each admin in the table, in its order.
unfoldable pub admin_notices : List User → List (ℕ × Bytes)
admin_notices [] = []
admin_notices (u ∷ us) =
    (if u.role == admin then (u.socket_fd, wire Kind.pm_message (codes "server") []) ∷ [] else [])
    ++ admin_notices us

pub server-IsName : IsName (codes "server")
server-IsName = omega arith

notify_admins-run :
    (us : List User) (s : Server)
    → notify_admins us s ≡ ok tt (record s { sent = s.sent ++ admin_notices us })
unfolding notify_admins admin_notices
notify_admins-run [] s = rw (append-nil s.sent)
notify_admins-run (u ∷ us) s = elim (Bool-cases (u.role == admin)) [
  | inl h ↦
      bind_ok _ _
        (if_true _ _ h (
          fill_and_send_message-none u.socket_fd Kind.pm_message (codes "server") s (omega arith)
            server-IsName))
        (notify_admins-run us _
          ∙ rw h
              (ap (λ l. ok tt (record s { sent = l })) (append_assoc s.sent _ (admin_notices us))))
  | inr h ↦ bind_ok _ _ (if_false _ _ h refl) (notify_admins-run us s ∙ rw h refl)
]

set_the_only_user_admin-run :
    (id : Bytes) (s : Server)
    → s.rw_mutex ≡ false
    → set_the_only_user_admin id rw_mutex s
      ≡ ok tt (record s { user_list = map (promote_in_session id) s.user_list })
unfolding set_the_only_user_admin
set_the_only_user_admin-run id s free =
    bind_ok _ _ (lock-run rw_mutex s free) (bind_ok _ _ refl (rw free))

module _ (name : Bytes) (s : Server) (i : ℕ) (u : User) (free : s.rw_mutex ≡ false)
    (l : Located name s i u) where
  -- The part before the test, with the mutex held.
  exit_start :
      (rest : Option ℕ → User → Bytes → M (Unit {0}))
      → length u.session_id < max_session_length
      → (do
        lock rw_mutex
        p ← return_user_by_username name
        v ← deref p
        id ← lift overflow (strcpy max_session_length v.session_id)
        rest p v id)
          s
        ≡ rest (some i) u u.session_id (record s { rw_mutex = true })
  exit_start rest fits = bind_ok _ _ (lock-run rw_mutex s free) (
      bind_ok _ _ (return_user-run name (record s { rw_mutex = true }) l.found) (
        bind_ok _ _ (deref-run i (record s { rw_mutex = true }) l.at)
          (bind_ok _ _ (strcpy-run max_session_length u.session_id _ fits) refl)))

  left : Server
  left = record s { user_list = modify s.user_list i leave_session }

  exit_end :
      (b : Bool)
      → (count_in_session u.session_id (modify s.user_list i leave_session) == 1) ≡ b
      → (if b then set_the_only_user_admin u.session_id rw_mutex else pure tt) left
        ≡ ok tt (record s { user_list = left_users u.session_id i s.user_list })
  unfolding left_users left
  exit_end true h = set_the_only_user_admin-run u.session_id left free ∙ rw (h, left_users)
  exit_end false h = rw (h, left_users)

  user_exit_current_session-run :
      str_eq u.session_id not_in_session ≡ false
      → length u.session_id < max_session_length
      → user_exit_current_session name rw_mutex s
        ≡ ok tt (record s { user_list = left_users u.session_id i s.user_list })
  unfolding user_exit_current_session left
  user_exit_current_session-run h fits =
      exit_start _ fits
      ∙ if_false _ _ h (
          bind_ok _ _ refl (
            bind_ok _ _ (rw free) (
              bind_ok _ _ (get_user_count_in_a_session-run u.session_id rw_mutex left free) (
                bind_ok _ _ (get_user_count_in_a_session-run u.session_id rw_mutex left free)
                  (exit_end _ refl)))))

abbrev pub leave_result : Server → ℕ → User → Server
leave_result s i u = record s {
  user_list = left_users u.session_id i s.user_list;
  sent = s.sent ++ admin_notices (left_users u.session_id i s.user_list);
}

-- What logging out does to the user.
abbrev pub log_out : User → User
log_out u = record u { status = offline; socket_fd = offline; port = offline; ip_address = [] }

unfoldable pub exit_result : Server → ℕ → User → Server
exit_result s i u =
    let t = if u.in_session == online then leave_result s i u else s in
    record t { user_list = modify t.user_list i log_out }

module _ (name : Bytes) (s : Server) (i : ℕ) (u : User) (r : Ready s) (l : Located name s i u) where
  leave_start :
      (rest : Option ℕ → User → M (Unit {0}))
      → (do lock user_lock; p ← database_search_user name; v ← deref p; rest p v) s
        ≡ rest (some i) u (locked s)
  leave_start rest = bind_ok _ _ (lock-run user_lock s r.user_free) (
      bind_ok _ _ (search-run name (locked s) l.found)
        (bind_ok _ _ (deref-run i (locked s) l.at) refl))

  -- Leaving without being in a session returns with the mutex held.
  pub server_side_session_leave_outside :
      u.in_session ≡ offline → server_side_session_leave name s ≡ ok tt (locked s)
  unfolding server_side_session_leave
  server_side_session_leave_outside h = leave_start _ ∙ if_true _ _ (==_eq _ _ h) refl

  exit_unlock :
      (b : Bool)
      → (u.in_session == online) ≡ b
      → (do lock user_lock; assign (some i) log_out; unlock user_lock)
          (if b then leave_result s i u else s)
        ≡ ok tt (exit_result s i u)
  unfolding exit_result assign unlock
  exit_unlock true h =
      bind_ok _ _ (lock-run user_lock (leave_result s i u) r.user_free)
        (bind_ok _ _ refl (rw (h, exit_result) (rw r.user_free)))
  exit_unlock false h =
      bind_ok _ _ (lock-run user_lock s r.user_free)
        (bind_ok _ _ refl (rw (h, exit_result) (rw r.user_free)))

  -- Logging out when in no session.
  pub server_side_user_exit_outside :
      u.in_session ≢ online → server_side_user_exit name s ≡ ok tt (exit_result s i u)
  unfolding server_side_user_exit
  server_side_user_exit_outside h = bind_ok _ _ (search-run name s l.found) (
      bind_ok _ _ (deref-run i s l.at)
        (bind_ok _ _ (if_false _ _ (==_ne _ _ h) refl) (exit_unlock false (==_ne _ _ h))))

  module _ (outside : str_eq u.session_id not_in_session ≡ false)
      (fits : length u.session_id < max_session_length) where
    after_leaving : Server
    after_leaving = record (locked s) { user_list = left_users u.session_id i s.user_list }

    -- A request to leave, with the mutexes free and the user in the table and in a session whose
    -- name fits its array, returns with both mutexes free: the user's entry is cleared, the last
    -- user who is left in the session is its admin, and PM_MESSAGE goes to every admin of every
    -- session.
    pub server_side_session_leave-run :
        u.in_session ≢ offline → server_side_session_leave name s ≡ ok tt (leave_result s i u)
    unfolding server_side_session_leave after_leaving
    server_side_session_leave-run h =
        leave_start _
        ∙ if_false _ _ (==_ne _ _ h) (
            bind_ok _ _ (strcpy-run max_session_length u.session_id _ fits) (
              bind_ok _ _
                (user_exit_current_session-run name (locked s) i u r.rw_free
                  (record { found = l.found; at = l.at }) outside fits)
                (bind_ok _ _ refl (
                  bind_ok _ _
                    (notify_admins-run (left_users u.session_id i s.user_list) after_leaving)
                    (rw r.user_free)))))

    exit_leave :
        (b : Bool)
        → (u.in_session == online) ≡ b
        → (if b then server_side_session_leave name else pure tt) s
          ≡ ok tt (if b then leave_result s i u else s)
    exit_leave true h = server_side_session_leave-run (ground arith)
    exit_leave false h = refl

    -- Logging out leaves the session first, if the user is in one.
    pub server_side_user_exit-run : server_side_user_exit name s ≡ ok tt (exit_result s i u)
    unfolding server_side_user_exit
    server_side_user_exit-run = bind_ok _ _ (search-run name s l.found) (
        bind_ok _ _ (deref-run i s l.at) (
          bind_ok _ _ (exit_leave (u.in_session == online) refl)
            (exit_unlock (u.in_session == online) refl)))
