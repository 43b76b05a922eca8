-- ===== src/Server/Threads/Steps.antt =====
-- What server_side_user_exit does in its parts, and what a login and a registration leave alone.
use ece.Base.{
  ℕ, ◌≡◌, refl, ◌∙◌, sym, ◌≢◌, ◌<◌, inl, inr, Bool-cases, Option-cases, Option, some, none, arith,
  Bytes, modify, get_elem?, ◌==◌, Bool, false, subst, if◌then◌else◌, length, length-modify, leb,
}
use ece.Message.RoundTrip.{IsName}
use ece.Store.{
  User, Server, Outcome, M, ok, stop, pure, deref, ◌>>=◌, ◌>>◌, user_lock, lock, unlock, assign,
  online, offline, max_address_length, max_password_length,
}
use ece.Store.Laws.{bind_ok, lock-run, deref-run}
use ece.Database.{
  leave_session, find_user, add_user_success, user_list_full, user_already_exist, max_user_count,
}
use ece.Database.Run.{Located, search-run}
use ece.Server.Login.{Peer, get_user_ip_address_and_port, user_registration}
use ece.Server.Login.Registration.{
  registered, user_registration_full, user_registration_taken, user_registration_new,
}
use ece.Server.Session.{server_side_session_leave, server_side_user_exit}
use ece.Server.Session.Leave.{leave_result, log_out, server_side_session_leave-run}
use ece.Server.Invariant.{IsValid}
use ece.Server.Invariant.Table.{log_out-IsTable}
use ece.Server.Safety.{
  LoggedIn, with_table, this-IsUser, outside_false, leave_result-IsValid, at_left,
}
use ece.Server.Reachable.{ok_state}
use ece.Server.Threads.Kept.{Kept-refl}
use ece.Server.Threads.Requests.{Quiet, left_users-Quiet}
use ece.Server.Threads.{exit_check, exit_leave, exit_clear}

module _ (name : Bytes) (s : Server) (i : ℕ) (u : User) (l : Located name s i u) where
  pub exit_check-run : exit_check name s ≡ ok (some i, u.in_session == online) s
  unfolding exit_check
  exit_check-run = bind_ok _ _ (search-run name s l.found) (bind_ok _ _ (deref-run i s l.at) refl)

abbrev pub cleared : ℕ → Server → Server
cleared i s = record s { user_list = modify s.user_list i log_out }

pub exit_clear-run :
    (i : ℕ) (s : Server) → s.user_list_mutex ≡ false → exit_clear (some i) s ≡ ok tt (cleared i s)
unfolding exit_clear
exit_clear-run i s free = bind_ok _ _ (lock-run user_lock s free) (bind_ok _ _ refl (rw free refl))

pub cleared-IsValid :
    (i : ℕ) (s : Server) (u : User)
    → IsValid s
    → get_elem? s.user_list i ≡ some u
    → u.in_session ≡ offline
    → IsValid (cleared i s)
cleared-IsValid i s u v at out =
    with_table s (modify s.user_list i log_out) s.sent v
      (log_out-IsTable s.user_list i u v.table at out) (length-modify s.user_list i log_out)

-- What the first half leaves: a valid state, with the user of that name at the same place, online and
-- outside of every session.
pub record HasLeft (name : Bytes) (i : ℕ) (s t : Server) : Type 0 where
  pub valid : IsValid t
  pub quiet : Quiet name s.user_list t.user_list
  pub entry : User
  pub still : LoggedIn name t i entry
  pub outside : entry.in_session ≡ offline

module _ (name : Bytes) (s t : Server) (i : ℕ) (u : User) (v : IsValid s)
    (l : LoggedIn name s i u) where
  stays_out : u.in_session ≢ online → t ≡ s → HasLeft name i s t
  stays_out out e = subst (HasLeft name i s) (sym e) (record {
    valid = v;
    quiet = Kept-refl _ _ s.user_list;
    entry = u;
    still = l;
    outside = ground (arith, (this-IsUser name s i u v l).place);
  })

  goes_out : u.in_session ≡ online → t ≡ leave_result s i u → HasLeft name i s t
  goes_out inside e =
      let proper : u.in_session ≢ offline = ground arith in
      let quiet = left_users-Quiet name u.session_id s.user_list i in
      let at = at_left name s i u v l proper in
      let (w, found, there, status, out) = quiet name i u l.located.found l.located.at in
      subst (HasLeft name i s) (sym e) (record {
        valid = leave_result-IsValid name s i u v l proper;
        quiet = quiet;
        entry = leave_session u;
        still = record { located = record { found = found; at = at }; present = l.present };
        outside = refl;
      })

  pub exit_leave-HasLeft : exit_leave name (u.in_session == online) s ≡ ok tt t → HasLeft name i s t
  unfolding exit_leave
  exit_leave-HasLeft h = elim (Bool-cases (u.in_session == online)) [
    | inl e ↦
        let inside : u.in_session ≡ online = ground arith in
        let proper : u.in_session ≢ offline = ground arith in
        goes_out inside (
          ok_state (rw (e, exit_leave) at h) (
            server_side_session_leave-run name s i u v.ready l.located
              (outside_false name s i u v l proper) (this-IsUser name s i u v l).id_fits proper))
    | inr e ↦ stays_out (ground arith) (ok_state (rw (e, exit_leave) at h) refl)
  ]

-- A registration that succeeds is that of a new name.
module _ (peer : ℕ → Peer) (name word : Bytes) (fd : ℕ) (address : Bytes) (port : ℕ) (s t : Server)
    (v : IsValid s) (n : IsName name) (fits : length word < max_password_length)
    (from : get_user_ip_address_and_port peer fd ≡ some (address, port))
    (address_fits : length address < max_address_length) (room : length s.user_list < s.capacity)
    (h : user_registration peer name word fd s ≡ ok add_user_success t) where
  pub registers_new :
      (find_user name s.user_list ≡ none)
      × (t ≡ registered peer name word fd address port s v n fits from address_fits)
  registers_new = elim (Bool-cases (leb max_user_count (length s.user_list))) [
    | inl e ↦ absurd (
        other_code (
          sym (
            user_registration_full peer name word fd address port s v n fits from address_fits
              (ground arith))
          ∙ h))
    | inr e ↦ elim (Option-cases (find_user name s.user_list)) [
      | inl fresh ↦ (
        fresh,
        ok_state h (
            user_registration_new peer name word fd address port s v n fits from address_fits
              (ground arith) fresh room),
      )
      | inr (i, found) ↦ absurd (
          taken_code (
            sym (
              user_registration_taken peer name word fd address port s v n fits from address_fits
                (ground arith) i found)
            ∙ h))
    ]
  ]
    where
      other_code : ok user_list_full s ≡ ok add_user_success t → ⊥
      other_code e = cc

      taken_code : ok user_already_exist s ≡ ok add_user_success t → ⊥
      taken_code e = cc

-- server_side_user_exit is its parts, one behind the other.
abbrev pub exit_in_parts : Bytes → M (Unit {0})
exit_in_parts name = do seen ← exit_check name; exit_leave name seen.1; exit_clear seen.0

module _ (name : Bytes) where
  same_rest :
      (p : Option ℕ) (s : Server) (o : Outcome User)
      → deref p s ≡ o
      → (do
        u ← deref p
        if u.in_session == online then server_side_session_leave name else pure tt
        lock user_lock
        assign p log_out
        unlock user_lock)
          s
        ≡ (do
          seen ← ◌>>=◌ {B = Option ℕ × Bool} (deref p) (λ u. pure (p, u.in_session == online))
          exit_leave name seen.1
          exit_clear seen.0)
            s
  unfolding exit_leave exit_clear ◌>>=◌
  same_rest p s (ok u t) e = rw (e, ◌>>=◌) refl
  same_rest p s (stop x) e = rw (e, ◌>>=◌) refl

  -- server_side_user_exit does in every state what its test, the leaving of the session that the test
  -- decides, and the clearing of the entry do one after the other.
  pub server_side_user_exit-parts :
      (s : Server) → server_side_user_exit name s ≡ exit_in_parts name s
  unfolding server_side_user_exit exit_check exit_leave exit_clear ◌>>=◌ same_rest
  server_side_user_exit-parts s = same_rest (find_user name s.user_list) s _ refl
