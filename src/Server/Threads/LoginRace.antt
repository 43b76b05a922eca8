-- ===== src/Server/Threads/LoginRace.antt =====
-- Two threads of server.c that let one user in.
use ece.Base.{
  ℕ, List, ◌≡◌, refl, ◌∙◌, subst, ◌≢◌, ◌<◌, some, none, arith, Bytes, length, get_elem?, modify,
}
use ece.Message.RoundTrip.{IsName}
use ece.Store.{User, Server, ok, online, offline, max_address_length}
use ece.Database.{count_in_session, max_session_user}
use ece.Database.Laws.{
  All_at, find_user-names, names-modify, count_in_session-modify, get_elem?-modify_self,
}
use ece.Database.Run.{Located}
use ece.Server.Login.{Peer, success_login, get_user_ip_address_and_port, verify_login, user_login}
use ece.Server.Login.Verify.{verify_login-success_iff}
use ece.Server.Login.Arrival.{arrive, note_address, user_login-IsValid, user_login-run}
use ece.Server.Session.{server_side_session_join, server_side_user_exit}
use ece.Server.Session.Join.{join_refusal, join_result, enter, server_side_session_join-run}
use ece.Server.Session.Leave.{log_out, exit_result, server_side_user_exit_outside}
use ece.Server.Invariant.{IsUser, IsValid}
use ece.Server.Safety.{LoggedIn, IsSession, this_name}
use ece.Server.Reachable.{ok_state}
use ece.Server.Threads.Steps.{cleared, cleared-IsValid}

-- The state after a login of the user at `i`.
abbrev logged : ℕ → Bytes → ℕ → ℕ → Server → Server
logged fd address port i s = record s {
  user_list = modify (modify s.user_list i (arrive fd)) i (note_address address port);
}

abbrev arrival : ℕ → Bytes → ℕ → User → User
arrival fd address port u = note_address address port (arrive fd u)

-- A change that leaves names and sessions alone.
count-same :
    (f : User → User) (id : Bytes) (us : List User) (i : ℕ) (u : User)
    → get_elem? us i ≡ some u
    → (f u).session_id ≡ u.session_id
    → count_in_session id (modify us i f) ≡ count_in_session id us
count-same f id us i u at same = ground (arith, count_in_session-modify f id us i u at)

module _ (peer : ℕ → Peer) (name : Bytes) (fd : ℕ) (address : Bytes) (port : ℕ) (s : Server) (i : ℕ)
    (u : User) (v : IsValid s) (l : Located name s i u)
    (from : get_user_ip_address_and_port peer fd ≡ some (address, port))
    (fits : length address < max_address_length) where
  logged-Located : Located name (logged fd address port i s) i (arrival fd address port u)
  logged-Located =
      let first = modify s.user_list i (arrive fd) in
      record {
        found =
            find_user-names name (modify first i (note_address address port)) first
              (names-modify (note_address address port) first i (λ x. refl))
            ∙ find_user-names name first s.user_list
                (names-modify (arrive fd) s.user_list i (λ x. refl))
            ∙ l.found;
        at =
            get_elem?-modify_self (note_address address port) first i
              (get_elem?-modify_self (arrive fd) s.user_list i l.at);
      }

  logged-IsValid : IsValid (logged fd address port i s)
  logged-IsValid =
      let (t, run, valid, entry) =
        user_login-IsValid peer name fd address port s i u v l from fits in
      subst IsValid (ok_state run (user_login-run peer name fd address port s i u v l from fits))
        valid

  logged-count :
      (id : Bytes)
      → count_in_session id (logged fd address port i s).user_list ≡ count_in_session id s.user_list
  logged-count id =
      let first = modify s.user_list i (arrive fd) in
      count-same (note_address address port) id first i (arrive fd u)
        (get_elem?-modify_self (arrive fd) s.user_list i l.at) refl
      ∙ count-same (arrive fd) id s.user_list i u l.at refl

module _ (peer : ℕ → Peer) (name word : Bytes) (s : Server) (i : ℕ) (u : User) (v : IsValid s)
    (l : Located name s i u) (fd : ℕ) (address : Bytes) (port fd' : ℕ) (address' : Bytes)
    (port' : ℕ) (from : get_user_ip_address_and_port peer fd ≡ some (address, port))
    (fits : length address < max_address_length)
    (from' : get_user_ip_address_and_port peer fd' ≡ some (address', port'))
    (fits' : length address' < max_address_length) (away : u.status ≢ online) where
  first_login : Server
  first_login = logged fd address port i s

  first_entry : User
  first_entry = arrival fd address port u

  first-IsValid : IsValid first_login
  unfolding first_login
  first-IsValid = logged-IsValid peer name fd address port s i u v l from fits

  first-Located : Located name first_login i first_entry
  unfolding first_login first_entry
  first-Located = logged-Located peer name fd address port s i u v l from fits

  second_login : Server
  second_login = logged fd' address' port' i first_login

  second_entry : User
  second_entry = arrival fd' address' port' first_entry

  second-IsValid : IsValid second_login
  unfolding second_login
  second-IsValid =
      logged-IsValid peer name fd' address' port' first_login i first_entry first-IsValid
        first-Located from' fits'

  second-Located : Located name second_login i second_entry
  unfolding second_login second_entry
  second-Located =
      logged-Located peer name fd' address' port' first_login i first_entry first-IsValid
        first-Located from' fits'

  second_outside : second_entry.in_session ≡ offline
  unfolding second_entry first_entry
  second_outside = ground (arith, (All_at IsUser s.user_list i v.table.users l.at).presence, away)

  logged_out : Server
  logged_out = cleared i second_login

  logged_out-run : server_side_user_exit name second_login ≡ ok tt logged_out
  unfolding exit_result logged_out
  logged_out-run =
      server_side_user_exit_outside name second_login i second_entry second-IsValid.ready
        second-Located (ground (arith, second_outside))
      ∙ rw (second_outside, exit_result) refl

  gone : User
  gone = log_out second_entry

  logged_out-IsValid : IsValid logged_out
  unfolding logged_out
  logged_out-IsValid =
      cleared-IsValid i second_login second_entry second-IsValid second-Located.at second_outside

  gone-Located : Located name logged_out i gone
  unfolding logged_out gone
  gone-Located = record {
    found =
        find_user-names name (modify second_login.user_list i log_out) second_login.user_list
          (names-modify log_out second_login.user_list i (λ x. refl))
        ∙ second-Located.found;
    at = get_elem?-modify_self log_out second_login.user_list i second-Located.at;
  }

  logged_out-count :
      (id : Bytes) → count_in_session id logged_out.user_list ≡ count_in_session id s.user_list
  unfolding logged_out second_login first_login
  logged_out-count id =
      count-same log_out id second_login.user_list i second_entry second-Located.at refl
      ∙ logged-count peer name fd' address' port' first_login i first_entry first-IsValid
          first-Located from' fits' id
      ∙ logged-count peer name fd address port s i u v l from fits id

  name-IsName : IsName name
  name-IsName =
      let entry : LoggedIn name second_login i second_entry = record {
        located = second-Located;
        present = second_online;
      } in
      this_name name second_login i second_entry second-IsValid entry
    where
      second_online : second_entry.status ≡ online
      second_online = unfold second_entry in refl

  module _ (id : Bytes) (session : IsSession id) (somebody : 0 < count_in_session id s.user_list)
      (space : count_in_session id s.user_list < max_session_user) where
    joined : Server
    joined = join_result name id logged_out i gone

    joined-run : server_side_session_join name id logged_out ≡ ok tt joined
    unfolding joined
    joined-run =
        server_side_session_join-run name id logged_out i gone logged_out-IsValid.ready gone-Located
          name-IsName session.text session.fits

    allowed_in : join_refusal (count_in_session id logged_out.user_list) gone ≡ none
    unfolding join_refusal gone
    allowed_in = ground (arith, second_outside, logged_out-count id)

    ghost : get_elem? joined.user_list i ≡ some (enter id gone)
    unfolding joined join_result
    ghost =
        rw (allowed_in, join_result)
          (get_elem?-modify_self (enter id) logged_out.user_list i gone-Located.at)

    joined-broken : ¬ (IsValid joined)
    unfolding gone
    joined-broken broken =
        let entry = All_at IsUser joined.user_list i broken.table.users ghost in
        absurd (ground (arith, entry.presence))

    -- A user with the right password is not online at a valid state, and two threads call
    -- verify_login for that user before either calls user_login: both get SUCCESS_LOGIN. Then both
    -- calls of user_login return, and the entry holds the second socket. If the first thread then
    -- logs out, and the second asks to join a session of one to five users, both are carried out;
    -- the table is valid before the second request, and is not valid behind it.
    pub double_login :
        u.password ≡ word
        → (verify_login name word s ≡ ok success_login s)
          × (after_first after_second after_exit after_join : Server) × (e : User) × (user_login
                peer name online fd s
              ≡ ok tt after_first)
          × (user_login peer name online fd' after_first ≡ ok tt after_second)
          × (get_elem? after_second.user_list i ≡ some e)
          × (e.socket_fd ≡ fd')
          × (server_side_user_exit name after_second ≡ ok tt after_exit)
          × (server_side_session_join name id after_exit ≡ ok tt after_join)
          × IsValid after_exit
          × (¬ (IsValid after_join))
    unfolding first_login second_login second_entry
    double_login right = (
      (verify_login-success_iff name word s).1 (i, u, l, right, away),
      first_login,
      second_login,
      logged_out,
      joined,
      second_entry,
      user_login-run peer name fd address port s i u v l from fits,
      user_login-run peer name fd' address' port' first_login i first_entry first-IsValid
          first-Located from' fits',
      second-Located.at,
      refl,
      logged_out-run,
      joined-run,
      logged_out-IsValid,
      joined-broken,
    )
