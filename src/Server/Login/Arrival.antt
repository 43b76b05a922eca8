-- ===== src/Server/Login/Arrival.antt =====
-- user_login, and the branch LOGIN of connection_handler for a user that verify_login lets in.
use ece.Base.{
  List, ◌<◌, ℕ, ◌≡◌, refl, ◌∙◌, inl, some, arith, Bytes, length, length-modify, get_elem?, modify,
}
use ece.Store.{User, Server, ok, user_lock, unlock, assign, online, max_address_length}
use ece.Store.Laws.{bind_ok, lock-run, strcpy-run, locked}
use ece.Database.Laws.{All_at, count_in_session-modify, get_elem?-modify_self}
use ece.Database.Run.{Located, search-run}
use ece.Server.Invariant.{IsUser, IsTable, IsValid}
use ece.Server.Invariant.Table.{modify-IsTable, count_admins-modify}
use ece.Server.Login.{Peer, get_user_ip_address_and_port, user_login}
use ece.Server.Safety.{with_table}

-- The first write of `user_login`.
abbrev pub arrive : ℕ → User → User
arrive fd u = record u { socket_fd = fd; status = online }

-- Its second write.
abbrev pub note_address : Bytes → ℕ → User → User
note_address address port u = record u { port = port; ip_address = address }

arrive-IsTable :
    (fd : ℕ) (us : List User) (i : ℕ) (u : User)
    → IsTable us
    → get_elem? us i ≡ some u
    → IsTable (modify us i (arrive fd))
arrive-IsTable fd us i u t at =
    let this = All_at IsUser us i t.users at in
    modify-IsTable (arrive fd) us i u t at (λ v. refl)
      (record {
        name = this.name;
        word = this.word;
        id_text = this.id_text;
        id_fits = this.id_fits;
        place = this.place;
        rank = this.rank;
        presence = inl refl;
      })
      (λ k hk. ground (arith, count_in_session-modify (arrive fd) k us i u at, t.sizes k hk))
      (λ k hk. ground (arith, count_admins-modify k (arrive fd) us i u at, t.admins k hk))

note_address-IsTable :
    (address : Bytes) (port : ℕ) (us : List User) (i : ℕ) (u : User)
    → IsTable us
    → get_elem? us i ≡ some u
    → IsTable (modify us i (note_address address port))
note_address-IsTable address port us i u t at =
    let this = All_at IsUser us i t.users at in
    let f = note_address address port in
    modify-IsTable f us i u t at (λ v. refl)
      (record {
        name = this.name;
        word = this.word;
        id_text = this.id_text;
        id_fits = this.id_fits;
        place = this.place;
        rank = this.rank;
        presence = this.presence;
      })
      (λ k hk. ground (arith, count_in_session-modify f k us i u at, t.sizes k hk))
      (λ k hk. ground (arith, count_admins-modify k f us i u at, t.admins k hk))

module _ (peer : ℕ → Peer) (name : Bytes) (fd : ℕ) (address : Bytes) (port : ℕ) (s : Server) (i : ℕ)
    (u : User) (v : IsValid s) (l : Located name s i u)
    (from : get_user_ip_address_and_port peer fd ≡ some (address, port))
    (address_fits : length address < max_address_length) where
  -- The table after a login.
  abbrev pub arrived : List User
  arrived = modify (modify s.user_list i (arrive fd)) i (note_address address port)

  first : Server
  first = record (locked s) { user_list = modify s.user_list i (arrive fd) }

  pub user_login-run : user_login peer name online fd s ≡ ok tt (record s { user_list = arrived })
  unfolding user_login assign unlock first
  user_login-run = bind_ok _ _ (lock-run user_lock s v.ready.user_free) (
      bind_ok _ _ (search-run name (locked s) l.found) (
        bind_ok _ _ {t = first} {a = tt} refl (
          bind_ok _ _ {t = first} {a = (address, port)} (rw from refl) (
            bind_ok _ _ (strcpy-run max_address_length address first address_fits)
              (bind_ok _ _ refl (rw v.ready.user_free refl))))))

  -- user_login of a user in the table of a valid state, from a socket whose address is known and
  -- fits its array, returns and leaves a valid state in which the user's entry is online with that
  -- socket, address and port.
  pub user_login-IsValid :
      (t : Server) × (user_login peer name online fd s ≡ ok tt t)
      × IsValid t
      × (get_elem? t.user_list i ≡ some (note_address address port (arrive fd u)))
  user_login-IsValid =
      let there = get_elem?-modify_self (arrive fd) s.user_list i l.at in
      (
        _,
        user_login-run,
        with_table s arrived s.sent v
            (note_address-IsTable address port (modify s.user_list i (arrive fd)) i (arrive fd u)
              (arrive-IsTable fd s.user_list i u v.table l.at) there)
            (length-modify (modify s.user_list i (arrive fd)) i (note_address address port)
              ∙ length-modify s.user_list i (arrive fd)),
        get_elem?-modify_self (note_address address port) (modify s.user_list i (arrive fd)) i
            there,
      )
