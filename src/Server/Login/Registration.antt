-- ===== src/Server/Login/Registration.antt =====
-- user_registration: a new name, a name that is taken, and a table at its limit.
use ece.Base.{
  ℕ, ◌-◌, ◌≡◌, refl, ◌≤◌, ◌<◌, inl, inr, [], ◌∷◌, ◌++◌, List, some, none, Option, Option-cases,
  arith, Bytes, length, length-append, get_elem?, leb, Bool-cases, ◌||◌, ◌==◌, if◌then◌else◌,
}
use ece.Message.{max_name}
use ece.Message.RoundTrip.{IsName}
use ece.Store.{
  User, zero_user, Server, ok, Outcome, M, ◌>>=◌, ◌>>◌, lift, pure, uninitialised, rw as rw_mutex,
  user_lock, unlock, offline, online, user, not_in_session, max_address_length, max_password_length,
}
use ece.Store.Laws.{bind_ok, lock-run, deref-run, strcpy-run, locked}
use ece.Database.{
  find_user, get_user_count_in_database, user_database_add_user, add_user_success,
  user_already_exist, user_list_full, max_user_count,
}
use ece.Database.Run.{get_user_count_in_database-run}
use ece.Server.Invariant.{IsValid}
use ece.Server.Login.{Peer, get_user_ip_address_and_port, write_to_database, user_registration}
use ece.Server.Login.Register.{add_user_full, add_user_taken, add_user_new}
use ece.Server.Login.Safety.{IsNew, new_Fits, append-IsTable}

-- The user that a registration makes.
abbrev pub new_user : Bytes → Bytes → ℕ → Bytes → ℕ → User
new_user name word fd address port = record zero_user {
  username = name;
  password = word;
  session_id = not_in_session;
  ip_address = address;
  status = online;
  in_session = offline;
  role = user;
  socket_fd = fd;
  port = port;
}

-- The line that is added to the database file.
abbrev pub entry : Bytes → Bytes → Bytes
entry name word = b'\n' ∷ b'"' ∷ (name ++ (b'"' ∷ b':' ∷ b'"' ∷ (word ++ b'"' ∷ [])))

abbrev pub add_entry : Bytes → Bytes → Option Bytes → Option Bytes
add_entry name word none = none
add_entry name word (some text) = some (text ++ entry name word)

get_elem?-last :
    (us : List User) (u : User) → get_elem? (us ++ u ∷ []) (length (us ++ u ∷ []) - 1) ≡ some u
get_elem?-last us u =
    let same : length (us ++ u ∷ []) - 1 ≡ length us = omega (arith, length-append us (u ∷ [])) in
    rw same (at us)
  where
    at : (vs : List User) → get_elem? (vs ++ u ∷ []) (length vs) ≡ some u
    at [] = refl
    at (v ∷ vs) = at vs

module _ (peer : ℕ → Peer) (name word : Bytes) (fd : ℕ) (address : Bytes) (port : ℕ) (s : Server)
    (v : IsValid s) (n : IsName name) (fits : length word < max_password_length)
    (located : get_user_ip_address_and_port peer fd ≡ some (address, port))
    (address_fits : length address < max_address_length) where
  abbrev pub made : User
  made = new_user name word fd address port

  made-IsNew : IsNew made
  made-IsNew = record {
    valid = record {
      name = n;
      word = fits;
      id_text = ground arith;
      id_fits = omega arith;
      place = inr (refl, refl, refl);
      rank = inl refl;
      presence = inl refl;
    };
    address = address_fits;
    outside = refl;
  }

  -- The state after a registration.
  abbrev pub registered : Server
  registered = record s {
    user_list = s.user_list ++ made ∷ [];
    database = add_entry name word s.database;
  }

  located_in :
      (t : Server)
      → lift uninitialised (get_user_ip_address_and_port peer fd) t ≡ ok (address, port) t
  located_in t = rw located refl

  -- What follows the change of the table.
  finish : ℕ → M ℕ
  finish code =
      if code == user_already_exist || code == user_list_full
      then (do unlock user_lock; pure code)
      else do
        count ← get_user_count_in_database rw_mutex
        write_to_database (count - 1)
        unlock user_lock
        pure code

  -- The part before the table is searched.
  registration_start :
      (code : ℕ) (t : Server) {r : Outcome ℕ}
      → user_database_add_user made rw_mutex (locked s) ≡ ok code t
      → finish code t ≡ r
      → user_registration peer name word fd s ≡ r
  unfolding user_registration finish
  registration_start code t add rest = bind_ok _ _ (lock-run user_lock s v.ready.user_free) (
      bind_ok _ _ (strcpy-run max_name name _ (omega (arith, n.fits))) (
        bind_ok _ _ (strcpy-run max_password_length word _ fits) (
          bind_ok _ _ (located_in (locked s)) (
            bind_ok _ _ (strcpy-run max_address_length address _ address_fits)
              (bind_ok _ _ add rest)))))

  -- A table at its limit, and a name that is taken: nothing changes.
  pub user_registration_full :
      max_user_count ≤ length s.user_list
      → user_registration peer name word fd s ≡ ok user_list_full s
  unfolding finish unlock
  user_registration_full h =
      registration_start user_list_full (locked s) (add_user_full made (locked s) v.ready.rw_free h)
        (bind_ok _ _ refl (rw v.ready.user_free refl))

  module _ (below : length s.user_list < max_user_count) where
    pub user_registration_taken :
        (i : ℕ)
        → find_user name s.user_list ≡ some i
        → user_registration peer name word fd s ≡ ok user_already_exist s
    unfolding finish unlock
    user_registration_taken i h =
        registration_start user_already_exist (locked s)
          (add_user_taken made (locked s) v.ready.rw_free i below h)
          (bind_ok _ _ refl (rw v.ready.user_free refl))

    abbrev added : Server
    added = record (locked s) { user_list = s.user_list ++ made ∷ [] }

    write-run :
        write_to_database (length added.user_list - 1) added
        ≡ ok tt (record added { database = add_entry name word s.database })
    unfolding write_to_database
    write-run =
        bind_ok _ _
          (deref-run (length (s.user_list ++ made ∷ []) - 1) added
            (get_elem?-last s.user_list made))
          (elim (Option-cases s.database) [ inl e ↦ rw e refl | inr (text, e) ↦ rw e refl ])

    pub user_registration_new :
        find_user name s.user_list ≡ none
        → length s.user_list < s.capacity
        → user_registration peer name word fd s ≡ ok add_user_success registered
    unfolding finish unlock
    user_registration_new h room =
        registration_start add_user_success added
          (add_user_new made (locked s) v.ready.rw_free below h (new_Fits made made-IsNew) room)
          (bind_ok _ _ (get_user_count_in_database-run rw_mutex added v.ready.rw_free)
            (bind_ok _ _ write-run (bind_ok _ _ refl (rw v.ready.user_free refl))))

  -- A registration at a valid state whose array has room, with a name of at most 16 bytes without
  -- NULs and colons, a password that fits its array, and a socket whose address is known and fits,
  -- returns a code and leaves a valid state, on each of its three outcomes.
  pub user_registration-IsValid :
      length s.user_list < s.capacity
      → (code : ℕ) × (t : Server) × (user_registration peer name word fd s ≡ ok code t) × IsValid t
  user_registration-IsValid room = elim (Bool-cases (leb max_user_count (length s.user_list))) [
    | inl e ↦ (_, s, user_registration_full (ground arith), v)
    | inr e ↦ elim (Option-cases (find_user name s.user_list)) [
      | inl fresh ↦ (
        _,
        _,
        user_registration_new (ground arith) fresh room,
        record {
          ready = record { rw_free = v.ready.rw_free; user_free = v.ready.user_free };
          table = append-IsTable made s.user_list v.table made-IsNew fresh;
          bounded = omega (arith, length-append s.user_list (made ∷ []));
        },
      )
      | inr (i, found) ↦ (_, s, user_registration_taken (ground arith) i found, v)
    ]
  ]
